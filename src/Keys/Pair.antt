-- ===== src/Keys/Pair.antt =====
-- `Jwk`, `KeyPair` and its constructor.
use keylo.Base.{ℕ, String, Bool, true, Option, none, some, ltb}
use keylo.Base.Results.{Result, ok, ◌>>=◌, map_err}
use keylo.Base.Text.{◌⧺◌}
use keylo.Keys.Jose.{Jose}

pub record Jwk : Type 0 where
  pub kty : String
  pub use_ : String
  pub alg : String
  pub kid : String
  pub n : String
  pub e : String

module _ (j : Jose) where
  pub record KeyPair : Type 0 where
    pub key_id : String
    pub private_key_pem : Option String
    pub public_key_pem : String
    pub encoding : Option j.EncodingKey
    pub decoding : j.DecodingKey
    pub jwk : Jwk
    pub expires_at : Option ℕ

  abbrev pub private_of : String → Result j.EncodingKey String
  private_of pem =
      map_err (λ reason. "invalid RSA private key: " ⧺ reason) (j.encoding_from_rsa_pem pem)

  -- `map(…).transpose()?` of the optional private key
  abbrev pub encoding_of : Option String → Result (Option j.EncodingKey) String
  encoding_of none = ok none
  encoding_of (some pem) = do key ← private_of pem; ok (some key)

  abbrev pub decoding_of : String → Result j.DecodingKey String
  decoding_of pem =
      map_err (λ reason. "invalid RSA public key: " ⧺ reason) (j.decoding_from_rsa_pem pem)

  abbrev pub published_of : String → Result (String × String) String
  published_of pem =
      map_err (λ reason. "failed to parse RSA public key for JWKS: " ⧺ reason)
        (j.modulus_and_exponent pem)

  unfoldable pub from_pem : String → Option String → String → Option ℕ → Result KeyPair String
  from_pem key_id private_key_pem public_key_pem expires_at = do
    decoding ← decoding_of public_key_pem
    (n, e) ← published_of public_key_pem
    encoding ← encoding_of private_key_pem
    ok (record {
      key_id = key_id;
      private_key_pem = private_key_pem;
      public_key_pem = public_key_pem;
      encoding = encoding;
      decoding = decoding;
      jwk = record { kty = "RSA"; use_ = "sig"; alg = "RS256"; kid = key_id; n = n; e = e };
      expires_at = expires_at;
    })

  -- `expires_at.is_none_or(|expires_at| expires_at > now)`
  abbrev pub live_until : ℕ → Option ℕ → Bool
  live_until now none = true
  live_until now (some expires_at) = ltb now expires_at

  abbrev pub is_live : ℕ → KeyPair → Bool
  is_live now k = live_until now k.expires_at
