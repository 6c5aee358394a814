-- ===== src/Keys/Loaded.antt =====
-- What `from_pem` (src/models/jwt.rs) loads.
use keylo.Base.{ℕ, String, Bool, Option, none, some, ◌≡◌, arith, is_some}
use keylo.Base.Results.{bind-eq-ok, ok}
use keylo.Keys.Jose.{Jose}
use keylo.Keys.Pair.{KeyPair, decoding_of, published_of, encoding_of, private_of, from_pem}

module _ (j : Jose) where
  -- A pair that `from_pem` made from these arguments.
  pub record IsLoaded (key_id : String) (private_key : Bool) (expires_at : Option ℕ) (k : KeyPair j)
      : Type 0 where
    pub named : k.key_id ≡ key_id
    pub published : k.jwk.kid ≡ key_id
    pub expiry : k.expires_at ≡ expires_at
    pub signs : is_some k.encoding ≡ private_key

  encoding_of-signs :
      (private_key : Option String) (e : Option j.EncodingKey)
      → encoding_of j private_key ≡ ok e
      → is_some e ≡ is_some private_key
  encoding_of-signs none e h = ground arith
  encoding_of-signs (some pem) e h =
      let (key, _, made) = bind-eq-ok (private_of j pem) _ h in ground (arith, made)

  pub from_pem-IsLoaded :
      (key_id : String) (private_key : Option String) (public_key : String) (expires_at : Option ℕ)
      (k : KeyPair j)
      → from_pem j key_id private_key public_key expires_at ≡ ok k
      → IsLoaded key_id (is_some private_key) expires_at k
  unfolding from_pem
  from_pem-IsLoaded key_id private_key public_key expires_at k h =
      let (decoding, _, h₁) = bind-eq-ok (decoding_of j public_key) _ h in
      let (ne, _, h₂) = bind-eq-ok (published_of j public_key) _ h₁ in
      let (encoding, made, h₃) = bind-eq-ok (encoding_of j private_key) _ h₂ in
      record {
        named = ground (arith, h₃);
        published = ground (arith, h₃);
        expiry = ground (arith, h₃);
        signs = ground (arith, h₃, encoding_of-signs private_key encoding made);
      }
