-- ===== src/Keys/Jose.antt =====
-- What the keys use of the crates `jsonwebtoken` and `rsa`, which are not part of the program.
use keylo.Base.{ℕ, String, Bool, List, Option, some, ◌≡◌}
use keylo.Base.Results.{Result, ok}

-- `ErrorKind`, as far as the program tells its values apart.
pub data ErrorKind : Type 0 where
  expired_signature invalid_audience bad_token other_kind : ErrorKind

-- `Validation`: the algorithm is RS256 throughout.
pub record Validation : Type 0 where
  pub validate_aud : Bool
  pub aud : List String
  pub iss : List String

pub record Jose : Type 1 where
  pub EncodingKey : Type 0
  pub DecodingKey : Type 0
  pub Payload : Type 0
  pub decoding_from_rsa_pem : String → Result DecodingKey String
  pub encoding_from_rsa_pem : String → Result EncodingKey String
  -- The public key's n and e in base64.
  pub modulus_and_exponent : String → Result (String × String) String
  -- The header's `kid` and the payload; `none` is an error.
  pub encode : Option String → Payload → EncodingKey → Option String
  pub decode_header : String → Result (Option String) ErrorKind
  -- Signature, expiry at this time, issuer and audience.
  pub decode : ℕ → String → DecodingKey → Validation → Result Payload ErrorKind
  -- The `aud` of a payload.
  pub audience : Payload → String

-- Documented behaviour: a token that was signed with a key carries the `kid` it was given and
-- verifies with the public half of the key whenever its payload is acceptable at that time: not
-- expired, and of an issuer and audience that are asked for.
pub record IsSound (j : Jose) : Type 1 where
  pub IsPair : j.EncodingKey → j.DecodingKey → Type 0
  pub Accepts : ℕ → Validation → j.Payload → Type 0
  pub header_of_encoded :
      (kid : Option String) (p : j.Payload) (e : j.EncodingKey) (token : String)
      → j.encode kid p e ≡ some token
      → j.decode_header token ≡ ok kid
  pub decode_encoded :
      (kid : Option String) (p : j.Payload) (e : j.EncodingKey) (d : j.DecodingKey) (v : Validation)
      (token : String) (now : ℕ)
      → j.encode kid p e ≡ some token
      → IsPair e d
      → Accepts now v p
      → j.decode now token d v ≡ ok p
