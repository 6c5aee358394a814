-- ===== src/Keys/Tokens.antt =====
-- Signing, and the choice of the key that verifies a token by its `kid`. A decoder reads the clock
-- twice: `now` decides which passive keys are live, and `checked` whether the token has expired.
pub mod Overlap
use keylo.Base.{
  ℕ, String, Bool, ◌&&◌, Option, none, some, List, [], ◌∷◌, ◌==◌, find, if◌then◌else◌, true, false,
}
use keylo.Base.Results.{Result, ok, err, ◌>>=◌, map_err, ok_or}
use keylo.Base.Text.{is_blank}
use keylo.Errors.{AuthError, token_creation, invalid_token, expired_token, invalid_audience}
use keylo.Keys.Jose.{Jose, ErrorKind, expired_signature, bad_token, Validation}
use keylo.Keys.Pair.{KeyPair, is_live}
use keylo.Keys.Ring.{Keys}

abbrev of_decoding : ErrorKind → AuthError
of_decoding expired_signature = expired_token
of_decoding ErrorKind.invalid_audience = invalid_audience
of_decoding _ = invalid_token

abbrev of_service_decoding : ErrorKind → AuthError
of_service_decoding expired_signature = expired_token
of_service_decoding _ = invalid_token

module _ (j : Jose) where
  unfoldable pub sign_token : Keys j → j.Payload → Result String AuthError
  sign_token keys claims = do
    encoding ← ok_or token_creation keys.active.encoding
    ok_or token_creation (j.encode (some keys.active.key_id) claims encoding)

  -- The key for the header's `kid`.
  unfoldable pub verifier : ℕ → Option String → Keys j → Option (j.DecodingKey)
  verifier now none keys = some keys.active.decoding
  verifier now (some kid) keys =
      if kid == keys.active.key_id
      then some keys.active.decoding
      else elim (find (λ k. kid == k.key_id && is_live j now k) keys.passive) [
        | none ↦ none
        | some k ↦ some k.decoding
      ]

  unfoldable pub decode_with_key : ℕ → ℕ → String → Validation → Keys j → Result j.Payload ErrorKind
  unfolding verifier
  decode_with_key now checked token validation keys = do
    kid ← j.decode_header token
    decoding ← ok_or bad_token (verifier now kid keys)
    j.decode checked token decoding validation

  abbrev pub access_validation : Keys j → Validation
  access_validation keys = record {
    validate_aud = true;
    aud = keys.audiences;
    iss = keys.issuer ∷ [];
  }

  unfoldable pub decode_token : ℕ → ℕ → String → Keys j → Result j.Payload AuthError
  unfolding decode_with_key
  decode_token now checked token keys =
      map_err of_decoding (decode_with_key now checked token (access_validation keys) keys)

  abbrev pub any_audience : String → Validation
  any_audience issuer = record { validate_aud = false; aud = []; iss = issuer ∷ [] }

  unfoldable pub decode_service_token : ℕ → ℕ → String → Keys j → Result j.Payload AuthError
  unfolding decode_with_key
  decode_service_token now checked token keys = do
    claims ←
        map_err of_service_decoding
          (decode_with_key now checked token (any_audience keys.issuer) keys)
    if is_blank (j.audience claims) then err invalid_token else ok claims

  unfoldable pub decode_oidc_access_token :
      ℕ → ℕ → String → String → Keys j → Result j.Payload AuthError
  unfolding decode_with_key
  decode_oidc_access_token now checked token issuer keys =
      map_err of_service_decoding (decode_with_key now checked token (any_audience issuer) keys)

  unfoldable pub decode_service_token_for_audience :
      ℕ → ℕ → String → String → Keys j → Result j.Payload AuthError
  unfolding decode_with_key
  decode_service_token_for_audience now checked token expected_audience keys =
      map_err of_service_decoding (
        decode_with_key now checked token
          (record { validate_aud = true; aud = expected_audience ∷ []; iss = keys.issuer ∷ [] })
          keys)
