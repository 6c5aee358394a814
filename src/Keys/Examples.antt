-- ===== src/Keys/Examples.antt =====
-- Keys whose texts are their own names, and tokens that spell out their `kid`, claims and key.
use keylo.Base.{
  ◌<◌, true, ℕ, String, Bool, false, Option, none, some, [], ◌∷◌, ◌≡◌, refl, sym, ap, ◌∙◌, arith,
  ltb, any, is_some, if◌then◌else◌, ◌==◌, ◌&&◌, eqb, eq_iff,
}
use keylo.Base.Results.{ok, err, pos, add_seconds}
use keylo.Errors.{invalid_token, expired_token}
use keylo.Keys.Jose.{Jose, IsSound, bad_token, expired_signature}
use keylo.Keys.Pair.{KeyPair, from_pem}
use keylo.Keys.Ring.{KeyConfig, Keys, from_config, rotate, rollback, jwks}
use keylo.Keys.Ring.Invariant.{IsValid, Reachable, start, rotated, reachable-IsValid}
use keylo.Keys.Ring.Rotation.{taken_back, rollback-rotate}
use keylo.Keys.Tokens.{sign_token, verifier, decode_with_key, decode_token}
use keylo.Keys.Tokens.Overlap.{published_iff_verifies, decode-sign_rotated}

abbrev is_k1 : Option String → Bool
is_k1 none = false
is_k1 (some kid) = kid == "k1"

abbrev toy_encode : Option String → ℕ → String → Option String
toy_encode kid claims key = if is_k1 kid && eqb claims 7 && key == "old" then some "token" else none

-- One token, "token", which the key "old" signs for the claims 7 under the `kid` "k1", and which
-- expires at 500.
abbrev toy : Jose
toy = record {
  EncodingKey = String;
  DecodingKey = String;
  Payload = ℕ;
  decoding_from_rsa_pem = λ pem. ok pem;
  encoding_from_rsa_pem = λ pem. ok pem;
  modulus_and_exponent = λ pem. ok (pem, "AQAB");
  encode = toy_encode;
  decode_header = λ token. ok (some "k1");
  decode = λ now token key validation.
      if key == "old" then (if ltb now 500 then ok 7 else err expired_signature) else err bad_token;
  audience = λ claims. "admin-backend";
}

abbrev config : KeyConfig
config = record {
  jwt_key_id = "k1";
  jwt_private_key_pem = "old";
  jwt_public_key_pem = "old";
  jwt_passive_key_id = none;
  jwt_passive_public_key_pem = none;
  jwt_passive_private_key_pem = none;
  jwt_key_overlap_seconds = pos 300;
  jwt_issuer = "keylo";
  jwt_audiences = "admin-backend" ∷ [];
}

abbrev pair : String → String → Option ℕ → KeyPair toy
pair key_id pem expires_at = record {
  key_id = key_id;
  private_key_pem = some pem;
  public_key_pem = pem;
  encoding = some pem;
  decoding = pem;
  jwk = record { kty = "RSA"; use_ = "sig"; alg = "RS256"; kid = key_id; n = pem; e = "AQAB" };
  expires_at = expires_at;
}

abbrev first : Keys toy
first = record {
  active = pair "k1" "old" none;
  passive = [];
  issuer = "keylo";
  audiences = "admin-backend" ∷ [];
}

abbrev second : Keys toy
second = record first { active = pair "k2" "new" none; passive = pair "k1" "old" (some 400) ∷ [] }

first-Reachable : Reachable toy first
unfolding from_config from_pem
first-Reachable = start 50 config first refl

second_turn : rotate toy 100 "k2" "new" "new" (pos 300) first ≡ ok second
unfolding rotate from_pem
second_turn = refl

reachable-IsValid_example : IsValid toy second
reachable-IsValid_example =
    reachable-IsValid toy second
      (rotated first 100 "k2" "new" "new" (pos 300) second first-Reachable second_turn)

published_iff_verifies_example :
    any (λ w. w.kid == "k1") (jwks toy 399 second) ≡ is_some (verifier toy 399 (some "k1") second)
published_iff_verifies_example =
    published_iff_verifies toy 399 "k1" second
      (rotated first 100 "k2" "new" "new" (pos 300) second first-Reachable second_turn)

rollback-rotate_example :
    rollback toy 399 "k1" (pos 60) second ≡ ok (taken_back toy 399 (pos 60) first second)
rollback-rotate_example =
    rollback-rotate toy first second 100 399 "k2" "new" "new" (pos 300) (pos 60)
      (reachable-IsValid toy first first-Reachable) second_turn (omega arith) refl

encoded_kid :
    (kid : Option String) (claims : ℕ) (key token : String)
    → toy_encode kid claims key ≡ some token
    → (kid ≡ some "k1") × (claims ≡ 7) × (key ≡ "old")
encoded_kid none claims key token h = cc
encoded_kid (some kid) claims key token h = (
  ap some ((eq_iff kid "k1").0 (ground (arith, h))),
  ground (arith, h),
  (eq_iff key "old").0 (ground (arith, h)),
)

abbrev toy-IsSound : IsSound toy
toy-IsSound = record {
  IsPair = λ e d. ◌≡◌ {A = String} e d;
  Accepts = λ now v p. now < 500;
  header_of_encoded = λ kid p e token h. ap ok (sym (encoded_kid kid p e token h).0);
  decode_encoded = λ kid p e d v token now h pair alive.
      let (_, seven, old) = encoded_kid kid p e token h in
      let live : ltb now 500 ≡ true = ground (arith, alive) in
      rw ((eq_iff d "old").1 (sym pair ∙ old), live, seven) refl;
}

decode_token-expired : decode_token toy 600 600 "token" first ≡ err expired_token
unfolding decode_token decode_with_key verifier
decode_token-expired = refl

decode-sign_rotated_example :
    (decode_token toy 100 100 "token" first ≡ ok 7)
    × (decode_token toy 399 399 "token" second
        ≡ (if ltb 399 (add_seconds 100 (pos 300)) then ok 7 else err invalid_token))
unfolding sign_token
decode-sign_rotated_example =
    decode-sign_rotated toy toy-IsSound first second "old" 100 100 100 399 399 "k2" "new" "new"
      (pos 300) 7 "token" refl refl (omega arith) (omega arith) refl second_turn
