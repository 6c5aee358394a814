-- ===== src/Mfa/Examples.antt =====
-- A person who enrols, confirms with one time step and uses the next one twice.
use keylo.Base.{
  ◌≤◌, ◌+◌, ◌*◌, String, Bool, Option, none, some, List, [], ◌∷◌, ◌≡◌, refl, count, ◌==◌,
}
use keylo.Mfa.Tables.{Db}
use keylo.Mfa.Totp.{
  save_pending_totp_credential, enable_totp_credential,
  consume_totp_step_and_record_recent_verification, save_recent_verification,
}
use keylo.Mfa.Totp.Proofs.{Call, verify, enable, accepted, may_take, accepted-le-may_take}
use keylo.Mfa.Codes.{normalize_recovery_code, format_recovery_code, to_ascii_lowercase}
use keylo.Mfa.Codes.RoundTrip.{normalize-format}
use keylo.Mfa.Recovery.{
  is_unused_of, find_match, consume_normalized, record_normalized, consume_recovery_code,
  consume_recovery_code_and_record_recent_verification,
}
use keylo.Mfa.Recovery.OneTime.{
  Op, consume, resume, consume_and_record, perform, enrols, used, used-le-unused,
}

abbrev enrolled : Db
enrolled = record {
  totp_credentials =
      record {
        user_id = "u1";
        encrypted_seed = "seed";
        enabled_at = none;
        last_verified_step = none;
        created_at = 5;
        updated_at = 5;
      }
      ∷ [];
  recent_verifications = [];
  recovery_codes = [];
}

save_pending-enrolled :
    save_pending_totp_credential 5 "u1" "seed"
      (record { totp_credentials = []; recent_verifications = []; recovery_codes = [] })
    ≡ enrolled
unfolding save_pending_totp_credential
save_pending-enrolled = refl

abbrev calls : List Call
calls = enable 10 "u1" 40 ∷ verify 40 "u1" 41 "j1" 640 ∷ verify 41 "u1" 41 "j2" 641 ∷ []

accepted-calls : accepted "u1" 41 calls enrolled ≡ 1
unfolding accepted enable_totp_credential consume_totp_step_and_record_recent_verification
accepted-calls = refl

accepted-le-may_take_example :
    accepted "u1" 41 calls enrolled ≤ count (may_take "u1" 41) enrolled.totp_credentials
accepted-le-may_take_example = accepted-le-may_take "u1" 41 calls enrolled

abbrev confirmed : Db
confirmed = record enrolled {
  totp_credentials =
      record {
        user_id = "u1";
        encrypted_seed = "seed";
        enabled_at = some 10;
        last_verified_step = some 40;
        created_at = 5;
        updated_at = 10;
      }
      ∷ [];
}

abbrev raw_code : String
raw_code = "0123456789ABCDEF0123456789abcdef"

format-raw_code : format_recovery_code raw_code ≡ "01234567-89ABCDEF-01234567-89abcdef"
unfolding format_recovery_code
format-raw_code = refl

normalize-format_example :
    normalize_recovery_code (format_recovery_code raw_code) ≡ some (to_ascii_lowercase raw_code)
normalize-format_example = normalize-format raw_code (refl, refl)

abbrev one_code : Db
one_code = record confirmed {
  recovery_codes =
      record {
        id = "c1";
        user_id = "u1";
        code_hash = "0123456789abcdef0123456789abcdef";
        used_at = none;
      }
      ∷ [];
}

abbrev plain_verify : String → String → Option Bool
plain_verify code hash = some (code == hash)

abbrev uses_of_code : List Op
uses_of_code =
    consume_and_record 50 "u1" raw_code "j1" 650
    ∷ consume 51 "u1" raw_code
    ∷ resume 52 "c1"
    ∷ consume_and_record 53 "u2" raw_code "j2" 653
    ∷ []

used-code : used plain_verify "u1" uses_of_code one_code ≡ 1
unfolding used perform consume_recovery_code_and_record_recent_verification record_normalized
    consume_recovery_code consume_normalized find_match normalize_recovery_code to_ascii_lowercase
    save_recent_verification
used-code = refl

used-le-unused_example :
    used plain_verify "u1" uses_of_code one_code
    ≤ count (is_unused_of "u1") one_code.recovery_codes
      + 10 * count (enrols plain_verify "u1") uses_of_code
used-le-unused_example = used-le-unused plain_verify "u1" uses_of_code one_code
