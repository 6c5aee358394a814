-- ===== src/Mfa/Totp.antt =====
-- The statements on TOTP credentials, each one transaction. A time step comes from an unsigned
-- number, so it is a natural number here.
pub mod Proofs
use keylo.Base.{
  ℕ, String, Bool, true, false, not, ◌&&◌, Option, none, some, List, [], ◌∷◌, ◌++◌, ◌==◌, any,
  retain, ltb, is_some, if◌then◌else◌, update_where,
}
use keylo.Mfa.Tables.{MfaTotpCredential, RecentVerification, Db}

abbrev new_credential : ℕ → String → String → MfaTotpCredential
new_credential now user_id encrypted_seed = record {
  user_id = user_id;
  encrypted_seed = encrypted_seed;
  enabled_at = none;
  last_verified_step = none;
  created_at = now;
  updated_at = now;
}

-- INSERT … ON CONFLICT (user_id) DO UPDATE
unfoldable pub save_pending_totp_credential : ℕ → String → String → Db → Db
save_pending_totp_credential now user_id encrypted_seed db =
    if any (λ c. c.user_id == user_id) db.totp_credentials
    then record db {
      totp_credentials =
          update_where (λ c. c.user_id == user_id)
            (λ c. record c {
              encrypted_seed = encrypted_seed;
              enabled_at = none;
              last_verified_step = none;
              updated_at = now;
            })
            db.totp_credentials;
    }
    else record db {
      totp_credentials = db.totp_credentials ++ new_credential now user_id encrypted_seed ∷ [];
    }

abbrev pub is_pending : String → MfaTotpCredential → Bool
is_pending user_id c = c.user_id == user_id && not (is_some c.enabled_at)

-- rows_affected() > 0
unfoldable pub enable_totp_credential : ℕ → String → ℕ → Db → Bool × Db
enable_totp_credential now user_id step db = (
  any (is_pending user_id) db.totp_credentials,
  record db {
    totp_credentials =
        update_where (is_pending user_id)
          (λ c. record c {
            enabled_at = some now;
            last_verified_step = some step;
            updated_at = now;
          })
          db.totp_credentials;
  },
)

-- last_verified_step IS NULL OR last_verified_step < step
abbrev pub is_before : ℕ → Option ℕ → Bool
is_before step none = true
is_before step (some last) = ltb last step

abbrev pub takes : String → ℕ → MfaTotpCredential → Bool
takes user_id step c =
    c.user_id == user_id && is_some c.enabled_at && is_before step c.last_verified_step

abbrev pub is_proof : String → String → RecentVerification → Bool
is_proof user_id token_jti v = v.user_id == user_id && v.token_jti == token_jti

-- INSERT … ON CONFLICT (user_id, token_jti) DO UPDATE
unfoldable pub save_recent_verification :
    ℕ → String → String → ℕ → List RecentVerification → List RecentVerification
save_recent_verification now user_id token_jti expires_at vs =
    if any (is_proof user_id token_jti) vs
    then update_where (is_proof user_id token_jti)
        (λ v. record v { verified_at = now; expires_at = expires_at }) vs
    else vs
      ++ record {
        user_id = user_id;
        token_jti = token_jti;
        verified_at = now;
        expires_at = expires_at;
      }
        ∷ []

unfoldable pub consume_totp_step_and_record_recent_verification :
    ℕ → String → ℕ → String → ℕ → Db → Bool × Db
unfolding save_recent_verification
consume_totp_step_and_record_recent_verification now user_id step token_jti expires_at db =
    if not (any (takes user_id step) db.totp_credentials) then (false, db) else (
      true,
      record db {
        totp_credentials =
            update_where (takes user_id step)
              (λ c. record c { last_verified_step = some step; updated_at = now })
              db.totp_credentials;
        recent_verifications =
            save_recent_verification now user_id token_jti expires_at db.recent_verifications;
      },
    )

unfoldable pub has_recent_mfa_verification : ℕ → String → String → Db → Bool
has_recent_mfa_verification now user_id token_jti db =
    any (λ v. is_proof user_id token_jti v && ltb now v.expires_at) db.recent_verifications

unfoldable pub delete_totp_credential : String → Db → Bool × Db
delete_totp_credential user_id db =
    if any (λ c. c.user_id == user_id) db.totp_credentials
    then (
      true,
      record db {
        totp_credentials = retain (λ c. not (c.user_id == user_id)) db.totp_credentials;
        recent_verifications = retain (λ v. not (v.user_id == user_id)) db.recent_verifications;
      },
    )
    else (false, db)
