-- ===== src/Mfa/Recovery.antt =====
-- The statements on recovery codes of src/db/mfa.rs: enrolment with new codes, and the two ways to use
-- one. `bcrypt::verify` is a parameter, and what `bcrypt::hash` returned for each code is an argument.
pub mod Enrolment
pub mod OneTime
use keylo.Base.Results.{Result, ok, err, ◌>>=◌}
use keylo.Base.{
  ℕ, String, Bool, true, false, not, ◌&&◌, Option, none, some, List, [], ◌∷◌, ◌++◌, ◌==◌, any,
  length, retain, eqb, update_where, if◌then◌else◌,
}
use keylo.Session.Tables.{is_none}
use keylo.Mfa.Tables.{RecoveryCode, Db}
use keylo.Mfa.Totp.{enable_totp_credential, save_recent_verification}
use keylo.Mfa.Codes.{normalize_recovery_code}

pub data MfaError : Type 0 where
  wrong_count : MfaError
  invalid_format : MfaError
  bcrypt_failed : MfaError

-- A code with its fresh identifier and what `bcrypt::hash` returned for its normal form.
pub record NewCode : Type 0 where
  pub id : String
  pub code : String
  pub hashed : Option String

abbrev pub hashed_row :
    String → NewCode → Option String → Option String → Result RecoveryCode MfaError
hashed_row user_id c none hashed = err invalid_format
hashed_row user_id c (some normal) none = err bcrypt_failed
hashed_row user_id c (some normal) (some hash) =
    ok (record { id = c.id; user_id = user_id; code_hash = hash; used_at = none })

unfoldable pub hashed_rows : String → List NewCode → Result (List RecoveryCode) MfaError
hashed_rows user_id [] = ok []
hashed_rows user_id (c ∷ cs) =
    let rest = hashed_rows user_id cs in
    hashed_row user_id c (normalize_recovery_code c.code) c.hashed
    >>= (λ row. rest >>= (λ rows. ok (row ∷ rows)))

abbrev pub with_codes : String → List RecoveryCode → Bool × Db → Db → Bool × Db
with_codes user_id rows (false, enabled) db = (false, db)
with_codes user_id rows (true, enabled) db = (
  true,
  record enabled {
    recovery_codes = retain (λ c. not (c.user_id == user_id)) enabled.recovery_codes ++ rows;
  },
)

unfoldable pub enable_totp_credential_with_recovery_codes :
    ℕ → String → ℕ → List NewCode → Db → Result (Bool × Db) MfaError
enable_totp_credential_with_recovery_codes now user_id step codes db =
    if not (eqb (length codes) 10)
    then err wrong_count
    else hashed_rows user_id codes
      >>= (λ rows. ok (with_codes user_id rows (enable_totp_credential now user_id step db) db))

-- user_id = … AND used_at IS NULL
abbrev pub is_unused_of : String → RecoveryCode → Bool
is_unused_of user_id c = c.user_id == user_id && is_none c.used_at

module _ (verify : String → String → Option Bool) where
  abbrev pub chosen :
      RecoveryCode
      → Option Bool
      → Result (Option RecoveryCode) MfaError
      → Result (Option RecoveryCode) MfaError
  chosen c none rest = err bcrypt_failed
  chosen c (some true) rest = ok (some c)
  chosen c (some false) rest = rest

  -- The loop over the rows of the SELECT: the first one that the code matches.
  unfoldable pub find_match :
      String → String → List RecoveryCode → Result (Option RecoveryCode) MfaError
  find_match normalized user_id [] = ok none
  find_match normalized user_id (c ∷ cs) =
      let rest = find_match normalized user_id cs in
      if is_unused_of user_id c then chosen c (verify normalized c.code_hash) rest else rest

  -- UPDATE … WHERE id = … AND used_at IS NULL
  abbrev pub mark_used : ℕ → String → Db → Bool × Db
  mark_used now id db = (
    any (λ c. c.id == id && is_none c.used_at) db.recovery_codes,
    record db {
      recovery_codes =
          update_where (λ c. c.id == id && is_none c.used_at) (λ c. record c { used_at = some now })
            db.recovery_codes;
    },
  )

  abbrev pub use_found : ℕ → Db → Option RecoveryCode → Bool × Db
  use_found now db none = (false, db)
  use_found now db (some c) = mark_used now c.id db

  unfoldable pub consume_normalized : ℕ → String → Db → Option String → Result (Bool × Db) MfaError
  consume_normalized now user_id db none = ok (false, db)
  consume_normalized now user_id db (some normalized) =
      find_match normalized user_id db.recovery_codes >>= (λ found. ok (use_found now db found))

  unfoldable pub consume_recovery_code : ℕ → String → String → Db → Result (Bool × Db) MfaError
  consume_recovery_code now user_id code db =
      consume_normalized now user_id db (normalize_recovery_code code)

  abbrev pub record_found : ℕ → String → String → ℕ → Db → Option RecoveryCode → Bool × Db
  record_found now user_id token_jti expires_at db none = (false, db)
  record_found now user_id token_jti expires_at db (some c) = (
    true,
    record db {
      recovery_codes =
          update_where (λ r. r.id == c.id) (λ r. record r { used_at = some now }) db.recovery_codes;
      recent_verifications =
          save_recent_verification now user_id token_jti expires_at db.recent_verifications;
    },
  )

  unfoldable pub record_normalized :
      ℕ → String → String → ℕ → Db → Option String → Result (Bool × Db) MfaError
  record_normalized now user_id token_jti expires_at db none = ok (false, db)
  record_normalized now user_id token_jti expires_at db (some normalized) =
      find_match normalized user_id db.recovery_codes
      >>= (λ found. ok (record_found now user_id token_jti expires_at db found))

  unfoldable pub consume_recovery_code_and_record_recent_verification :
      ℕ → String → String → String → ℕ → Db → Result (Bool × Db) MfaError
  consume_recovery_code_and_record_recent_verification now user_id code token_jti expires_at db =
      record_normalized now user_id token_jti expires_at db (normalize_recovery_code code)
