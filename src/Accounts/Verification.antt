-- ===== src/Accounts/Verification.antt =====
-- `issue_email_verification_token`, `consume_email_verification_token` and
-- `revoke_email_verification_token` of src/db/email_verification.rs, each one transaction. Fresh
-- identifiers and proofs are arguments. An error drops the transaction.
pub mod Runs
pub mod Proofs
pub mod OneTime
pub mod Meaning
use keylo.Base.{
  ℕ, ◌+◌, String, Bool, true, false, not, ◌&&◌, ◌||◌, Option, none, some, List, ◌==◌, any, find,
  leb, is_some, update_where, if◌then◌else◌,
}
use keylo.Base.Results.{Result, ok, err, ◌>>=◌, ℤ}
use keylo.Accounts.Tables.{
  User, OneTimeToken, AuditLog, email_token, Db, AccountError, is_pending, is_pending_of,
  revoke_proof, spend_proof, at_least_one, insert_proof, insert_audit, new_proof, select_proof,
}

pub record IssuedEmailVerificationToken : Type 0 where
  pub id : String
  pub email : String
  pub token : String
  pub expires_at : ℕ

pub data ConsumeEmailVerificationTokenResult : Type 0 where
  verified : (user_id : String) → ConsumeEmailVerificationTokenResult
  invalid : ConsumeEmailVerificationTokenResult

-- `invalid`
abbrev pub is_refused : ℕ → OneTimeToken → User → Bool
is_refused now t u =
    is_some t.consumed_at
    || is_some t.revoked_at
    || leb t.expires_at now
    || not u.active
    || not (u.email == t.email_snapshot)

-- A pending row that fails is revoked; any other row is left alone.
abbrev pub refuse_proof : ℕ → OneTimeToken → List OneTimeToken → List OneTimeToken
refuse_proof now t ts =
    if is_pending t then update_where (λ r. r.id == t.id) (revoke_proof now) ts else ts

abbrev pub verify_email : ℕ → User → User
verify_email now u = record u { email_verified = true; updated_at = now }

abbrev pub verified_audit : String → String → AuditLog
verified_audit id user_id = record {
  id = id;
  event_type = "user.email_verified";
  actor = none;
  detail = email_token user_id;
}

abbrev pub spend_row : ℕ → String → Db → Db
spend_row now id db = record db {
  email_verification_tokens =
      update_where (λ r. r.id == id) (spend_proof now) db.email_verification_tokens;
}

-- `if !email_verified { … }`
unfoldable pub mark_verified : ℕ → String → User → String → Db → Result Db AccountError
mark_verified now audit_id u user_id db =
    if u.email_verified
    then ok db
    else (insert_audit (verified_audit audit_id user_id) db.audit_logs >>= (λ logs. ok (record db {
      users = update_where (λ r. r.id == user_id) (verify_email now) db.users;
      audit_logs = logs;
    })))

unfoldable pub consume_selected :
    ℕ
    → String
    → Db
    → Option (OneTimeToken × User)
    → Result (ConsumeEmailVerificationTokenResult × Db) AccountError
consume_selected now audit_id db none = ok (invalid, db)
consume_selected now audit_id db (some (t, u)) =
    if is_refused now t u
    then ok (
      invalid,
      record db { email_verification_tokens = refuse_proof now t db.email_verification_tokens },
    )
    else mark_verified now audit_id u t.user_id (spend_row now t.id db)
      >>= (λ db'. ok (verified t.user_id, db'))

module _ (token_hash : String → String) where
  unfoldable pub issue_to :
      ℕ
      → ℤ
      → String
      → String
      → Db
      → Option User
      → Result (Option IssuedEmailVerificationToken × Db) AccountError
  issue_to now lifetime_seconds token_id token db none = ok (none, db)
  issue_to now lifetime_seconds token_id token db (some u) =
      let expires_at = now + at_least_one lifetime_seconds in
      if not u.active || u.email_verified
      then ok (none, db)
      else insert_proof (new_proof token_id u.id u.email (token_hash token) expires_at) db.users
          (update_where (is_pending_of u.id) (revoke_proof now) db.email_verification_tokens)
        >>= (λ tokens. ok (
          some (record { id = token_id; email = u.email; token = token; expires_at = expires_at }),
          record db { email_verification_tokens = tokens },
        ))

  unfoldable pub issue_email_verification_token :
      ℕ
      → String
      → ℤ
      → String
      → String
      → Db
      → Result (Option IssuedEmailVerificationToken × Db) AccountError
  issue_email_verification_token now user_id lifetime_seconds token_id token db =
      issue_to now lifetime_seconds token_id token db (find (λ u. u.id == user_id) db.users)

  unfoldable pub consume_email_verification_token :
      ℕ → String → String → Db → Result (ConsumeEmailVerificationTokenResult × Db) AccountError
  consume_email_verification_token now token audit_id db =
      consume_selected now audit_id db
        (select_proof (token_hash token) db.users db.email_verification_tokens)

unfoldable pub revoke_email_verification_token : ℕ → String → Db → Bool × Db
revoke_email_verification_token now token_id db = (
  any (λ t. t.id == token_id && is_pending t) db.email_verification_tokens,
  record db {
    email_verification_tokens =
        update_where (λ t. t.id == token_id && is_pending t) (revoke_proof now)
          db.email_verification_tokens;
  },
)
