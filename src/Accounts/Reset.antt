-- ===== src/Accounts/Reset.antt =====
-- `issue_password_reset_token`, `consume_password_reset_token` and `revoke_password_reset_token` of
-- src/db/password_reset.rs, each one transaction. Fresh identifiers and proofs are arguments, and
-- so is what `bcrypt::hash` returned for the new password. An error drops the transaction.
pub mod Runs
pub mod Proofs
pub mod OneTime
pub mod Single
pub mod Meaning
use keylo.Base.{
  ℕ, ◌+◌, String, Bool, true, false, not, ◌&&◌, ◌||◌, Option, none, some, List, [], ◌∷◌, ◌++◌, ◌==◌,
  any, find, count, leb, is_some, update_where, if◌then◌else◌,
}
use keylo.Base.Results.{Result, ok, err, ◌>>=◌, ℤ}
use keylo.Session.Tables.{RefreshSession, Principal, is_none, coalesce, revoke}
use keylo.Accounts.Tables.{
  User, OneTimeToken, BrowserSession, AuditLog, password_reset, Db, AccountError, hash_failed,
  is_pending, is_pending_of, revoke_proof, spend_proof, at_least_one, insert_proof, insert_audit,
  new_proof, select_proof,
}

pub record IssuedPasswordResetToken : Type 0 where
  pub id : String
  pub email : String
  pub token : String
  pub expires_at : ℕ

pub data ConsumePasswordResetTokenResult : Type 0 where
  reset :
      (user_id : String) (revoked_refresh_sessions revoked_browser_sessions : ℕ)
      → ConsumePasswordResetTokenResult
  invalid : ConsumePasswordResetTokenResult

abbrev pub may_reset : User → Bool
may_reset u = u.active && u.email_verified && is_some u.password_hash

abbrev pub or_username : Option User → Option User → Option User
or_username (some u) by_username = some u
or_username none by_username = by_username

unfoldable pub eligible_user : String → List User → Option User
eligible_user identifier users =
    or_username (find (λ u. u.email == identifier && may_reset u) users)
      (find (λ u. u.username == identifier && may_reset u) users)

-- `invalid`
abbrev pub is_refused : ℕ → OneTimeToken → User → Bool
is_refused now t u =
    is_some t.consumed_at
    || is_some t.revoked_at
    || leb t.expires_at now
    || not u.active
    || not u.email_verified
    || is_none u.password_hash
    || not (u.email == t.email_snapshot)

-- A pending row that fails is revoked; any other row is left alone.
abbrev pub refuse_proof : ℕ → OneTimeToken → List OneTimeToken → List OneTimeToken
refuse_proof now t ts =
    if is_pending t then update_where (λ r. r.id == t.id) (revoke_proof now) ts else ts

-- principal_id IN (SELECT id FROM principals WHERE principal_type = 'user' AND ref_id = …)
abbrev pub belongs_to : List Principal → String → RefreshSession → Bool
belongs_to principals user_id s =
    any (λ p. p.principal_type == "user" && p.ref_id == user_id && p.id == s.principal_id)
      principals

abbrev pub open_session : List Principal → String → RefreshSession → Bool
open_session principals user_id s = belongs_to principals user_id s && is_none s.revoked_at

abbrev pub open_browser : String → BrowserSession → Bool
open_browser user_id s = s.user_id == user_id && is_none s.revoked_at

abbrev pub set_password : ℕ → String → User → User
set_password now hash u = record u {
  password_hash = some hash;
  password_change_required = true;
  updated_at = now;
}

-- The proof is spent, and the account's other pending proofs are revoked.
abbrev pub spend_siblings : ℕ → String → String → List OneTimeToken → List OneTimeToken
spend_siblings now id user_id ts =
    update_where (λ r. r.user_id == user_id && not (r.id == id) && is_pending r) (revoke_proof now)
      (update_where (λ r. r.id == id) (spend_proof now) ts)

abbrev pub close_browser : ℕ → BrowserSession → BrowserSession
close_browser now s = record s { revoked_at = coalesce s.revoked_at (some now) }

abbrev pub reset_audit : String → String → ℕ → ℕ → AuditLog
reset_audit id user_id sessions browsers = record {
  id = id;
  event_type = "user.password_reset";
  actor = none;
  detail = password_reset user_id sessions browsers;
}

-- The tables after every UPDATE of an accepted proof; the audit row comes last.
abbrev pub reset_tables : ℕ → String → String → String → Db → Db
reset_tables now hash id user_id db = record db {
  users = update_where (λ u. u.id == user_id) (set_password now hash) db.users;
  password_reset_tokens = spend_siblings now id user_id db.password_reset_tokens;
  refresh_sessions =
      update_where (open_session db.principals user_id) (revoke now (some "password_reset"))
        db.refresh_sessions;
  oidc_browser_sessions =
      update_where (open_browser user_id) (close_browser now) db.oidc_browser_sessions;
}

unfoldable pub accept_reset :
    ℕ
    → Option String
    → String
    → OneTimeToken
    → Db
    → Result (ConsumePasswordResetTokenResult × Db) AccountError
accept_reset now none audit_id t db = err hash_failed
accept_reset now (some hash) audit_id t db =
    let sessions = count (open_session db.principals t.user_id) db.refresh_sessions in
    let browsers = count (open_browser t.user_id) db.oidc_browser_sessions in
    insert_audit (reset_audit audit_id t.user_id sessions browsers) db.audit_logs >>= (λ logs. ok (
      reset t.user_id sessions browsers,
      record (reset_tables now hash t.id t.user_id db) { audit_logs = logs },
    ))

unfoldable pub consume_selected :
    ℕ
    → Option String
    → String
    → Db
    → Option (OneTimeToken × User)
    → Result (ConsumePasswordResetTokenResult × Db) AccountError
consume_selected now hashed audit_id db none = ok (invalid, db)
consume_selected now hashed audit_id db (some (t, u)) =
    if is_refused now t u
    then ok
        (invalid, record db { password_reset_tokens = refuse_proof now t db.password_reset_tokens })
    else accept_reset now hashed audit_id t db

module _ (token_hash : String → String) where
  unfoldable pub issue_to :
      ℕ
      → ℤ
      → String
      → String
      → Db
      → Option User
      → Result (Option IssuedPasswordResetToken × Db) AccountError
  issue_to now lifetime_seconds token_id token db none = ok (none, db)
  issue_to now lifetime_seconds token_id token db (some u) =
      let expires_at = now + at_least_one lifetime_seconds in
      insert_proof (new_proof token_id u.id u.email (token_hash token) expires_at) db.users
        (update_where (is_pending_of u.id) (revoke_proof now) db.password_reset_tokens)
      >>= (λ tokens. ok (
        some (record { id = token_id; email = u.email; token = token; expires_at = expires_at }),
        record db { password_reset_tokens = tokens },
      ))

  unfoldable pub issue_password_reset_token :
      ℕ
      → String
      → ℤ
      → String
      → String
      → Db
      → Result (Option IssuedPasswordResetToken × Db) AccountError
  issue_password_reset_token now identifier lifetime_seconds token_id token db =
      issue_to now lifetime_seconds token_id token db (eligible_user identifier db.users)

  unfoldable pub consume_password_reset_token :
      ℕ
      → String
      → Option String
      → String
      → Db
      → Result (ConsumePasswordResetTokenResult × Db) AccountError
  consume_password_reset_token now token hashed audit_id db =
      consume_selected now hashed audit_id db
        (select_proof (token_hash token) db.users db.password_reset_tokens)

unfoldable pub revoke_password_reset_token : ℕ → String → Db → Bool × Db
revoke_password_reset_token now token_id db = (
  any (λ t. t.id == token_id && is_pending t) db.password_reset_tokens,
  record db {
    password_reset_tokens =
        update_where (λ t. t.id == token_id && is_pending t) (revoke_proof now)
          db.password_reset_tokens;
  },
)
