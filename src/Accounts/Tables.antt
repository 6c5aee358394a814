-- ===== src/Accounts/Tables.antt =====
-- The rows that the account statements read and write, and what the statements on one-time proofs
-- share: the tables password_reset_tokens and email_verification_tokens of src/migrations/ have the
-- same columns. Times are Unix seconds; NOW() is an argument of each transaction.
use keylo.Base.{
  ℕ, max, String, Bool, not, ◌&&◌, ◌||◌, Option, none, some, List, [], ◌∷◌, ◌++◌, ◌==◌, any, find,
  if◌then◌else◌,
}
use keylo.Base.Results.{Result, ok, err, ℤ, pos, negsuc}
use keylo.Session.Tables.{RefreshSession, Principal, is_none, coalesce}

-- users
pub record User : Type 0 where
  pub id : String
  pub username : String
  pub email : String
  pub email_verified : Bool
  pub active : Bool
  pub password_hash : Option String
  pub password_change_required : Bool
  pub updated_at : ℕ

pub record OneTimeToken : Type 0 where
  pub id : String
  pub user_id : String
  pub email_snapshot : String
  pub token_hash : String
  pub expires_at : ℕ
  pub consumed_at : Option ℕ
  pub revoked_at : Option ℕ

-- oidc_browser_sessions
pub record BrowserSession : Type 0 where
  pub id : String
  pub session_hash : String
  pub user_id : String
  pub expires_at : ℕ
  pub revoked_at : Option ℕ

-- What the `format!` of a detail text is made of.
pub data AuditDetail : Type 0 where
  password_reset : (user_id : String) (refresh_sessions browser_sessions : ℕ) → AuditDetail
  email_token : (user_id : String) → AuditDetail

-- audit_logs
pub record AuditLog : Type 0 where
  pub id : String
  pub event_type : String
  pub actor : Option String
  pub detail : AuditDetail

pub record Db : Type 0 where
  pub users : List User
  pub principals : List Principal
  pub password_reset_tokens : List OneTimeToken
  pub email_verification_tokens : List OneTimeToken
  pub refresh_sessions : List RefreshSession
  pub oidc_browser_sessions : List BrowserSession
  pub audit_logs : List AuditLog

pub data AccountError : Type 0 where
  -- a primary key, UNIQUE or foreign key constraint
  constraint_violation : AccountError
  -- `bcrypt::hash`
  hash_failed : AccountError

-- consumed_at IS NULL AND revoked_at IS NULL
abbrev pub is_pending : OneTimeToken → Bool
is_pending t = is_none t.consumed_at && is_none t.revoked_at

-- SET revoked_at = COALESCE(revoked_at, NOW())
abbrev pub revoke_proof : ℕ → OneTimeToken → OneTimeToken
revoke_proof now t = record t { revoked_at = coalesce t.revoked_at (some now) }

-- SET consumed_at = NOW()
abbrev pub spend_proof : ℕ → OneTimeToken → OneTimeToken
spend_proof now t = record t { consumed_at = some now }

abbrev pub is_pending_of : String → OneTimeToken → Bool
is_pending_of user_id t = t.user_id == user_id && is_pending t

-- `lifetime_seconds.max(1)`
abbrev pub at_least_one : ℤ → ℕ
at_least_one (pos n) = max n 1
at_least_one (negsuc n) = 1

-- INSERT INTO a table of proofs: the primary key, UNIQUE (token_hash) and the foreign key.
unfoldable pub insert_proof :
    OneTimeToken → List User → List OneTimeToken → Result (List OneTimeToken) AccountError
insert_proof t users ts =
    if any (λ u. u.id == t.id) ts
      || any (λ u. u.token_hash == t.token_hash) ts
      || not (any (λ u. u.id == t.user_id) users)
    then err constraint_violation
    else ok (ts ++ t ∷ [])

-- INSERT INTO audit_logs: the primary key.
unfoldable pub insert_audit : AuditLog → List AuditLog → Result (List AuditLog) AccountError
insert_audit a logs =
    if any (λ l. l.id == a.id) logs then err constraint_violation else ok (logs ++ a ∷ [])

abbrev pub new_proof : String → String → String → String → ℕ → OneTimeToken
new_proof id user_id email token_hash expires_at = record {
  id = id;
  user_id = user_id;
  email_snapshot = email;
  token_hash = token_hash;
  expires_at = expires_at;
  consumed_at = none;
  revoked_at = none;
}

-- One row of the join of a proof with its account; the later rows are the fallback.
abbrev pub with_account :
    OneTimeToken → Option User → Option (OneTimeToken × User) → Option (OneTimeToken × User)
with_account t none rest = rest
with_account t (some u) rest = some (t, u)

-- SELECT … INNER JOIN users AS account ON account.id = user_id WHERE token_hash = …
abbrev pub select_proof : String → List User → List OneTimeToken → Option (OneTimeToken × User)
select_proof h users [] = none
select_proof h users (t ∷ ts) =
    let rest = select_proof h users ts in
    if t.token_hash == h then with_account t (find (λ u. u.id == t.user_id) users) rest else rest
