-- ===== src/Session/Tables.antt =====
-- The rows that the refresh-session statements read and write, and the statements' building blocks:
-- SELECT of at most one row, UPDATE, and INSERT under the tables' constraints. Times are Unix
-- seconds; NOW() is an argument of each transaction.
use keylo.Base.Results.{Result, ok, err}
use keylo.Base.{
  ℕ, String, Bool, true, false, not, ◌||◌, Option, none, some, List, [], ◌∷◌, ◌++◌, ◌==◌, any,
  if◌then◌else◌,
}

-- refresh_sessions
pub record RefreshSession : Type 0 where
  pub id : String
  pub principal_id : String
  pub client_id : String
  pub current_refresh_token_id : String
  pub current_access_jti : String
  pub organization_id : Option String
  pub login_ip : Option String
  pub user_agent : Option String
  pub issued_at : ℕ
  pub rotated_at : Option ℕ
  pub expires_at : ℕ
  pub revoked_at : Option ℕ
  pub revoke_reason : Option String

-- refresh_session_tokens
pub record RefreshToken : Type 0 where
  pub token_id : String
  pub session_id : String
  pub token_hash : String
  pub issued_at : ℕ
  pub consumed_at : Option ℕ
  pub expires_at : ℕ
  pub revoked_at : Option ℕ

-- The columns of the other tables that these statements read.
pub record Organization : Type 0 where
  pub id : String
  pub status : String
  pub kind : String

pub record Principal : Type 0 where
  pub id : String
  pub principal_type : String
  pub subject : String
  pub ref_id : String
  pub active : Bool

pub record User : Type 0 where
  pub id : String
  pub active : Bool
  pub user_class : Option String

pub record Membership : Type 0 where
  pub organization_id : String
  pub principal_id : String
  pub status : String

pub record Db : Type 0 where
  pub organizations : List Organization
  pub principals : List Principal
  pub users : List User
  pub organization_memberships : List Membership
  pub refresh_sessions : List RefreshSession
  pub refresh_session_tokens : List RefreshToken

pub data DbError : Type 0 where
  -- `organization_session_context_inactive`
  context_inactive : DbError
  -- a primary key, UNIQUE or foreign key constraint
  constraint_violation : DbError

abbrev pub is_none {ℓ} : {A : Type ℓ} → Option A → Bool
is_none none = true
is_none (some a) = false

-- COALESCE
abbrev pub coalesce {ℓ} : {A : Type ℓ} → Option A → Option A → Option A
coalesce none b = b
coalesce (some a) b = some a

-- `IS NOT DISTINCT FROM`, and `==` of two `Option<&str>`
abbrev pub same_text : Option String → Option String → Bool
same_text none none = true
same_text (some a) (some b) = a == b
same_text _ _ = false

abbrev pub references : Option String → List Organization → Bool
references none organizations = true
references (some id) organizations = any (λ o. o.id == id) organizations

-- INSERT INTO refresh_sessions: the primary key and the two foreign keys.
unfoldable pub insert_session : RefreshSession → Db → Result Db DbError
insert_session s db =
    if any (λ t. t.id == s.id) db.refresh_sessions
      || not (any (λ p. p.id == s.principal_id) db.principals)
      || not (references s.organization_id db.organizations)
    then err constraint_violation
    else ok (record db { refresh_sessions = db.refresh_sessions ++ s ∷ [] })

-- INSERT INTO refresh_session_tokens: the primary key, UNIQUE (token_hash) and the foreign key.
unfoldable pub insert_token : RefreshToken → Db → Result Db DbError
insert_token t db =
    if any (λ u. u.token_id == t.token_id) db.refresh_session_tokens
      || any (λ u. u.token_hash == t.token_hash) db.refresh_session_tokens
      || not (any (λ s. s.id == t.session_id) db.refresh_sessions)
    then err constraint_violation
    else ok (record db { refresh_session_tokens = db.refresh_session_tokens ++ t ∷ [] })

-- SET revoked_at = COALESCE(revoked_at, NOW()), revoke_reason = COALESCE(revoke_reason, reason)
abbrev pub revoke : ℕ → Option String → RefreshSession → RefreshSession
revoke now reason s = record s {
  revoked_at = coalesce s.revoked_at (some now);
  revoke_reason = coalesce s.revoke_reason reason;
}
