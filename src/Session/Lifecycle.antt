-- ===== src/Session/Lifecycle.antt =====
-- `create_refresh_session` and `consume_and_rotate_refresh_session` of src/db/refresh_session.rs.
-- An error drops the transaction, so the tables stay as they were. Failures of the connection
-- itself are not modelled.
pub mod Rotation
pub mod Revoked
pub mod Rotated
pub mod Replay
pub mod Tenancy
use keylo.Base.{
  update_where, ℕ, String, Bool, true, false, not, ◌&&◌, ◌||◌, Option, none, some, List, ◌==◌, find,
  is_some, ltb, if◌then◌else◌,
}
use keylo.Base.Results.{Result, ok, err, ◌>>=◌}
use keylo.Session.Tables.{
  RefreshSession, RefreshToken, Db, DbError, context_inactive, same_text, insert_session,
  insert_token, revoke,
}
use keylo.Session.Context.{lock_active_organization_session_context}

pub record ConsumedRefreshSession : Type 0 where
  pub session_id : String
  pub principal_id : String
  pub client_id : String
  pub organization_id : Option String
  pub expires_at : ℕ

pub data ConsumeRefreshSessionResult : Type 0 where
  consumed : ConsumedRefreshSession → ConsumeRefreshSessionResult
  not_found : ConsumeRefreshSessionResult
  replayed : String → ConsumeRefreshSessionResult
  organization_scope_mismatch : ConsumeRefreshSessionResult
  organization_context_inactive : ConsumeRefreshSessionResult

pub record CreateRefreshSessionParams : Type 0 where
  pub session_id : String
  pub principal_id : String
  pub client_id : String
  pub organization_id : Option String
  pub refresh_token_id : String
  pub refresh_token : String
  pub access_jti : String
  pub login_ip : Option String
  pub user_agent : Option String
  pub expires_at : ℕ

-- The replacement token of a rotation.
pub record Replacement : Type 0 where
  pub refresh_token_id : String
  pub refresh_token : String
  pub access_jti : String

abbrev pub new_token : ℕ → String → String → String → ℕ → RefreshToken
new_token now token_id session_id token_hash expires_at = record {
  token_id = token_id;
  session_id = session_id;
  token_hash = token_hash;
  issued_at = now;
  consumed_at = none;
  expires_at = expires_at;
  revoked_at = none;
}

abbrev pub new_session : ℕ → CreateRefreshSessionParams → RefreshSession
new_session now p = record {
  id = p.session_id;
  principal_id = p.principal_id;
  client_id = p.client_id;
  current_refresh_token_id = p.refresh_token_id;
  current_access_jti = p.access_jti;
  organization_id = p.organization_id;
  login_ip = p.login_ip;
  user_agent = p.user_agent;
  issued_at = now;
  rotated_at = none;
  expires_at = p.expires_at;
  revoked_at = none;
  revoke_reason = none;
}

unfoldable pub context_allows : Db → Option String → String → Bool
context_allows db none principal_id = true
context_allows db (some organization_id) principal_id =
    lock_active_organization_session_context db organization_id principal_id

-- The join of a token, found by its hash, with its session.
joined : Db → Option RefreshToken → Option (RefreshToken × RefreshSession)
joined db none = none
joined db (some t) = elim (find (λ s. s.id == t.session_id) db.refresh_sessions) [
  | none ↦ none
  | some s ↦ some (t, s)
]

unfoldable pub select_by_hash : Db → String → Option (RefreshToken × RefreshSession)
unfolding joined
select_by_hash db token_hash =
    joined db (find (λ t. t.token_hash == token_hash) db.refresh_session_tokens)

abbrev pub summary : RefreshSession → ConsumedRefreshSession
summary s = record {
  session_id = s.id;
  principal_id = s.principal_id;
  client_id = s.client_id;
  organization_id = s.organization_id;
  expires_at = s.expires_at;
}

-- UPDATE refresh_session_tokens SET consumed_at = NOW()
abbrev pub spend : ℕ → String → Db → Db
spend now hash db = record db {
  refresh_session_tokens =
      update_where (λ t. t.token_hash == hash) (λ t. record t { consumed_at = some now })
        db.refresh_session_tokens;
}

-- UPDATE refresh_sessions SET current_refresh_token_id, current_access_jti, rotated_at
abbrev pub point_at : ℕ → Replacement → String → Db → Db
point_at now new session_id db = record db {
  refresh_sessions =
      update_where (λ t. t.id == session_id)
        (λ t. record t {
          current_refresh_token_id = new.refresh_token_id;
          current_access_jti = new.access_jti;
          rotated_at = some now;
        })
        db.refresh_sessions;
}

abbrev pub revoke_session_row : ℕ → String → String → Db → Db
revoke_session_row now session_id reason db = record db {
  refresh_sessions =
      update_where (λ s. s.id == session_id) (revoke now (some reason)) db.refresh_sessions;
}

-- SHA-256 in hexadecimal comes from a library.
module _ (token_hash : String → String) where
  unfoldable pub create_refresh_session : ℕ → CreateRefreshSessionParams → Db → Result Db DbError
  unfolding context_allows
  create_refresh_session now p db =
      if context_allows db p.organization_id p.principal_id
      then (do
        db' ← insert_session (new_session now p) db
        insert_token
            (new_token now p.refresh_token_id p.session_id (token_hash p.refresh_token)
              p.expires_at)
            db')
      else err context_inactive

  -- The three statements of a successful rotation, and what it reports.
  rotate :
      ℕ
      → String
      → Replacement
      → RefreshSession
      → Db
      → Result (ConsumeRefreshSessionResult × Db) DbError
  rotate now refresh_token new s db = do
    db' ←
        insert_token
          (new_token now new.refresh_token_id s.id (token_hash new.refresh_token) s.expires_at)
          (spend now (token_hash refresh_token) db)
    ok (consumed (summary s), point_at now new s.id db')

  -- From the second SELECT, which locks the two rows, to the end of the transaction.
  rotate_row :
      ℕ
      → String
      → Replacement
      → Db
      → Option (RefreshToken × RefreshSession)
      → Result (ConsumeRefreshSessionResult × Db) DbError
  unfolding rotate
  rotate_row now refresh_token new db none = ok (not_found, db)
  rotate_row now refresh_token new db (some (t, s)) =
      if not (ltb now t.expires_at) || not (ltb now s.expires_at)
      then ok (not_found, db)
      else if is_some t.consumed_at || is_some t.revoked_at || is_some s.revoked_at
      then ok (replayed s.id, revoke_session_row now s.id "refresh_token_replay" db)
      else rotate now refresh_token new s db

  unfoldable pub rotate_locked :
      ℕ → String → Replacement → Db → Result (ConsumeRefreshSessionResult × Db) DbError
  unfolding rotate_row
  rotate_locked now refresh_token new db =
      rotate_row now refresh_token new db (select_by_hash db (token_hash refresh_token))

  consume_candidate :
      ℕ
      → String
      → Option String
      → Replacement
      → Db
      → Option (RefreshToken × RefreshSession)
      → Result (ConsumeRefreshSessionResult × Db) DbError
  unfolding context_allows
  consume_candidate now refresh_token expected new db none = ok (not_found, db)
  consume_candidate now refresh_token expected new db (some (t, s)) =
      if not (same_text s.organization_id expected)
      then ok (organization_scope_mismatch, db)
      else if not (context_allows db s.organization_id s.principal_id)
      then ok (
        organization_context_inactive,
        revoke_session_row now t.session_id "organization_context_inactive" db,
      )
      else rotate_locked now refresh_token new db

  unfoldable pub consume_and_rotate_refresh_session :
      ℕ
      → String
      → Option String
      → Replacement
      → Db
      → Result (ConsumeRefreshSessionResult × Db) DbError
  unfolding consume_candidate
  consume_and_rotate_refresh_session now refresh_token expected new db =
      consume_candidate now refresh_token expected new db
        (select_by_hash db (token_hash refresh_token))
