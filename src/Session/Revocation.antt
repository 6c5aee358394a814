-- ===== src/Session/Revocation.antt =====
-- The revocations of src/db/refresh_session.rs, each one UPDATE, and the check for a live session.
pub mod Scopes
use keylo.Base.{
  update_where, ℕ, String, Bool, ◌&&◌, Option, none, some, List, ◌==◌, any, find, count, ltb,
  is_some,
}
use keylo.Session.Tables.{RefreshSession, RefreshToken, Db, is_none, coalesce, same_text, revoke}

-- rows_affected() > 0
unfoldable pub revoke_refresh_session : ℕ → String → Option String → Db → Bool × Db
revoke_refresh_session now session_id reason db = (
  any (λ s. s.id == session_id) db.refresh_sessions,
  record db {
    refresh_sessions =
        update_where (λ s. s.id == session_id) (revoke now reason) db.refresh_sessions;
  },
)

module _ (token_hash : String → String) where
  -- The row that the SELECT found, if any, and the two UPDATEs.
  revoke_found : ℕ → String → Option String → Db → Option RefreshToken → Option String × Db
  revoke_found now refresh_token reason db none = (none, db)
  revoke_found now refresh_token reason db (some t) = (
    some t.session_id,
    record db {
      refresh_session_tokens =
          update_where (λ u. u.token_hash == token_hash refresh_token)
            (λ u. record u { revoked_at = coalesce u.revoked_at (some now) })
            db.refresh_session_tokens;
      refresh_sessions =
          update_where (λ s. s.id == t.session_id) (revoke now reason) db.refresh_sessions;
    },
  )

  unfoldable pub revoke_refresh_session_by_token :
      ℕ → String → Option String → Db → Option String × Db
  unfolding revoke_found
  revoke_refresh_session_by_token now refresh_token reason db =
      revoke_found now refresh_token reason db
        (find (λ t. t.token_hash == token_hash refresh_token) db.refresh_session_tokens)

-- An UPDATE of refresh_sessions with the number of rows that it affected.
abbrev pub revoke_where : ℕ → Option String → (RefreshSession → Bool) → Db → ℕ × Db
revoke_where now reason test db = (
  count test db.refresh_sessions,
  record db { refresh_sessions = update_where test (revoke now reason) db.refresh_sessions },
)

unfoldable pub revoke_principal_refresh_sessions : ℕ → String → Option String → Db → ℕ × Db
revoke_principal_refresh_sessions now principal_id reason =
    revoke_where now reason (λ s. s.principal_id == principal_id && is_none s.revoked_at)

-- `revoked_at = NOW()` is COALESCE here too, since the row has none.
unfoldable pub revoke_organization_refresh_sessions : ℕ → String → Option String → Db → ℕ × Db
revoke_organization_refresh_sessions now organization_id reason = revoke_where now reason (λ s.
    same_text s.organization_id (some organization_id)
    && is_none s.revoked_at
    && ltb now s.expires_at)

unfoldable pub revoke_client_refresh_sessions : ℕ → String → Option String → Db → ℕ × Db
revoke_client_refresh_sessions now client_id reason =
    revoke_where now reason (λ s. s.client_id == client_id && is_none s.revoked_at)

unfoldable pub revoke_principal_client_refresh_sessions :
    ℕ → String → String → Option String → Db → ℕ × Db
revoke_principal_client_refresh_sessions now principal_id client_id reason =
    revoke_where now reason
      (λ s. s.principal_id == principal_id && s.client_id == client_id && is_none s.revoked_at)

unfoldable pub has_active_refresh_session_for_principal : ℕ → String → Db → Bool
has_active_refresh_session_for_principal now principal_id db =
    any (λ s. s.principal_id == principal_id && is_none s.revoked_at && ltb now s.expires_at)
      db.refresh_sessions
