-- ===== src/Session/Policy.antt =====
-- `enforce_refresh_session_policy` of src/handlers/auth.rs, which a login runs before it creates its
-- session. The two statements run one after the other, each at its own time.
pub mod Single
use keylo.Base.{
  ℕ, String, Bool, true, false, not, Option, none, some, List, [], ◌∷◌, ◌++◌, ◌==◌, if◌then◌else◌,
}
use keylo.Errors.{AuthError, conflict}
use keylo.Base.Text.{◌⧺◌}
use keylo.Throttle.Login.{AuditEvent}
use keylo.Session.Tables.{Principal, Db}
use keylo.Session.Revocation.{
  revoke_principal_refresh_sessions, has_active_refresh_session_for_principal,
}

-- The tables of the sessions, and the audit log.
pub record Desk : Type 0 where
  pub db : Db
  pub audit_log : List AuditEvent

-- `written` says if the row is inserted: a failed insert is ignored.
unfoldable pub audit_event : Bool → AuditEvent → Desk → Desk
audit_event written e d = record d {
  audit_log = if written then d.audit_log ++ e ∷ [] else d.audit_log;
}

abbrev pub policy_applies : String → Principal → Bool
policy_applies session_policy principal =
    if session_policy == "multi_session"
    then false
    else if session_policy == "single_user_session"
    then principal.principal_type == "user"
    else session_policy == "single_principal_session"

unfoldable pub take_over : Bool → ℕ → Principal → Desk → Desk
unfolding audit_event
take_over written now principal d =
    audit_event written
      (record {
        event_type = "auth.session.takeover";
        actor = some principal.subject;
        detail = some ("principal_id=" ⧺ principal.id);
      })
      (record d {
        db = (revoke_principal_refresh_sessions now principal.id (some "session_takeover") d.db).1;
      })

-- The error, if any; `checked` and `now` are the times of the check and of the revocation,
-- and `written` says if the audit event of a takeover can be written.
unfoldable pub enforce_refresh_session_policy :
    String → Bool → ℕ → ℕ → Principal → Bool → Desk → Option AuthError × Desk
unfolding take_over
enforce_refresh_session_policy session_policy written checked now principal force_takeover d =
    if not (policy_applies session_policy principal)
    then (none, d)
    else if not (has_active_refresh_session_for_principal checked principal.id d.db)
    then (none, d)
    else if not force_takeover
    then (some (conflict "active_session_exists"), d)
    else (none, take_over written now principal d)
