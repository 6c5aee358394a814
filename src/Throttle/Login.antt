-- ===== src/Throttle/Login.antt =====
-- The checks before a password login and the record of a failed one:
-- `enforce_password_login_limits` and `record_password_login_failure` of src/handlers/auth.rs.
pub mod Stages
pub mod Locked
use keylo.Base.Text.{◌⧺◌}
use keylo.Base.{ℕ, ◌+◌, String, Bool, true, false, Option, none, some, List, [], ◌∷◌, ◌++◌}
use keylo.Errors.{AuthError, too_many_requests}
use keylo.Throttle.State.{Redis, AppState}
use keylo.Throttle.Lockout.{is_login_locked, record_login_failure}
use keylo.Throttle.RateLimit.{allow_auth_request}

-- The fields of `Config` that the checks read.
pub record LoginConfig : Type 0 where
  pub auth_rate_limit_window_seconds : ℕ
  pub auth_rate_limit_max_requests : ℕ
  pub auth_global_rate_limit_max_requests : ℕ
  pub max_failed_login_attempts : ℕ
  pub login_lockout_seconds : ℕ

-- The arguments of `audit_event`.
pub record AuditEvent : Type 0 where
  pub event_type : String
  pub actor : Option String
  pub detail : Option String

-- The state, with the counter of rejections and, if the process has a database, the audit events in
-- it, oldest first.
pub record Gate (r : Redis) : Type 0 where
  pub app : AppState r
  pub rate_limit_rejections_total : ℕ
  pub audit : Option (List AuditEvent)

-- The three readings of the clock, one for each check, and whether the database takes the INSERT of
-- an audit event.
pub record Readings : Type 0 where
  pub global : ℕ
  pub scoped : ℕ
  pub locked : ℕ
  pub audit_written : Bool

-- `if let Some(db) = &state.db`; a failed INSERT is logged and otherwise ignored.
abbrev pub logged : Bool → AuditEvent → Option (List AuditEvent) → Option (List AuditEvent)
logged written e none = none
logged true e (some events) = some (events ++ e ∷ [])
logged false e (some events) = some events

abbrev pub event : String → String → String → AuditEvent
event event_type principal detail = record {
  event_type = event_type;
  actor = some principal;
  detail = some detail;
}

module _ {r : Redis} where
  audit_event : Bool → AuditEvent → Gate r → Gate r
  audit_event written e g = record g { audit = logged written e g.audit }

  rate_limit_rejection_observed : Gate r → Gate r
  rate_limit_rejection_observed g = record g {
    rate_limit_rejections_total = g.rate_limit_rejections_total + 1;
  }

module _ {r : Redis} (config : LoginConfig) (principal client_ip prefix : String) where
  lock_stage : Readings → Gate r → Option ℕ × AppState r → Option AuthError × Gate r
  unfolding audit_event
  lock_stage readings g (none, app) = (none, record g { app = app })
  lock_stage readings g (some _, app) = (
    some too_many_requests,
    audit_event readings.audit_written
        (event (prefix ⧺ ".locked") principal "Login is locked due to repeated failures")
        (record g { app = app }),
  )

  scoped_stage : Readings → Gate r → Bool × AppState r → Option AuthError × Gate r
  unfolding audit_event rate_limit_rejection_observed lock_stage
  scoped_stage readings g (false, app) = (
    some too_many_requests,
    audit_event readings.audit_written
        (event (prefix ⧺ ".rate_limited") principal "Auth request rate limit exceeded")
        (rate_limit_rejection_observed (record g { app = app })),
  )
  scoped_stage readings g (true, app) =
      lock_stage readings (record g { app = app }) (is_login_locked readings.locked principal app)

  global_stage : Readings → Gate r → Bool × AppState r → Option AuthError × Gate r
  unfolding audit_event rate_limit_rejection_observed scoped_stage
  global_stage readings g (false, app) = (
    some too_many_requests,
    audit_event readings.audit_written
        (event (prefix ⧺ ".rate_limited.global") principal
          "Global auth request rate limit exceeded")
        (rate_limit_rejection_observed (record g { app = app })),
  )
  global_stage readings g (true, app) =
      scoped_stage readings (record g { app = app })
        (allow_auth_request readings.scoped (client_ip ⧺ ":" ⧺ principal)
          config.auth_rate_limit_window_seconds config.auth_rate_limit_max_requests app)

  -- `none` is `Ok(())`. Each check runs only if those before it passed.
  unfoldable pub enforce_password_login_limits : Readings → Gate r → Option AuthError × Gate r
  unfolding global_stage
  enforce_password_login_limits readings g = global_stage readings g (
      allow_auth_request readings.global ("global:" ⧺ client_ip)
        config.auth_rate_limit_window_seconds config.auth_global_rate_limit_max_requests g.app)

module _ {r : Redis} (config : LoginConfig) (principal prefix : String) where
  unfoldable pub record_password_login_failure : ℕ → Bool → Gate r → Gate r
  unfolding audit_event
  record_password_login_failure now written g =
      audit_event written (event (prefix ⧺ ".failed") principal "Wrong credentials") (record g {
        app =
            record_login_failure now principal config.max_failed_login_attempts
              config.login_lockout_seconds g.app;
      })
