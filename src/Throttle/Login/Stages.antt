-- ===== src/Throttle/Login/Stages.antt =====
-- What the checks before a password login guarantee together.
use keylo.Base.Text.{◌⧺◌}
use keylo.Base.{
  ◌&&◌, ◌↔◌, List, arith, if◌then◌else◌, ℕ, ◌+◌, String, Bool, true, false, Option, none, some, [],
  ◌∷◌, ◌++◌, ◌≡◌, refl, ◌⊎◌, inl, inr,
}
use keylo.Errors.{AuthError, too_many_requests}
use keylo.Throttle.State.{Redis, AppState}
use keylo.Throttle.RateLimit.{allow_auth_request}
use keylo.Throttle.Lockout.{is_login_locked}
use keylo.Throttle.Login.{
  logged, event, LoginConfig, Gate, Readings, AuditEvent, global_stage, scoped_stage, lock_stage,
  enforce_password_login_limits,
}

-- Why a login is refused, as the end of the audit event's type.
abbrev pub reason : Bool → Bool → Option ℕ → Option String
reason false scoped lock = some ".rate_limited.global"
reason true false lock = some ".rate_limited"
reason true true (some left) = some ".locked"
reason true true none = none

-- One event on the principal of this type behind the others.
abbrev pub IsAppended : String → String → List AuditEvent → Option (List AuditEvent) → Type 0
IsAppended principal event_type events after =
    (e : AuditEvent) × (after ≡ some (events ++ e ∷ []))
    × (e.actor ≡ some principal)
    × (e.event_type ≡ event_type)

-- The audit events after a login, from those before, the reason of the refusal if there is one, and
-- whether the database took an event.
abbrev pub IsAudited :
    String
    → String
    → Bool
    → Option String
    → Option (List AuditEvent)
    → Option (List AuditEvent)
    → Type 0
IsAudited principal prefix written why none after = after ≡ none
IsAudited principal prefix written none (some events) after = after ≡ some events
IsAudited principal prefix false (some why) (some events) after = after ≡ some events
IsAudited principal prefix true (some why) (some events) after =
    IsAppended principal (prefix ⧺ why) events after

-- A verdict on a login, from the answers of the three checks and the states that they left.
pub record IsVerdict {r : Redis} (principal prefix : String) (written : Bool) (g : Gate r)
    (global scoped : Bool × AppState r) (lock : Option ℕ × AppState r)
    (answer : Option AuthError × Gate r) : Type 0 where
  pub passes : (answer.0 ≡ none) ↔ (global.0 ≡ true) × (scoped.0 ≡ true) × (lock.0 ≡ none)
  pub refusal : (answer.0 ≡ none) ⊎ (answer.0 ≡ some too_many_requests)
  -- A check runs only if those before it passed.
  pub state :
      answer.1.app ≡ (if global.0 then (if scoped.0 then lock.1 else scoped.1) else global.1)
  pub rejections :
      answer.1.rate_limit_rejections_total
      ≡ g.rate_limit_rejections_total + (if global.0 && scoped.0 then 0 else 1)
  pub audited :
      IsAudited principal prefix written (reason global.0 scoped.0 lock.0) g.audit answer.1.audit

refused-IsAudited :
    (principal prefix why detail : String) (written : Bool) (events : Option (List AuditEvent))
    → IsAudited principal prefix written
        (some why)
        events
        (logged written (event (prefix ⧺ why) principal detail) events)
refused-IsAudited principal prefix why detail written none = refl
refused-IsAudited principal prefix why detail false (some events) = refl
refused-IsAudited principal prefix why detail true (some events) = (_, refl, refl, refl)

passed-IsAudited :
    (principal prefix : String) (written : Bool) (events : Option (List AuditEvent))
    → IsAudited principal prefix written none events events
passed-IsAudited principal prefix written none = refl
passed-IsAudited principal prefix written (some events) = refl

module _ {r : Redis} (config : LoginConfig) (principal client_ip prefix : String)
    (readings : Readings) (g : Gate r) where
  abbrev Verdict :
      Bool × AppState r
      → Bool × AppState r
      → Option ℕ × AppState r
      → Option AuthError × Gate r
      → Type 0
  Verdict = IsVerdict principal prefix readings.audit_written g

  lock_stage-Verdict :
      (app app' : AppState r) (reply : Option ℕ × AppState r)
      → Verdict
          (true, app)
          (true, app')
          reply
          (lock_stage config principal client_ip prefix readings (record g { app = app' }) reply)
  unfolding lock_stage
  lock_stage-Verdict app app' (none, app'') = record {
    passes = (λ h. (refl, refl, refl), λ h. refl);
    refusal = inl refl;
    state = refl;
    rejections = omega arith;
    audited = passed-IsAudited principal prefix readings.audit_written g.audit;
  }
  lock_stage-Verdict app app' (some left, app'') = record {
    passes = (λ h. cc, λ (_, _, unlocked). cc);
    refusal = inr refl;
    state = refl;
    rejections = omega arith;
    audited =
        refused-IsAudited principal prefix ".locked" "Login is locked due to repeated failures"
          readings.audit_written g.audit;
  }

  scoped_stage-Verdict :
      (app : AppState r) (reply : Bool × AppState r)
      → Verdict
          (true, app)
          reply
          (is_login_locked readings.locked principal reply.1)
          (scoped_stage config principal client_ip prefix readings (record g { app = app }) reply)
  unfolding scoped_stage
  scoped_stage-Verdict app (false, app') = record {
    passes = (λ h. cc, λ (_, allowed, _). cc);
    refusal = inr refl;
    state = refl;
    rejections = refl;
    audited =
        refused-IsAudited principal prefix ".rate_limited" "Auth request rate limit exceeded"
          readings.audit_written g.audit;
  }
  scoped_stage-Verdict app (true, app') =
      lock_stage-Verdict app app' (is_login_locked readings.locked principal app')

  -- The check of the address and the principal, after that of the address.
  abbrev scoped_answer : AppState r → Bool × AppState r
  scoped_answer app =
      allow_auth_request readings.scoped (client_ip ⧺ ":" ⧺ principal)
        config.auth_rate_limit_window_seconds config.auth_rate_limit_max_requests app

  global_stage-Verdict :
      (reply : Bool × AppState r)
      → Verdict reply
          (scoped_answer reply.1)
          (is_login_locked readings.locked principal (scoped_answer reply.1).1)
          (global_stage config principal client_ip prefix readings g reply)
  unfolding global_stage
  global_stage-Verdict (false, app) = record {
    passes = (λ h. cc, λ (allowed, _, _). cc);
    refusal = inr refl;
    state = refl;
    rejections = refl;
    audited =
        refused-IsAudited principal prefix ".rate_limited.global"
          "Global auth request rate limit exceeded" readings.audit_written g.audit;
  }
  global_stage-Verdict (true, app) = scoped_stage-Verdict app (scoped_answer app)

  -- A password login passes, with or without Redis, exactly when the limit of its address, then that
  -- of its address and principal, and then the lock of the principal let it; otherwise the answer is
  -- `TooManyRequests`. A check runs only if those before it passed. A refusal by a limit counts one
  -- rejection, one by a lock none; a refusal writes one audit event on the principal that says which
  -- check it was, if there is a database and it takes the event, and nothing else is written.
  pub enforce-IsVerdict :
      let global =
        allow_auth_request readings.global
          ("global:" ⧺ client_ip)
          config.auth_rate_limit_window_seconds
          config.auth_global_rate_limit_max_requests
          g.app in
      let scoped =
        allow_auth_request readings.scoped
          (client_ip ⧺ ":" ⧺ principal)
          config.auth_rate_limit_window_seconds
          config.auth_rate_limit_max_requests
          global.1 in
      IsVerdict principal prefix readings.audit_written g global scoped
        (is_login_locked readings.locked principal scoped.1)
        (enforce_password_login_limits config principal client_ip prefix readings g)
  unfolding enforce_password_login_limits
  enforce-IsVerdict = global_stage-Verdict (
      allow_auth_request readings.global ("global:" ⧺ client_ip)
        config.auth_rate_limit_window_seconds config.auth_global_rate_limit_max_requests g.app)
