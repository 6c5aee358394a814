-- ===== src/Throttle/Login/Locked.antt =====
-- A login of a principal whose lock runs, in `enforce_password_login_limits` of src/handlers/auth.rs.
use keylo.Base.Text.{◌⧺◌}
use keylo.Base.{ℕ, ◌<◌, String, Bool, true, false, Option, none, some, ◌≡◌, refl}
use keylo.Errors.{too_many_requests}
use keylo.Throttle.State.{Redis, AppState}
use keylo.Throttle.RateLimit.{allow_auth_request}
use keylo.Throttle.RateLimit.Offline.{redis_client-allow, login_attempts-allow}
use keylo.Throttle.Lockout.{is_login_locked}
use keylo.Throttle.Lockout.Counting.{locked-eq_running}
use keylo.Throttle.Login.{
  LoginConfig, Gate, Readings, global_stage, scoped_stage, lock_stage,
  enforce_password_login_limits,
}

-- What a running lock looks like in the map.
record IsHeld {r : Redis} (principal : String) (now : ℕ) (s : AppState r) : Type 0 where
  count : ℕ
  until : ℕ
  alone : s.redis_client ≡ none
  held : s.login_attempts principal ≡ some (count, until)
  running : now < until

allow-IsHeld :
    {r : Redis} (t now : ℕ) (key principal : String) (window max_requests : ℕ) (s : AppState r)
    → IsHeld principal now s
    → IsHeld principal now (allow_auth_request t key window max_requests s).1
allow-IsHeld t now key principal window max_requests s h = record {
  count = h.count;
  until = h.until;
  alone = redis_client-allow t key window max_requests s h.alone;
  held = rw (login_attempts-allow t key window max_requests s h.alone) h.held;
  running = h.running;
}

module _ {r : Redis} (config : LoginConfig) (principal client_ip prefix : String)
    (readings : Readings) where
  lock_stage_refuses :
      (g : Gate r) (reply : Option ℕ × AppState r) {left : ℕ}
      → reply.0 ≡ some left
      → (lock_stage config principal client_ip prefix readings g reply).0 ≡ some too_many_requests
  unfolding lock_stage
  lock_stage_refuses g (none, app) h = cc
  lock_stage_refuses g (some _, app) h = refl

  scoped_stage_refuses :
      (g : Gate r) (reply : Bool × AppState r)
      → IsHeld principal readings.locked reply.1
      → (scoped_stage config principal client_ip prefix readings g reply).0 ≡ some too_many_requests
  unfolding scoped_stage
  scoped_stage_refuses g (false, app) h = refl
  scoped_stage_refuses g (true, app) h =
      lock_stage_refuses (record g { app = app }) (is_login_locked readings.locked principal app)
        (locked-eq_running readings.locked principal app h.count h.until h.alone h.held h.running)

  global_stage_refuses :
      (g : Gate r) (reply : Bool × AppState r)
      → IsHeld principal readings.locked reply.1
      → (global_stage config principal client_ip prefix readings g reply).0 ≡ some too_many_requests
  unfolding global_stage
  global_stage_refuses g (false, app) h = refl
  global_stage_refuses g (true, app) h =
      scoped_stage_refuses (record g { app = app })
        (allow_auth_request readings.scoped (client_ip ⧺ ":" ⧺ principal)
          config.auth_rate_limit_window_seconds config.auth_rate_limit_max_requests app)
        (allow-IsHeld readings.scoped readings.locked (client_ip ⧺ ":" ⧺ principal) principal
          config.auth_rate_limit_window_seconds config.auth_rate_limit_max_requests app h)

  -- Off Redis, a principal whose lock runs is refused, from every address and whatever the rate
  -- limits say.
  pub enforce-locked :
      (g : Gate r) (count until : ℕ)
      → g.app.redis_client ≡ none
      → g.app.login_attempts principal ≡ some (count, until)
      → readings.locked < until
      → (enforce_password_login_limits config principal client_ip prefix readings g).0
        ≡ some too_many_requests
  unfolding enforce_password_login_limits
  enforce-locked g count until alone held running =
      global_stage_refuses g
        (allow_auth_request readings.global ("global:" ⧺ client_ip)
          config.auth_rate_limit_window_seconds config.auth_global_rate_limit_max_requests g.app)
        (allow-IsHeld readings.global readings.locked ("global:" ⧺ client_ip) principal
          config.auth_rate_limit_window_seconds config.auth_global_rate_limit_max_requests g.app
          (record { count = count; until = until; alone = alone; held = held; running = running }))
