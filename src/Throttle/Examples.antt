-- ===== src/Throttle/Examples.antt =====
-- Concrete processes: one with no Redis, and one in production whose Redis is down.
use keylo.Base.{
  ℕ, ◌+◌, ◌≤◌, String, true, false, none, some, List, [], ◌∷◌, ◌≡◌, ◌≢◌, refl, arith, if◌then◌else◌,
  count, insert, eq_iff, is_some, empty,
}
use keylo.Throttle.State.{Redis, AppState, fresh}
use keylo.Throttle.OauthState.{consume_oauth_state, store_oauth_state}
use keylo.Throttle.OauthState.OneTime.{
  Call, store, consume, accepted, is_store_of, accepted-le-stored,
}
use keylo.Throttle.Lockout.{is_login_locked}
use keylo.Throttle.Lockout.Counting.{fail_at, max_failures-lock}
use keylo.Throttle.RateLimit.{allow_auth_request}
use keylo.Throttle.RateLimit.Window.{Attempt, in_window, granted, granted-le-max_requests}
use keylo.Throttle.Login.{LoginConfig, Gate, Readings, enforce_password_login_limits}
use keylo.Throttle.Login.Stages.{IsVerdict, enforce-IsVerdict}

-- A Redis server that refuses every connection.
abbrev down : Redis
down = record {
  Server = Unit {0};
  connect = λ s. (false, s);
  set_ex = λ s k v t. (false, s);
  get_del = λ s k. (none, s);
  get_number = λ s k. (none, s);
  exists = λ s k. (none, s);
  incr = λ s k. (none, s);
  expire = λ s k t. s;
  del = λ s k. s;
  number_text = λ n. "0";
}

abbrev local : AppState down
local = fresh false

abbrev production : AppState down
production = record (fresh true) { redis_client = some tt }

abbrev attempt : ℕ → String → Attempt
attempt at principal = record { at = at; principal = principal }

abbrev burst : List Attempt
burst =
    attempt 10 "ann"
    ∷ attempt 10 "bob"
    ∷ attempt 12 "ann"
    ∷ attempt 13 "ann"
    ∷ attempt 71 "ann"
    ∷ []

-- The third request of "ann" in a minute is denied, and one a minute after the first is not.
granted-burst : granted {r = down} 60 2 "ann" burst local ≡ 10 ∷ 12 ∷ 71 ∷ []
unfolding granted allow_auth_request
granted-burst = refl

granted-le-max_requests_example :
    count (in_window 60 13) (granted {r = down} 60 2 "ann" burst local) ≤ 2
granted-le-max_requests_example =
    granted-le-max_requests 60 2 "ann" burst local 13 refl refl refl (omega arith) (omega arith)

abbrev waiting : AppState down
waiting = record local { oauth_states = insert "s1" 100 empty }

abbrev replay : List Call
replay = store 1 "s1" 100 ∷ consume 2 "s1" ∷ consume 3 "s1" ∷ []

accepted-replay : accepted {r = down} "s1" replay local ≡ 1
unfolding accepted store_oauth_state consume_oauth_state
accepted-replay = refl

accepted-le-stored_example :
    accepted {r = down} "s1" replay local
    ≤ count (is_store_of "s1") replay + (if is_some (local.oauth_states "s1") then 1 else 0)
accepted-le-stored_example = accepted-le-stored "s1" replay local refl

max_failures-lock_example :
    (is_login_locked 30 "ann" (fail_at "ann" 3 300 (10 ∷ 20 ∷ 25 ∷ []) local)).0 ≡ some 295
max_failures-lock_example =
    max_failures-lock "ann" 3 300 (10 ∷ 20 ∷ []) 25 30 local refl refl (omega arith) (omega arith)

abbrev locked : AppState down
locked = record local { login_attempts = insert "ann" (0, 325) empty }

ann-ne-bob : ◌≢◌ {A = String} "ann" "bob"
ann-ne-bob = ground (arith, eq_iff "ann" "bob")

abbrev config : LoginConfig
config = record {
  auth_rate_limit_window_seconds = 60;
  auth_rate_limit_max_requests = 30;
  auth_global_rate_limit_max_requests = 300;
  max_failed_login_attempts = 3;
  login_lockout_seconds = 300;
}

abbrev gate : Gate down
gate = record { app = locked; rate_limit_rejections_total = 0; audit = some [] }

abbrev readings : Readings
readings = record { global = 50; scoped = 50; locked = 50; audit_written = true }

enforce-IsVerdict_example :
    let global =
      allow_auth_request 50 "global:10.0.0.1" 60 config.auth_global_rate_limit_max_requests
        locked in
    let scoped =
      allow_auth_request 50 "10.0.0.1:ann" 60 config.auth_rate_limit_max_requests global.1 in
    IsVerdict "ann" "auth.token" true gate global scoped
      (is_login_locked 50 "ann" scoped.1)
      (enforce_password_login_limits config "ann" "10.0.0.1" "auth.token" readings gate)
enforce-IsVerdict_example = enforce-IsVerdict config "ann" "10.0.0.1" "auth.token" readings gate
