-- ===== src/Throttle/Lockout.antt =====
-- Login lockout after repeated failures: `is_login_locked`, `record_login_failure` and
-- `clear_login_failures` of src/state.rs.
pub mod Counting
pub mod Isolation
use keylo.Base.Text.{◌⧺◌}
use keylo.Base.{
  ℕ, zero, suc, ◌+◌, ◌-◌, String, Bool, true, false, ◌&&◌, ◌||◌, Option, none, some, ltb, leb,
  if◌then◌else◌, as_u32, unwrap_or, ◌==◌, insert, remove, retain_values,
}
use keylo.Throttle.State.{
  Redis, number, AppState, Link, no_client, refused, connected, dial, with_server, after_link,
  redis_key,
}

abbrev is_recent : ℕ → ℕ × ℕ → Bool
is_recent now (count, locked_until) = ltb now locked_until || ltb 0 count

-- `entry.0 += 1` on a `u32`.
failed_entry : ℕ → ℕ → ℕ → ℕ × ℕ → ℕ × ℕ
failed_entry now max_failed lockout (count, locked_until) =
    if ltb now locked_until
    then (count, locked_until)
    else if leb max_failed (as_u32 (count + 1))
    then (0, now + lockout)
    else (as_u32 (count + 1), locked_until)

module _ {r : Redis} where
  lock_key : AppState r → String → String
  lock_key s principal = redis_key s ("auth:lock:" ⧺ principal)

  fail_key : AppState r → String → String
  fail_key s principal = redis_key s ("auth:fail:" ⧺ principal)

  -- The guard of the second match arm is `locked_until <= now && locked_until > 0`.
  locked_entry : ℕ → String → Option (ℕ × ℕ) → AppState r → Option ℕ × AppState r
  locked_entry now principal none s = (none, s)
  locked_entry now principal (some (count, locked_until)) s =
      if ltb now locked_until
      then (some (locked_until - now), s)
      else if leb locked_until now && ltb 0 locked_until
      then (none, record s { login_attempts = remove principal s.login_attempts })
      else (none, s)

  locked_in_memory : ℕ → String → AppState r → Option ℕ × AppState r
  unfolding locked_entry
  locked_in_memory now principal s =
      let kept = retain_values (is_recent now) s.login_attempts in
      locked_entry now principal (kept principal) (record s { login_attempts = kept })

  -- An error reply, or no value, falls through to the map.
  locked_reply : ℕ → String → AppState r → Option (Option ℕ) × r.Server → Option ℕ × AppState r
  unfolding locked_in_memory lock_key
  locked_reply now principal s (some (some locked_until), server) =
      if ltb now locked_until
      then (some (locked_until - now), with_server s server)
      else (none, with_server s (r.del server (lock_key s principal)))
  locked_reply now principal s (reply, server) =
      locked_in_memory now principal (with_server s server)

  locked_linked : ℕ → String → AppState r → Link r → Option ℕ × AppState r
  unfolding locked_in_memory locked_reply
  locked_linked now principal s (connected server) =
      locked_reply now principal s (r.get_number server (lock_key s principal))
  locked_linked now principal s link = locked_in_memory now principal (after_link s link)

  -- The seconds that the lock still has, or `none`.
  unfoldable pub is_login_locked : ℕ → String → AppState r → Option ℕ × AppState r
  unfolding locked_linked
  is_login_locked now principal s = locked_linked now principal s (dial s.redis_client)

  failure_in_memory : ℕ → String → ℕ → ℕ → AppState r → AppState r
  unfolding failed_entry
  failure_in_memory now principal max_failed lockout s =
      let entry = unwrap_or (s.login_attempts principal) (0, 0) in
      record s {
        login_attempts =
            insert principal (failed_entry now max_failed lockout entry) s.login_attempts;
      }

  failure_counted : ℕ → String → ℕ → ℕ → AppState r → Option ℕ × r.Server → AppState r
  unfolding lock_key fail_key
  failure_counted now principal max_failed lockout s (reply, server) =
      let failures = unwrap_or reply 1 in
      let server₁ = r.expire server (fail_key s principal) lockout in
      let server₂ = (r.set_ex server₁ (lock_key s principal) (number (now + lockout)) lockout).1 in
      if leb max_failed (as_u32 failures)
      then with_server s (r.del server₂ (fail_key s principal))
      else with_server s server₁

  failure_reply : ℕ → String → ℕ → ℕ → AppState r → Option Bool × r.Server → AppState r
  unfolding failure_counted
  failure_reply now principal max_failed lockout s (reply, server) =
      if unwrap_or reply false
      then with_server s server
      else failure_counted now principal max_failed lockout s (r.incr server (fail_key s principal))

  failure_linked : ℕ → String → ℕ → ℕ → AppState r → Link r → AppState r
  unfolding failure_in_memory failure_reply
  failure_linked now principal max_failed lockout s (connected server) =
      failure_reply now principal max_failed lockout s (r.exists server (lock_key s principal))
  failure_linked now principal max_failed lockout s link =
      failure_in_memory now principal max_failed lockout (after_link s link)

  unfoldable pub record_login_failure : ℕ → String → ℕ → ℕ → AppState r → AppState r
  unfolding failure_linked
  record_login_failure now principal max_failed lockout s =
      failure_linked now principal max_failed lockout s (dial s.redis_client)

  clear_linked : String → AppState r → Link r → AppState r
  unfolding lock_key fail_key
  clear_linked principal s (connected server) =
      with_server s (r.del (r.del server (fail_key s principal)) (lock_key s principal))
  clear_linked principal s link =
      let s' = after_link s link in
      record s' { login_attempts = remove principal s'.login_attempts }

  unfoldable pub clear_login_failures : String → AppState r → AppState r
  unfolding clear_linked
  clear_login_failures principal s = clear_linked principal s (dial s.redis_client)
