-- ===== src/Throttle/Lockout/Isolation.antt =====
-- What a failure or a success leaves alone: a running lock, and the records of other principals.
use keylo.Base.{ℕ, ◌<◌, String, none, some, List, ◌≡◌, ◌≢◌, arith, eq_iff, eq_refl, u32_mod, length}
use keylo.Throttle.State.{Redis, AppState}
use keylo.Throttle.Lockout.{
  failed_entry, is_login_locked, record_login_failure, clear_login_failures,
}
use keylo.Throttle.Lockout.Counting.{fail_at, fewer_failures-unlocked}

module _ {r : Redis} (s : AppState r) (alone : s.redis_client ≡ none) where
  -- Off Redis, a failure during a lock neither lengthens nor shortens it.
  pub failure-locked :
      (principal : String) (max_failed lockout now until later : ℕ) {count : ℕ}
      → s.login_attempts principal ≡ some (count, until)
      → now < until
      → (is_login_locked later principal
          (record_login_failure now principal max_failed lockout s)).0
        ≡ (is_login_locked later principal s).0
  unfolding is_login_locked record_login_failure failed_entry
  failure-locked p m l now until later held running =
      rw (alone, held) (ground (arith, eq_refl p, held))

  -- Off Redis, failures and successes of one principal change nothing for another.
  pub others_unaffected :
      (p q : String) (max_failed lockout now later : ℕ)
      → p ≢ q
      → ((is_login_locked later q (record_login_failure now p max_failed lockout s)).0
          ≡ (is_login_locked later q s).0)
        × ((is_login_locked later q (clear_login_failures p s)).0 ≡ (is_login_locked later q s).0)
  unfolding is_login_locked record_login_failure clear_login_failures
  others_unaffected p q m l now later other =
      (rw alone (ground (arith, eq_iff p q)), rw alone (ground (arith, eq_iff p q)))

  clear-redis_client : (p : String) → (clear_login_failures p s).redis_client ≡ none
  unfolding clear_login_failures
  clear-redis_client p = rw alone

  clear-absent : (p : String) → (clear_login_failures p s).login_attempts p ≡ none
  unfolding clear_login_failures
  clear-absent p = rw alone (ground (arith, eq_refl p))

  -- Off Redis, a success forgets all failures and any lock: afterwards fewer than `max_failed`
  -- failures do not lock.
  pub clear-restarts :
      (principal : String) (max_failed lockout : ℕ) (times : List ℕ) (now : ℕ)
      → max_failed < u32_mod
      → length times < max_failed
      → (is_login_locked now principal
          (fail_at principal max_failed lockout times (clear_login_failures principal s))).0
        ≡ none
  clear-restarts p m l times now =
      fewer_failures-unlocked p m l times now (clear_login_failures p s) (clear-redis_client p)
        (clear-absent p)
