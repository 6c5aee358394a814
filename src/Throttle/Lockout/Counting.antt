-- ===== src/Throttle/Lockout/Counting.antt =====
-- The lock closes at the configured failure, for the configured time, and never earlier.
use keylo.Base.{
  ℕ, ◌+◌, ◌-◌, ◌<◌, String, none, some, List, [], ◌∷◌, ◌++◌, ◌≡◌, arith, ltb, if◌then◌else◌,
  u32_mod, eq_refl, length,
}
use keylo.Throttle.State.{Redis, AppState}
use keylo.Throttle.Lockout.{failed_entry, is_login_locked, record_login_failure}

module _ {r : Redis} where
  -- Failed logins of one principal at the given times, first to last.
  pub fail_at : String → ℕ → ℕ → List ℕ → AppState r → AppState r
  fail_at principal max_failed lockout [] s = s
  fail_at principal max_failed lockout (t ∷ ts) s =
      fail_at principal max_failed lockout ts
        (record_login_failure t principal max_failed lockout s)

  failure-redis_client :
      (now : ℕ) (p : String) (m l : ℕ) (s : AppState r)
      → s.redis_client ≡ none
      → (record_login_failure now p m l s).redis_client ≡ none
  unfolding record_login_failure
  failure-redis_client now p m l s alone = rw alone

  failure-absent :
      (now : ℕ) (p : String) (m l : ℕ) (s : AppState r)
      → s.redis_client ≡ none
      → s.login_attempts p ≡ none
      → (record_login_failure now p m l s).login_attempts p ≡ some (failed_entry now m l (0, 0))
  unfolding record_login_failure
  failure-absent now p m l s alone absent = rw (alone, absent) (ground (arith, eq_refl p))

  failure-present :
      (now : ℕ) (p : String) (m l : ℕ) (s : AppState r) (e : ℕ × ℕ)
      → s.redis_client ≡ none
      → s.login_attempts p ≡ some e
      → (record_login_failure now p m l s).login_attempts p ≡ some (failed_entry now m l e)
  unfolding record_login_failure
  failure-present now p m l s e alone present = rw (alone, present) (ground (arith, eq_refl p))

  locked-eq :
      (now : ℕ) (p : String) (s : AppState r) (count until : ℕ)
      → s.redis_client ≡ none
      → s.login_attempts p ≡ some (count, until)
      → (is_login_locked now p s).0 ≡ (if ltb now until then some (until - now) else none)
  unfolding is_login_locked
  locked-eq now p s count until alone present = rw (alone, present) (ground arith)

  pub locked-eq_running :
      (now : ℕ) (p : String) (s : AppState r) (count until : ℕ)
      → s.redis_client ≡ none
      → s.login_attempts p ≡ some (count, until)
      → now < until
      → (is_login_locked now p s).0 ≡ some (until - now)
  locked-eq_running now p s count until alone present running =
      ground (arith, locked-eq now p s count until alone present)

  -- `count` failures so far, below the limit, and no lock yet: the rest of a run that ends with the
  -- failure that reaches the limit.
  fail_at-locks :
      (p : String) (m l : ℕ) (ts : List ℕ) (t now count : ℕ) (s : AppState r)
      → s.redis_client ≡ none
      → s.login_attempts p ≡ some (count, 0)
      → m < u32_mod
      → count + length ts + 1 ≡ m
      → (is_login_locked now p (fail_at p m l (ts ++ t ∷ []) s)).0
        ≡ (if ltb now (t + l) then some (t + l - now) else none)
  unfolding fail_at failed_entry
  fail_at-locks p m l [] t now count s alone present fits reach =
      let s' = record_login_failure t p m l s in
      let alone' = failure-redis_client t p m l s alone in
      let present' : s'.login_attempts p ≡ some (0, t + l) =
        ground (arith, failure-present t p m l s (count, 0) alone present) in
      locked-eq now p s' 0 (t + l) alone' present'
  fail_at-locks p m l (t₀ ∷ ts) t now count s alone present fits reach =
      let s' = record_login_failure t₀ p m l s in
      let alone' = failure-redis_client t₀ p m l s alone in
      let present' : s'.login_attempts p ≡ some (count + 1, 0) =
        ground (arith, failure-present t₀ p m l s (count, 0) alone present) in
      fail_at-locks p m l ts t now (count + 1) s' alone' present' fits (omega arith)

  fail_at-unlocked :
      (p : String) (m l : ℕ) (ts : List ℕ) (now count : ℕ) (s : AppState r)
      → s.redis_client ≡ none
      → s.login_attempts p ≡ some (count, 0)
      → m < u32_mod
      → count + length ts < m
      → (is_login_locked now p (fail_at p m l ts s)).0 ≡ none
  unfolding fail_at failed_entry
  fail_at-unlocked p m l [] now count s alone present fits below =
      ground (arith, locked-eq now p s count 0 alone present)
  fail_at-unlocked p m l (t₀ ∷ ts) now count s alone present fits below =
      let s' = record_login_failure t₀ p m l s in
      let alone' = failure-redis_client t₀ p m l s alone in
      let present' : s'.login_attempts p ≡ some (count + 1, 0) =
        ground (arith, failure-present t₀ p m l s (count, 0) alone present) in
      fail_at-unlocked p m l ts now (count + 1) s' alone' present' fits (omega arith)

  locked_absent :
      (now : ℕ) (p : String) (s : AppState r)
      → s.redis_client ≡ none
      → s.login_attempts p ≡ none
      → (is_login_locked now p s).0 ≡ none
  unfolding is_login_locked
  locked_absent now p s alone absent = rw (alone, absent)

  -- Off Redis, the failure that reaches `max_failed` locks a principal with no record for exactly
  -- `lockout` seconds from that failure.
  pub max_failures-lock :
      (principal : String) (max_failed lockout : ℕ) (earlier : List ℕ) (last now : ℕ)
      (s : AppState r)
      → s.redis_client ≡ none
      → s.login_attempts principal ≡ none
      → max_failed < u32_mod
      → length earlier + 1 ≡ max_failed
      → (is_login_locked now principal
          (fail_at principal max_failed lockout (earlier ++ last ∷ []) s)).0
        ≡ (if ltb now (last + lockout) then some (last + lockout - now) else none)
  unfolding fail_at failed_entry
  max_failures-lock p m l [] last now s alone absent fits reach =
      let s' = record_login_failure last p m l s in
      let present' : s'.login_attempts p ≡ some (0, last + l) =
        ground (arith, failure-absent last p m l s alone absent) in
      locked-eq now p s' 0 (last + l) (failure-redis_client last p m l s alone) present'
  max_failures-lock p m l (t₀ ∷ ts) last now s alone absent fits reach =
      let s' = record_login_failure t₀ p m l s in
      let present' : s'.login_attempts p ≡ some (1, 0) =
        ground (arith, failure-absent t₀ p m l s alone absent) in
      fail_at-locks p m l ts last now 1 s' (failure-redis_client t₀ p m l s alone) present' fits
        (omega arith)

  -- Off Redis, fewer than `max_failed` failures never lock a principal with no record.
  pub fewer_failures-unlocked :
      (principal : String) (max_failed lockout : ℕ) (times : List ℕ) (now : ℕ) (s : AppState r)
      → s.redis_client ≡ none
      → s.login_attempts principal ≡ none
      → max_failed < u32_mod
      → length times < max_failed
      → (is_login_locked now principal (fail_at principal max_failed lockout times s)).0 ≡ none
  unfolding fail_at failed_entry
  fewer_failures-unlocked p m l [] now s alone absent fits below =
      locked_absent now p s alone absent
  fewer_failures-unlocked p m l (t₀ ∷ ts) now s alone absent fits below =
      let s' = record_login_failure t₀ p m l s in
      let present' : s'.login_attempts p ≡ some (1, 0) =
        ground (arith, failure-absent t₀ p m l s alone absent) in
      fail_at-unlocked p m l ts now 1 s' (failure-redis_client t₀ p m l s alone) present' fits
        (omega arith)
