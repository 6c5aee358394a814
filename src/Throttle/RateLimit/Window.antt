-- ===== src/Throttle/RateLimit/Window.antt =====
-- The in-memory rate limit is an exact sliding window, and production never uses it.
use keylo.Base.{
  ℕ, ◌+◌, ◌≤◌, ◌<◌, String, Bool, false, ◌&&◌, none, List, [], ◌∷◌, ◌≡◌, refl, arith, insert,
  eq_refl, ltb, leb, if◌then◌else◌, u32_mod, unwrap_or, Bool-cases, inl, inr, ◌==◌, eq_iff, length,
  count, retain, length-append, count-append, count-le-length,
}
use keylo.Throttle.State.{Redis, AppState}
use keylo.Throttle.RateLimit.{is_recent, admit, allow_auth_request}

-- `ts` is one of the `window` seconds that end with `t`.
abbrev pub in_window : ℕ → ℕ → ℕ → Bool
in_window window t ts = leb ts t && ltb t (ts + window)

count-retain :
    (window now t : ℕ) (es : List ℕ)
    → now ≤ t
    → count (in_window window t) (retain (is_recent now window) es) ≡ count (in_window window t) es
count-retain window now t [] h = refl
count-retain window now t (e ∷ es) h = ground (arith, count-retain window now t es h)

length-retain :
    (window now : ℕ) (es : List ℕ) → length (retain (is_recent now window) es) ≤ length es
length-retain window now [] = omega arith
length-retain window now (e ∷ es) = ground (arith, length-retain window now es)

-- `past t` counts the requests granted so far in the window that ends with `t`; `entries` is what
-- the map holds after them.
record IsTracked (window max_requests : ℕ) (past : ℕ → ℕ) (now : ℕ) (entries : List ℕ)
    : Type 0 where
  bounded : (t : ℕ) → past t ≤ max_requests
  exact : (t : ℕ) → now ≤ t → past t ≡ count (in_window window t) entries
  short : length entries ≤ max_requests

abbrev one_more : ℕ → ℕ → Bool → (ℕ → ℕ) → ℕ → ℕ
one_more window now allowed past t = (if allowed && in_window window t now then 1 else 0) + past t

module _ (window max_requests now₀ now : ℕ) (past : ℕ → ℕ) (es : List ℕ)
    (tracked : IsTracked window max_requests past now₀ es) (later : now₀ ≤ now)
    (fits : max_requests < u32_mod) where
  admit-bounded :
      (t : ℕ) → one_more window now (admit now window max_requests es).0 past t ≤ max_requests
  unfolding admit
  admit-bounded t = ground (
    arith,
    tracked.bounded t,
    tracked.exact t,
    tracked.short,
    length-retain window now es,
    count-retain window now t es,
    count-le-length (in_window window t) (retain (is_recent now window) es),
  )

  admit-exact :
      (t : ℕ)
      → now ≤ t
      → one_more window now (admit now window max_requests es).0 past t
        ≡ count (in_window window t) (admit now window max_requests es).1
  unfolding admit
  admit-exact t h = ground (
    arith,
    tracked.exact t,
    tracked.short,
    length-retain window now es,
    count-retain window now t es,
    count-append (in_window window t) (retain (is_recent now window) es) (now ∷ []),
  )

  admit-short : length (admit now window max_requests es).1 ≤ max_requests
  unfolding admit
  admit-short = ground (
    arith,
    tracked.short,
    length-retain window now es,
    length-append (retain (is_recent now window) es) (now ∷ []),
  )

  admit-IsTracked :
      let (allowed, es') = admit now window max_requests es in
      IsTracked window max_requests (one_more window now allowed past) now es'
  admit-IsTracked = record { bounded = admit-bounded; exact = admit-exact; short = admit-short }

pub record Attempt : Type 0 where
  pub at : ℕ
  pub principal : String

-- The clock does not run backwards.
abbrev pub IsOrdered : ℕ → List Attempt → Type 0
IsOrdered now [] = Unit
IsOrdered now (a ∷ trace) = (now ≤ a.at) × IsOrdered a.at trace

module _ {r : Redis} (window max_requests : ℕ) (principal : String) where
  -- The times at which `principal` was let through, oldest first, in a run of requests by anyone.
  unfoldable pub granted : List Attempt → AppState r → List ℕ
  granted [] s = []
  granted (a ∷ trace) s =
      let (allowed, s') = allow_auth_request a.at a.principal window max_requests s in
      let rest = granted trace s' in
      if allowed && a.principal == principal then a.at ∷ rest else rest

-- `AppState` as far as it decides the in-memory limit of one principal.
record IsLocal {r : Redis} (s : AppState r) : Type 0 where
  no_redis : s.redis_client ≡ none
  no_production : s.production ≡ false

abbrev entries_of : {r : Redis} → AppState r → String → List ℕ
entries_of s principal = unwrap_or (s.auth_rate_limits principal) []

module _ {r : Redis} (s : AppState r) (local : IsLocal s) (now window max_requests : ℕ)
    (p : String) where
  allow_local :
      let (allowed, es') = admit now window max_requests (entries_of s p) in
      allow_auth_request now p window max_requests s
      ≡ (allowed, record s { auth_rate_limits = insert p es' s.auth_rate_limits })
  unfolding allow_auth_request
  allow_local = rw (local.no_redis, local.no_production)

  allow-IsLocal : IsLocal (allow_auth_request now p window max_requests s).1
  allow-IsLocal =
      rw allow_local (record { no_redis = local.no_redis; no_production = local.no_production })

  allow-allowed :
      (allow_auth_request now p window max_requests s).0
      ≡ (admit now window max_requests (entries_of s p)).0
  allow-allowed = rw allow_local

  allow-entries :
      (q : String)
      → entries_of (allow_auth_request now p window max_requests s).1 q
        ≡ (if p == q then (admit now window max_requests (entries_of s p)).1 else entries_of s q)
  allow-entries q = rw allow_local (ground arith)

-- After one request by `p`, the entries of `q` are still tracked.
module _ {r : Redis} (s : AppState r) (local : IsLocal s) (window max_requests : ℕ)
    (fits : max_requests < u32_mod) (now₀ now : ℕ) (past : ℕ → ℕ) (p q : String)
    (tracked : IsTracked window max_requests past now₀ (entries_of s q)) (later : now₀ ≤ now) where
  allow-IsTracked_self :
      p ≡ q
      → let (allowed, s') = allow_auth_request now p window max_requests s in
        IsTracked window max_requests (one_more window now allowed past) now (entries_of s' q)
  allow-IsTracked_self same = rw (allow-allowed s local now window max_requests p) (
      rw (allow-entries s local now window max_requests p q) (
        rw same (
          rw (eq_refl q) (
            admit-IsTracked window max_requests now₀ now past (entries_of s q) tracked later
              fits))))

  allow-IsTracked_ne :
      (p == q) ≡ false
      → IsTracked window max_requests past now
          (entries_of (allow_auth_request now p window max_requests s).1 q)
  allow-IsTracked_ne other = rw (allow-entries s local now window max_requests p q) (
      rw other (record {
        bounded = tracked.bounded;
        exact = λ t h. tracked.exact t (omega arith);
        short = tracked.short;
      }))

module _ {r : Redis} (window max_requests : ℕ) (fits : max_requests < u32_mod) (q : String) where
  granted-tracked :
      (trace : List Attempt) (s : AppState r) (past : ℕ → ℕ) (now t : ℕ)
      → IsLocal s
      → IsTracked window max_requests past now (entries_of s q)
      → IsOrdered now trace
      → past t + count (in_window window t) (granted window max_requests q trace s) ≤ max_requests
  unfolding granted
  granted-tracked [] s past now t local tracked ordered = omega (arith, tracked.bounded t)
  granted-tracked (a ∷ trace) s past now t local tracked (later, ordered) =
      let (allowed, s') = allow_auth_request a.at a.principal window max_requests s in
      let local' = allow-IsLocal s local a.at window max_requests a.principal in
      elim (Bool-cases (a.principal == q)) [
        | inl same ↦
            let past' = one_more window a.at allowed past in
            let tracked' =
              allow-IsTracked_self s local window max_requests fits now a.at past a.principal q
                tracked later ((eq_iff a.principal q).0 same) in
            let ih = granted-tracked trace s' past' a.at t local' tracked' ordered in
            ground (arith, ih, same)
        | inr other ↦
            let tracked' =
              allow-IsTracked_ne s local window max_requests fits now a.at past a.principal q
                tracked later other in
            ground (arith, granted-tracked trace s' past a.at t local' tracked' ordered, other)
      ]

-- In a process with no Redis and outside production, whatever requests arrive in time order and
-- whoever makes them, no `window` seconds hold more than `max_requests` granted requests of one
-- principal that had none at the start.
pub granted-le-max_requests :
    {r : Redis} (window max_requests : ℕ) (principal : String) (trace : List Attempt)
    (s : AppState r) (t : ℕ)
    → s.redis_client ≡ none
    → s.production ≡ false
    → s.auth_rate_limits principal ≡ none
    → max_requests < u32_mod
    → IsOrdered 0 trace
    → count (in_window window t) (granted window max_requests principal trace s) ≤ max_requests
granted-le-max_requests window max_requests principal trace s t no_redis no_production none_yet fits
      ordered =
    omega (
      arith,
      granted-tracked window max_requests fits principal trace s (λ _. 0) 0 t
          (record { no_redis = no_redis; no_production = no_production })
          (record {
            bounded = λ _. omega arith;
            exact = λ _ _. rw none_yet;
            short = rw none_yet (omega arith);
          })
          ordered,
    )
