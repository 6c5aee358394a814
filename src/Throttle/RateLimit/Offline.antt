-- ===== src/Throttle/RateLimit/Offline.antt =====
-- The rate limits where no Redis answers: production denies, and elsewhere the pair of limits is the
-- two limits in turn.
use keylo.Base.{
  ℕ, String, Bool, true, false, ◌&&◌, none, some, ◌≡◌, refl, Option-cases, Bool-cases, inl, inr,
}
use keylo.Throttle.State.{Redis, AppState}
use keylo.Throttle.RateLimit.{allow_auth_request, allow_auth_request_pair}

pair_η : {A : Type 0} {b : Bool} (p : Bool × A) → p.0 ≡ b → p ≡ (b, p.1)
pair_η p e = λ i. (e i, p.1)

-- In production, while no Redis connection can be made, every request is denied, and the in-memory
-- limits are neither read nor written.
pub production-denies :
    {r : Redis} (now : ℕ) (principal : String) (window max_requests : ℕ) (s : AppState r)
    → s.production ≡ true
    → ((server : r.Server) → s.redis_client ≡ some server → (r.connect server).0 ≡ false)
    → let (allowed, s') = allow_auth_request now principal window max_requests s in
      (allowed ≡ false) × (s'.auth_rate_limits ≡ s.auth_rate_limits)
unfolding allow_auth_request
production-denies {r} now principal window max_requests s production down =
    elim (Option-cases s.redis_client) [
      | inl alone ↦ rw (alone, production) (refl, refl)
      | inr (server, client) ↦
          rw (client, pair_η (r.connect server) (down server client), production) (refl, refl)
    ]

-- Off Redis, a pair of limits is the two limits in turn: both are charged, also when the first
-- denies.
pub pair-eq-both :
    {r : Redis} (now : ℕ) (a : String) (max_a : ℕ) (b : String) (max_b window : ℕ) (s : AppState r)
    → s.redis_client ≡ none
    → allow_auth_request_pair now a max_a b max_b window s ≡ (
        let (allowed_a, s') = allow_auth_request now a window max_a s in
        let (allowed_b, s'') = allow_auth_request now b window max_b s' in
        (allowed_a && allowed_b, s''))
unfolding allow_auth_request allow_auth_request_pair
pair-eq-both now a max_a b max_b window s alone = elim (Bool-cases s.production) [
  | inl production ↦ rw (alone, production)
  | inr other ↦ rw (alone, other)
]

module _ {r : Redis} (now : ℕ) (principal : String) (window max_requests : ℕ) (s : AppState r)
    (alone : s.redis_client ≡ none) where
  pub redis_client-allow :
      (allow_auth_request now principal window max_requests s).1.redis_client ≡ none
  unfolding allow_auth_request
  redis_client-allow = elim (Bool-cases s.production) [
    | inl production ↦ rw (alone, production)
    | inr other ↦ rw (alone, other)
  ]

  pub login_attempts-allow :
      (allow_auth_request now principal window max_requests s).1.login_attempts ≡ s.login_attempts
  unfolding allow_auth_request
  login_attempts-allow = elim (Bool-cases s.production) [
    | inl production ↦ rw (alone, production)
    | inr other ↦ rw (alone, other)
  ]
