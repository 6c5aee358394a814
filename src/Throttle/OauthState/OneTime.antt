-- ===== src/Throttle/OauthState/OneTime.antt =====
-- An OAuth `state` is accepted only while it lives, and once for each time that it was stored.
use keylo.Base.{
  ℕ, ◌+◌, ◌≤◌, ◌<◌, String, Bool, true, false, ◌&&◌, none, some, List, [], ◌∷◌, ◌≡◌, ◌↔◌, arith,
  ltb, if◌then◌else◌, is_some, count, Option-cases, inl, inr, ◌==◌, eq_iff,
}
use keylo.Throttle.State.{Redis, AppState}
use keylo.Throttle.OauthState.{store_oauth_state, consume_oauth_state}

pub data Call : Type 0 where
  store : ℕ → String → ℕ → Call
  consume : ℕ → String → Call

abbrev pub is_store_of : String → Call → Bool
is_store_of x (store now state expires_at) = state == x
is_store_of x (consume now state) = false

module _ {r : Redis} where
  -- The reply of a call to `consume_oauth_state`, and the state after it.
  unfoldable pub call : Call → AppState r → Bool × AppState r
  call (store now state expires_at) s = (false, store_oauth_state now state expires_at s)
  call (consume now state) s = consume_oauth_state now state s

  -- How many calls that consume `state` are accepted in a run.
  unfoldable pub accepted : String → List Call → AppState r → ℕ
  unfolding call
  accepted x [] s = 0
  accepted x (store now state expires_at ∷ calls) s =
      accepted x calls (call (store now state expires_at) s).1
  accepted x (consume now state ∷ calls) s =
      let (ok, s') = call (consume now state) s in
      (if ok && state == x then 1 else 0) + accepted x calls s'

  abbrev pending : String → AppState r → ℕ
  pending x s = if is_some (s.oauth_states x) then 1 else 0

  consume-held :
      (now : ℕ) (state : String) (s : AppState r) (exp : ℕ)
      → s.redis_client ≡ none
      → s.oauth_states state ≡ some exp
      → (consume_oauth_state now state s).0 ≡ ltb now exp
  unfolding consume_oauth_state
  consume-held now state s exp alone held = rw (alone, held) (ground arith)

  consume-absent :
      (now : ℕ) (state : String) (s : AppState r)
      → s.redis_client ≡ none
      → s.oauth_states state ≡ none
      → (consume_oauth_state now state s).0 ≡ false
  unfolding consume_oauth_state
  consume-absent now state s alone absent = rw (alone, absent)

  -- Off Redis, a consumed state was in the map and had not expired, and it is gone afterwards.
  pub consume-eq-true_iff :
      (now : ℕ) (state : String) (s : AppState r)
      → s.redis_client ≡ none
      → ((consume_oauth_state now state s).0 ≡ true)
        ↔ ((exp : ℕ) × (s.oauth_states state ≡ some exp) × (now < exp))
  consume-eq-true_iff now state s alone = elim (Option-cases (s.oauth_states state)) [
    | inl absent ↦ (λ ok. cc (consume-absent now state s alone absent), λ (exp, held, alive). cc)
    | inr (exp, held) ↦ (
      λ ok. (exp, held, ground (arith, consume-held now state s exp alone held)),
      λ (e, held', alive). ground (arith, consume-held now state s e alone held'),
    )
  ]

  consume-redis_client :
      (now : ℕ) (state : String) (s : AppState r)
      → s.redis_client ≡ none
      → (consume_oauth_state now state s).1.redis_client ≡ none
  unfolding consume_oauth_state
  consume-redis_client now state s alone = rw alone (ground arith)

  consume-pending :
      (now : ℕ) (state x : String) (s : AppState r)
      → s.redis_client ≡ none
      → let (ok, s') = consume_oauth_state now state s in
        (if ok && state == x then 1 else 0) + pending x s' ≤ pending x s
  unfolding consume_oauth_state
  consume-pending now state x s alone = rw alone (ground (arith, eq_iff state x))

  store-redis_client :
      (now : ℕ) (state : String) (expires_at : ℕ) (s : AppState r)
      → s.redis_client ≡ none
      → (store_oauth_state now state expires_at s).redis_client ≡ none
  unfolding store_oauth_state
  store-redis_client now state expires_at s alone = rw alone

  store-pending :
      (now : ℕ) (state : String) (expires_at : ℕ) (x : String) (s : AppState r)
      → s.redis_client ≡ none
      → pending x (store_oauth_state now state expires_at s)
        ≤ pending x s + (if state == x then 1 else 0)
  unfolding store_oauth_state
  store-pending now state expires_at x s alone = rw alone (ground (arith, eq_iff state x))

  -- Off Redis, whatever calls are made for whatever states, the consumptions of `x` that are
  -- accepted are at most as many as the calls that stored `x`, plus one if `x` was there before.
  pub accepted-le-stored :
      (x : String) (calls : List Call) (s : AppState r)
      → s.redis_client ≡ none
      → accepted x calls s
        ≤ count (is_store_of x) calls + (if is_some (s.oauth_states x) then 1 else 0)
  unfolding accepted call
  accepted-le-stored x [] s alone = omega arith
  accepted-le-stored x (store now state expires_at ∷ calls) s alone =
      let s' = store_oauth_state now state expires_at s in
      let alone' = store-redis_client now state expires_at s alone in
      omega
        (arith, accepted-le-stored x calls s' alone', store-pending now state expires_at x s alone)
  accepted-le-stored x (consume now state ∷ calls) s alone =
      let (ok, s') = consume_oauth_state now state s in
      let alone' = consume-redis_client now state s alone in
      omega (arith, accepted-le-stored x calls s' alone', consume-pending now state x s alone)
