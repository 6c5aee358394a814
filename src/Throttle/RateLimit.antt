-- ===== src/Throttle/RateLimit.antt =====
-- Request rate limits: `allow_auth_request` and `allow_auth_request_pair` of src/state.rs.
pub mod Window
pub mod Offline
use keylo.Base.Text.{◌⧺◌}
use keylo.Base.{
  ℕ, ◌+◌, ◌/◌, max, String, Bool, true, false, ◌&&◌, Option, none, some, List, [], ◌∷◌, ◌++◌, ltb,
  leb, eqb, if◌then◌else◌, as_u32, unwrap_or, ◌==◌, insert, length, retain, StrMap,
}
use keylo.Throttle.State.{
  Redis, AppState, Link, no_client, refused, connected, dial, with_server, after_link, redis_key,
}

-- `*ts > threshold` with `threshold = now - window_seconds`, both sides moved up by the window.
abbrev pub is_recent : ℕ → ℕ → ℕ → Bool
is_recent now window ts = ltb now (ts + window)

-- `retain`, the test on `len() as u32`, and the push.
admit : ℕ → ℕ → ℕ → List ℕ → Bool × List ℕ
admit now window max_requests entries =
    let kept = retain (is_recent now window) entries in
    if leb max_requests (as_u32 (length kept)) then (false, kept) else (true, kept ++ now ∷ [])

-- `entry(principal).or_default()`, updated in place.
admit_principal : ℕ → ℕ → ℕ → String → StrMap (List ℕ) → Bool × StrMap (List ℕ)
unfolding admit
admit_principal now window max_requests principal limits =
    let (allowed, entries) = admit now window max_requests (unwrap_or (limits principal) []) in
    (allowed, insert principal entries limits)

module _ (r : Redis) where
  expire_first : String → ℕ → ℕ → r.Server → r.Server
  expire_first key window counted server =
      if eqb counted 1 then r.expire server key window else server

  counted_reply : String → ℕ → Option ℕ × r.Server → ℕ × r.Server
  unfolding expire_first
  counted_reply key window (reply, server) =
      let counted = unwrap_or reply 1 in (counted, expire_first key window counted server)

  -- INCR with the window's EXPIRE on the first count
  count_request : String → ℕ → r.Server → ℕ × r.Server
  unfolding counted_reply
  count_request key window server = counted_reply key window (r.incr server key)

module _ {r : Redis} where
  -- `auth:rate:{principal}:{bucket}`, before the prefix
  rate_key : ℕ → ℕ → String → AppState r → String
  rate_key now window principal s =
      redis_key s ("auth:rate:" ⧺ principal ⧺ ":" ⧺ r.number_text (now / max window 1))

  allow_in_memory : ℕ → String → ℕ → ℕ → AppState r → Bool × AppState r
  unfolding admit_principal
  allow_in_memory now principal window max_requests s =
      let (allowed, limits) =
        admit_principal now window max_requests principal s.auth_rate_limits in
      (allowed, record s { auth_rate_limits = limits })

  allow_linked : ℕ → String → ℕ → ℕ → AppState r → Link r → Bool × AppState r
  unfolding allow_in_memory count_request rate_key
  allow_linked now principal window max_requests s (connected server) =
      let (counted, server') = count_request r (rate_key now window principal s) window server in
      (leb (as_u32 counted) max_requests, with_server s server')
  allow_linked now principal window max_requests s link =
      let s' = after_link s link in
      if s.production then (false, s') else allow_in_memory now principal window max_requests s'

  unfoldable pub allow_auth_request : ℕ → String → ℕ → ℕ → AppState r → Bool × AppState r
  unfolding allow_linked
  allow_auth_request now principal window max_requests s =
      allow_linked now principal window max_requests s (dial s.redis_client)

  pair_in_memory : ℕ → String → ℕ → String → ℕ → ℕ → AppState r → Bool × AppState r
  unfolding admit_principal
  pair_in_memory now principal_a max_a principal_b max_b window s =
      let (allowed_a, limits) = admit_principal now window max_a principal_a s.auth_rate_limits in
      let (allowed_b, limits') = admit_principal now window max_b principal_b limits in
      (allowed_a && allowed_b, record s { auth_rate_limits = limits' })

  pair_linked : ℕ → String → ℕ → String → ℕ → ℕ → AppState r → Link r → Bool × AppState r
  unfolding pair_in_memory count_request rate_key
  pair_linked now principal_a max_a principal_b max_b window s (connected server) =
      let (count_a, server₁) = count_request r (rate_key now window principal_a s) window server in
      let (count_b, server₂) = count_request r (rate_key now window principal_b s) window server₁ in
      (leb (as_u32 count_a) max_a && leb (as_u32 count_b) max_b, with_server s server₂)
  pair_linked now principal_a max_a principal_b max_b window s link =
      let s' = after_link s link in
      if s.production
      then (false, s')
      else pair_in_memory now principal_a max_a principal_b max_b window s'

  unfoldable pub allow_auth_request_pair :
      ℕ → String → ℕ → String → ℕ → ℕ → AppState r → Bool × AppState r
  unfolding pair_linked
  allow_auth_request_pair now principal_a max_a principal_b max_b window s =
      pair_linked now principal_a max_a principal_b max_b window s (dial s.redis_client)
