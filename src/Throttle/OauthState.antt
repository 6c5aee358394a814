-- ===== src/Throttle/OauthState.antt =====
-- OAuth `state` values against CSRF and replay: `store_oauth_state` and `consume_oauth_state` of
-- src/state.rs.
pub mod OneTime
use keylo.Base.Text.{◌⧺◌}
use keylo.Base.{
  ℕ, ◌-◌, max, String, Bool, true, false, Option, none, some, ltb, if◌then◌else◌, is_some,
  unwrap_or, ◌==◌, insert, remove, retain_values,
}
use keylo.Throttle.State.{
  Redis, text, AppState, Link, no_client, refused, connected, dial, with_server, after_link,
  redis_key,
}

module _ {r : Redis} where
  store_in_memory : String → ℕ → AppState r → AppState r
  store_in_memory state expires_at s = record s {
    oauth_states = insert state expires_at s.oauth_states;
  }

  -- A failed SETEX falls through to the map.
  store_reply : String → ℕ → AppState r → Bool × r.Server → AppState r
  unfolding store_in_memory
  store_reply state expires_at s (true, server) = with_server s server
  store_reply state expires_at s (false, server) =
      store_in_memory state expires_at (with_server s server)

  store_linked : ℕ → String → ℕ → AppState r → Link r → AppState r
  unfolding store_in_memory store_reply
  store_linked now state expires_at s (connected server) =
      store_reply state expires_at s (
        r.set_ex server (redis_key s ("oauth:state:" ⧺ state)) (text "1")
          (max (expires_at - now) 1))
  store_linked now state expires_at s link = store_in_memory state expires_at (after_link s link)

  unfoldable pub store_oauth_state : ℕ → String → ℕ → AppState r → AppState r
  unfolding store_linked
  store_oauth_state now state expires_at s =
      store_linked now state expires_at s (dial s.redis_client)

  -- What is left of the map after `retain`, and the match on the entry.
  consume_entry : ℕ → String → Option ℕ → AppState r → Bool × AppState r
  consume_entry now state none s = (false, s)
  consume_entry now state (some exp) s =
      if ltb now exp
      then (true, record s { oauth_states = remove state s.oauth_states })
      else (false, s)

  consume_in_memory : ℕ → String → AppState r → Bool × AppState r
  unfolding consume_entry
  consume_in_memory now state s =
      let kept = retain_values (λ exp. ltb now exp) s.oauth_states in
      consume_entry now state (kept state) (record s { oauth_states = kept })

  consume_reply : AppState r → Option (Option String) × r.Server → Bool × AppState r
  consume_reply s (reply, server) = (is_some (unwrap_or reply none), with_server s server)

  consume_linked : ℕ → String → AppState r → Link r → Bool × AppState r
  unfolding consume_in_memory consume_reply
  consume_linked now state s (connected server) =
      consume_reply s (r.get_del server (redis_key s ("oauth:state:" ⧺ state)))
  consume_linked now state s link = consume_in_memory now state (after_link s link)

  unfoldable pub consume_oauth_state : ℕ → String → AppState r → Bool × AppState r
  unfolding consume_linked
  consume_oauth_state now state s = consume_linked now state s (dial s.redis_client)
