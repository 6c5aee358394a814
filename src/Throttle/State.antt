-- ===== src/Throttle/State.antt =====
-- The part of `AppState` (src/state.rs) that throttling reads and writes, and the Redis server that
-- it may be connected to. The locks round the maps make each operation atomic. Times are Unix
-- seconds, and the window and lockout lengths are those of a validated configuration: positive.
use keylo.Base.Text.{◌⧺◌}
use keylo.Base.{ℕ, String, Bool, true, false, Option, none, some, List, StrMap, empty}

-- The value of a key: GETDEL reads the text that SETEX wrote, GET a number.
pub data RedisValue : Type 0 where
  text : String → RedisValue
  number : ℕ → RedisValue

-- The Redis client and its server are not part of the program. Each command takes the server's
-- state to its reply and its next state; `none` is an error reply.
pub record Redis : Type 1 where
  pub Server : Type 0
  pub connect : Server → Bool × Server
  pub set_ex : Server → String → RedisValue → ℕ → Bool × Server
  pub get_del : Server → String → Option (Option String) × Server
  pub get_number : Server → String → Option (Option ℕ) × Server
  pub exists : Server → String → Option Bool × Server
  pub incr : Server → String → Option ℕ × Server
  pub expire : Server → String → ℕ → Server
  pub del : Server → String → Server
  -- `{}` of a number in a key's text
  pub number_text : ℕ → String

pub record AppState (r : Redis) : Type 0 where
  -- `redis_client`, with the state of the server that it reaches
  pub redis_client : Option r.Server
  pub redis_key_prefix : String
  -- `config.is_production()`
  pub production : Bool
  pub oauth_states : StrMap ℕ
  -- (failed_count, locked_until)
  pub login_attempts : StrMap (ℕ × ℕ)
  pub auth_rate_limits : StrMap (List ℕ)

-- The two nested `if let` that stand before every in-memory path.
pub data Link (r : Redis) : Type 0 where
  no_client : Link r
  refused : r.Server → Link r
  connected : r.Server → Link r

abbrev reached : {r : Redis} → Bool × r.Server → Link r
reached (false, server) = refused server
reached (true, server) = connected server

abbrev pub dial : {r : Redis} → Option r.Server → Link r
dial none = no_client
dial {r} (some server) = reached (r.connect server)

abbrev pub with_server : {r : Redis} → AppState r → r.Server → AppState r
with_server s server = record s { redis_client = some server }

-- The state that the in-memory path goes on with, where no connection was made.
abbrev pub after_link : {r : Redis} → AppState r → Link r → AppState r
after_link s no_client = s
after_link s (refused server) = with_server s server
after_link s (connected server) = with_server s server

unfoldable pub redis_key : {r : Redis} → AppState r → String → String
redis_key s suffix = s.redis_key_prefix ⧺ ":" ⧺ suffix

-- A process that has just started, with no Redis configured.
abbrev pub fresh : {r : Redis} → Bool → AppState r
fresh production = record {
  redis_client = none;
  redis_key_prefix = "keylo";
  production = production;
  oauth_states = empty;
  login_attempts = empty;
  auth_rate_limits = empty;
}
