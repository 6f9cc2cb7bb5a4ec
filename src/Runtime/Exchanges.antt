-- ===== src/Runtime/Exchanges.antt =====
-- ver9/runtime/exchanges: the state of an adapter (base_adapter.py), the rate limiter
-- (rate_limit_state.py) and the health of a connection (connection_health.py). Time stamps are
-- left out.
pub mod Calls
mod Tests
use crypto_trader_ver_9_alph.Prelude.{
  ℕ, zero, suc, ◌+◌, Bool, true, false, List, [], ◌∷◌, String, leb, if◌then◌else◌,
}
use crypto_trader_ver_9_alph.Prelude.Float.{FloatOps, decimal, lt, round}

pub record AdapterState : Type 0 where
  pub connected : Bool
  pub authenticated : Bool
  pub reconnect_attempts : ℕ

abbrev pub new_adapter : AdapterState
new_adapter = record { connected = false; authenticated = false; reconnect_attempts = 0 }

-- The methods of an adapter.
pub data AdapterCall : Type 0 where
  connect : AdapterCall
  disconnect : AdapterCall
  authenticate : AdapterCall
  reconnect : AdapterCall

unfoldable pub call_adapter : AdapterCall → AdapterState → AdapterState
call_adapter connect a = record a { connected = true }
call_adapter disconnect a = record a { connected = false }
call_adapter authenticate a = record a { authenticated = true }
call_adapter reconnect a = record a {
  reconnect_attempts = a.reconnect_attempts + 1;
  connected = true;
}

unfoldable pub call_all : List AdapterCall → AdapterState → AdapterState
call_all [] a = a
call_all (c ∷ calls) a = call_all calls (call_adapter c a)

pub record RateLimiter : Type 0 where
  pub max_requests_per_window : ℕ
  pub request_count : ℕ

unfoldable pub allow_request : RateLimiter → Bool × RateLimiter
allow_request l =
    if leb l.max_requests_per_window l.request_count
    then (false, l)
    else (true, record l { request_count = l.request_count + 1 })

-- so many requests in a row: how many are allowed
unfoldable pub allow_requests : ℕ → RateLimiter → ℕ × RateLimiter
allow_requests zero l = (0, l)
allow_requests (suc n) l =
    let (allowed, l') = allow_request l in
    let (count, l'') = allow_requests n l' in ((if allowed then 1 else 0) + count, l'')

pub record ConnectionHealth (F : Type 0) : Type 0 where
  pub connection_state : String
  pub latency_ms : F
  pub reconnect_attempts : ℕ

-- `ConnectionHealthTracker.evaluate`, on the attempts counted so far
unfoldable pub evaluate_health : {F : Type 0} ⦃o : FloatOps F⦄ → ℕ → F → Bool → ConnectionHealth F
evaluate_health attempts latency connected =
    let degraded = lt (decimal 1500 0) latency in
    record {
      connection_state =
          if connected then (if degraded then "degraded" else "connected") else "disconnected";
      latency_ms = round latency 4;
      reconnect_attempts = if connected then attempts else attempts + 1;
    }
