-- ===== src/Runtime/Exchanges/Tests.antt =====
-- A disconnected adapter that stays authenticated and a limiter that is spent, run.
use crypto_trader_ver_9_alph.Prelude.{◌≡◌, refl, true, false, List, [], ◌∷◌}
use crypto_trader_ver_9_alph.Runtime.Exchanges.{
  AdapterCall, connect, disconnect, authenticate, new_adapter, call_adapter, call_all, RateLimiter,
  allow_request, allow_requests,
}

abbrev calls : List AdapterCall
calls = connect ∷ authenticate ∷ disconnect ∷ []

still_authenticated :
    ((call_all calls new_adapter).authenticated ≡ true)
    × ((call_all calls new_adapter).connected ≡ false)
unfolding call_all call_adapter
still_authenticated = (refl, refl)

abbrev limiter : RateLimiter
limiter = record { max_requests_per_window = 3; request_count = 1 }

two_allowed : (allow_requests 9 limiter).0 ≡ 2
unfolding allow_requests allow_request
two_allowed = refl
