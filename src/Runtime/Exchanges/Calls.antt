-- ===== src/Runtime/Exchanges/Calls.antt =====
-- What a run of calls leaves of an adapter, and how many requests a limiter allows.
use crypto_trader_ver_9_alph.Prelude.{
  ℕ, zero, suc, ◌+◌, ◌-◌, ◌≡◌, refl, Bool, true, false, ◌||◌, List, [], ◌∷◌, arith, leb, ltb,
  Bool-cases, inl, inr, if◌then◌else◌,
}
use crypto_trader_ver_9_alph.Runtime.Exchanges.{
  AdapterState, AdapterCall, connect, disconnect, authenticate, reconnect, call_adapter, call_all,
  RateLimiter, allow_request, allow_requests,
}

abbrev pub is_authenticate : AdapterCall → Bool
is_authenticate connect = false
is_authenticate disconnect = false
is_authenticate authenticate = true
is_authenticate reconnect = false

abbrev pub any_authenticate : List AdapterCall → Bool
any_authenticate [] = false
any_authenticate (c ∷ calls) = is_authenticate c || any_authenticate calls

abbrev pub reconnects : List AdapterCall → ℕ
reconnects [] = 0
reconnects (connect ∷ calls) = reconnects calls
reconnects (disconnect ∷ calls) = reconnects calls
reconnects (authenticate ∷ calls) = reconnects calls
reconnects (reconnect ∷ calls) = 1 + reconnects calls

-- the last word on the connection
abbrev pub connected_after : Bool → List AdapterCall → Bool
connected_after b [] = b
connected_after b (connect ∷ calls) = connected_after true calls
connected_after b (disconnect ∷ calls) = connected_after false calls
connected_after b (authenticate ∷ calls) = connected_after b calls
connected_after b (reconnect ∷ calls) = connected_after true calls

-- After any calls, an adapter is authenticated if it was or if it was authenticated once in them,
-- though it was disconnected or reconnected since; it is connected as the last call of the other
-- three says; and its attempts are those before and one for each reconnect.
call_all_lem :
    (calls : List AdapterCall) (a : AdapterState)
    → ((call_all calls a).authenticated ≡ (a.authenticated || any_authenticate calls))
      × ((call_all calls a).connected ≡ connected_after a.connected calls)
      × ((call_all calls a).reconnect_attempts ≡ a.reconnect_attempts + reconnects calls)
unfolding call_all call_adapter
call_all_lem [] a = (ground arith, refl, omega arith)
call_all_lem (connect ∷ calls) a = call_all_lem calls (call_adapter connect a)
call_all_lem (disconnect ∷ calls) a = call_all_lem calls (call_adapter disconnect a)
call_all_lem (authenticate ∷ calls) a =
    let (p, q, r) = call_all_lem calls (call_adapter authenticate a) in (ground (arith, p), q, r)
call_all_lem (reconnect ∷ calls) a =
    let (p, q, r) = call_all_lem calls (call_adapter reconnect a) in (p, q, omega (arith, r))

-- Of any number of requests in a row, a limiter allows the first `max_requests_per_window` less
-- those counted before, and no others: nothing ever ends the window.
allow_requests_lem :
    (n : ℕ) (l : RateLimiter)
    → let room = l.max_requests_per_window - l.request_count in
      (allow_requests n l).0 ≡ (if ltb room n then room else n)
unfolding allow_requests allow_request
allow_requests_lem zero l = ground arith
allow_requests_lem (suc n) l = elim (Bool-cases (leb l.max_requests_per_window l.request_count)) [
  | inl e ↦ ground (arith, e, allow_requests_lem n l)
  | inr e ↦
      ground (arith, e, allow_requests_lem n (record l { request_count = l.request_count + 1 }))
]
