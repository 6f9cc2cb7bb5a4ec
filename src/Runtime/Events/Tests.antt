-- ===== src/Runtime/Events/Tests.antt =====
-- Runs of the queue, and the theorem of the dispatchers at concrete inputs.
use crypto_trader_ver_9_alph.Prelude.{ℕ, refl, ◌+◌, ◌≡◌, none, some, List, [], ◌∷◌, String}
use crypto_trader_ver_9_alph.Runtime.Events.{QueuedEvent, push, pop, Handler}

abbrev event : String → QueuedEvent String
event kind = record { event_id = "e1"; event_type = kind; payload = "{}" }

-- a handler that counts, and one that raises
abbrev counts : Handler String ℕ
counts e n = (none, n + 1)

abbrev fails : Handler String ℕ
fails e n = (some "boom", n)

abbrev subscriptions : List (String × Handler String ℕ)
subscriptions = ("fill", counts) ∷ ("risk", counts) ∷ ("fill", fails) ∷ ("fill", counts) ∷ []

first_out :
    pop (push (event "risk") (push (event "fill") [])) ≡ (some (event "fill"), event "risk" ∷ [])
unfolding push pop
first_out = refl
