-- ===== src/Runtime/Events.antt =====
-- ver9/runtime/events: the queue, and the three dispatchers (message bus, dispatcher, router),
-- which keep a list of handlers for each event type. A handler is a parameter: an action on a
-- state `S` that returns or raises a text; it is taken not to register handlers while it runs.
pub mod Delivery
mod Tests
use crypto_trader_ver_9_alph.Prelude.{
  ℕ, Option, none, some, List, [], ◌∷◌, ◌++◌, String, length, or_else,
}
use crypto_trader_ver_9_alph.Prelude.Dict.{Dict, lookup, insert}

-- `EventQueueState`: `J` is a payload.
pub record QueuedEvent (J : Type 0) : Type 0 where
  pub event_id : String
  pub event_type : String
  pub payload : J

module _ {J : Type 0} where
  unfoldable pub push : QueuedEvent J → List (QueuedEvent J) → List (QueuedEvent J)
  push event items = items ++ event ∷ []

  unfoldable pub pop : List (QueuedEvent J) → Option (QueuedEvent J) × List (QueuedEvent J)
  pop [] = (none, [])
  pop (event ∷ items) = (some event, items)

  unfoldable pub size : List (QueuedEvent J) → ℕ
  size items = length items

-- A handler takes an event and the state of its surroundings; `some e` is an exception.
abbrev pub Handler : Type 0 → Type 0 → Type 0
Handler J S = QueuedEvent J → S → Option String × S

module _ {J S : Type 0} where
  -- `self.subscribers[topic].append(handler)`, on a `defaultdict(list)`; likewise `attach` and
  -- `register`
  unfoldable pub subscribe :
      String → Handler J S → Dict (List (Handler J S)) → Dict (List (Handler J S))
  subscribe topic handler subscribers =
      insert topic (or_else (lookup topic subscribers) [] ++ handler ∷ []) subscribers

  -- the `for` loop over the handlers; an exception ends it
  abbrev pub call_all : List (Handler J S) → QueuedEvent J → S → Option String × S
  call_all [] event s = (none, s)
  call_all (h ∷ hs) event s =
      let (r, s') = h event s in elim r [ none ↦ call_all hs event s' | some e ↦ (some e, s') ]

  -- `publish`, and `dispatch` of the dispatcher and of the router
  unfoldable pub publish : QueuedEvent J → Dict (List (Handler J S)) → S → Option String × S
  publish event subscribers s = call_all (or_else (lookup event.event_type subscribers) []) event s
