-- ===== src/Runtime/Recovery.antt =====
-- ver9/runtime/recovery: the replay of logged events on a checkpoint. The checkpoint and the event
-- log are files, taken to give back what was written; payloads are of any type `P`. `none` is the
-- `KeyError` of an event whose payload lacks its key.
pub mod Replay
pub mod Merge
pub mod Ordering
mod Tests
use crypto_trader_ver_9_alph.Prelude.{
  ℕ, Bool, Option, none, some, List, [], ◌∷◌, String, ltb, ◌==◌, ◌&&◌, ◌||◌, length, if◌then◌else◌,
  or_else, is_some,
}
use crypto_trader_ver_9_alph.Prelude.Dict.{Dict, insert, erase, update}
use crypto_trader_ver_9_alph.Prelude.Float.{FloatOps, lt}

-- What an event says. The payload of an order, a fill or a position is stored whole.
pub data EventKind (F P : Type 0) : Type 0 where
  balance_update : String → F → EventKind F P
  order_opened : String → P → EventKind F P
  order_closed : String → EventKind F P
  fill_received : String → P → EventKind F P
  position_updated : String → P → EventKind F P
  -- an event of one of these types whose payload lacks a key that is read
  malformed : EventKind F P
  -- any other type
  unhandled : EventKind F P

-- An event, with 0 for a sequence or timestamp that it lacks.
pub record Event (F P : Type 0) : Type 0 where
  pub kind : EventKind F P
  pub sequence : ℕ
  pub timestamp : F

pub record ReplayableRuntimeState (F P : Type 0) : Type 0 where
  pub positions : Dict P
  pub balances : Dict F
  pub open_orders : Dict P
  pub fills : Dict P
  pub runtime_metadata : Dict P

abbrev pub empty_state : {F P : Type 0} → ReplayableRuntimeState F P
empty_state = record {
  positions = [];
  balances = [];
  open_orders = [];
  fills = [];
  runtime_metadata = [];
}

pub record RecoveryResult (F P : Type 0) : Type 0 where
  pub recovered_state : ReplayableRuntimeState F P
  pub recovered_from_checkpoint : Bool
  pub replayed_event_count : ℕ

module _ {F P : Type 0} where
  unfoldable pub apply_event :
      ReplayableRuntimeState F P → EventKind F P → Option (ReplayableRuntimeState F P)
  apply_event s (balance_update asset balance) =
      some (record s { balances = insert asset balance s.balances })
  apply_event s (order_opened id payload) =
      some (record s { open_orders = insert id payload s.open_orders })
  apply_event s (order_closed id) = some (record s { open_orders = erase id s.open_orders })
  apply_event s (fill_received id payload) = some (record s { fills = insert id payload s.fills })
  apply_event s (position_updated symbol payload) =
      some (record s { positions = insert symbol payload s.positions })
  apply_event s malformed = none
  apply_event s unhandled = some s

  -- the loop of `rebuild_from_events`
  unfoldable pub replay_from :
      ReplayableRuntimeState F P → List (Event F P) → Option (ReplayableRuntimeState F P)
  replay_from s [] = some s
  replay_from s (e ∷ es) = elim (apply_event s e.kind) [ none ↦ none | some t ↦ replay_from t es ]

  unfoldable pub rebuild_from_events : List (Event F P) → Option (ReplayableRuntimeState F P)
  unfolding replay_from
  rebuild_from_events es = replay_from empty_state es

  -- the four `update` calls of `recover`
  abbrev pub merge :
      ReplayableRuntimeState F P → ReplayableRuntimeState F P → ReplayableRuntimeState F P
  merge s rebuilt = record s {
    positions = update s.positions rebuilt.positions;
    balances = update s.balances rebuilt.balances;
    open_orders = update s.open_orders rebuilt.open_orders;
    fills = update s.fills rebuilt.fills;
  }

  module _ ⦃o : FloatOps F⦄ where
    -- `(sequence, timestamp)` of one event below that of another
    abbrev pub precedes : Event F P → Event F P → Bool
    precedes a b =
        ltb a.sequence b.sequence || (a.sequence == b.sequence && lt a.timestamp b.timestamp)

    -- `sorted` is stable: an event goes before the first later one that does not precede it
    unfoldable pub insert_sorted : Event F P → List (Event F P) → List (Event F P)
    insert_sorted a [] = a ∷ []
    insert_sorted a (b ∷ es) = if precedes b a then b ∷ insert_sorted a es else a ∷ b ∷ es

    unfoldable pub sorted : List (Event F P) → List (Event F P)
    sorted [] = []
    sorted (a ∷ es) = insert_sorted a (sorted es)

    unfoldable pub recover :
        Option (ReplayableRuntimeState F P) → List (Event F P) → Option (RecoveryResult F P)
    recover checkpoint log =
        let events = sorted log in
        elim (rebuild_from_events events) [
          | none ↦ none
          | some rebuilt ↦ some (record {
            recovered_state = merge (or_else checkpoint empty_state) rebuilt;
            recovered_from_checkpoint = is_some checkpoint;
            replayed_event_count = length events;
          })
        ]
