-- ===== src/Runtime/Recovery/Replay.antt =====
-- What a replay rebuilds: for each key the last word of the log.
use crypto_trader_ver_9_alph.Prelude.{
  ◌≡◌, refl, Option, none, some, List, [], ◌∷◌, String, arith, str_eq, if◌then◌else◌, Option-cases,
  inl, inr, subst,
}
use crypto_trader_ver_9_alph.Prelude.Dict.{
  IsDict, lookup, lookup-insert, lookup-erase, insert-IsDict, erase-IsDict,
}
use crypto_trader_ver_9_alph.Runtime.Recovery.{
  EventKind, balance_update, order_opened, order_closed, fill_received, position_updated, malformed,
  unhandled, Event, ReplayableRuntimeState, empty_state, apply_event, replay_from,
  rebuild_from_events,
}

-- What one event says of a key, given what held before: of an open order, a balance, a fill and a
-- position.
module _ {F P : Type 0} (k : String) where
  abbrev pub order_word : EventKind F P → Option P → Option P
  order_word (order_opened j p) w = if str_eq j k then some p else w
  order_word (order_closed j) w = if str_eq j k then none else w
  order_word _ w = w

  abbrev pub balance_word : EventKind F P → Option F → Option F
  balance_word (balance_update j b) w = if str_eq j k then some b else w
  balance_word _ w = w

  abbrev pub fill_word : EventKind F P → Option P → Option P
  fill_word (fill_received j p) w = if str_eq j k then some p else w
  fill_word _ w = w

  abbrev pub position_word : EventKind F P → Option P → Option P
  position_word (position_updated j p) w = if str_eq j k then some p else w
  position_word _ w = w

-- the last word of a log, from what held before it
abbrev pub last_word :
    {F P A : Type 0}
    → (EventKind F P → Option A → Option A)
    → Option A
    → List (Event F P)
    → Option A
last_word word w [] = w
last_word word w (e ∷ es) = last_word word (word e.kind w) es

-- every dict of a state has unique keys
pub record AreDicts {F P : Type 0} (s : ReplayableRuntimeState F P) : Type 0 where
  pub positions_dict : IsDict s.positions
  pub balances_dict : IsDict s.balances
  pub orders_dict : IsDict s.open_orders
  pub fills_dict : IsDict s.fills

-- what a state holds under a key, against what held before and the events since
abbrev pub Holds :
    {F P : Type 0}
    → String
    → ReplayableRuntimeState F P
    → List (Event F P)
    → ReplayableRuntimeState F P
    → Type 0
Holds k s es t =
    (lookup k t.open_orders ≡ last_word (order_word k) (lookup k s.open_orders) es)
    × (lookup k t.balances ≡ last_word (balance_word k) (lookup k s.balances) es)
    × (lookup k t.fills ≡ last_word (fill_word k) (lookup k s.fills) es)
    × (lookup k t.positions ≡ last_word (position_word k) (lookup k s.positions) es)

module _ {F P : Type 0} where
  apply_event-Holds :
      (k : String) (s t : ReplayableRuntimeState F P) (e : Event F P) (x : EventKind F P)
      → e.kind ≡ x
      → apply_event s x ≡ some t
      → Holds k s (e ∷ []) t
  unfolding apply_event
  apply_event-Holds k s t e (balance_update j b) q h =
      ground (arith, lookup-insert j k b s.balances)
  apply_event-Holds k s t e (order_opened j p) q h =
      ground (arith, lookup-insert j k p s.open_orders)
  apply_event-Holds k s t e (order_closed j) q h = ground (arith, lookup-erase j k s.open_orders)
  apply_event-Holds k s t e (fill_received j p) q h = ground (arith, lookup-insert j k p s.fills)
  apply_event-Holds k s t e (position_updated j p) q h =
      ground (arith, lookup-insert j k p s.positions)
  apply_event-Holds k s t e malformed q h = cc
  apply_event-Holds k s t e unhandled q h = ground arith

  moved : {u t : ReplayableRuntimeState F P} → some u ≡ some t → AreDicts u → AreDicts t
  moved {u} {t} h d = let e : u ≡ t = cc in subst AreDicts e d

  apply_event-AreDicts :
      (s t : ReplayableRuntimeState F P) (x : EventKind F P)
      → apply_event s x ≡ some t
      → AreDicts s
      → AreDicts t
  unfolding apply_event
  apply_event-AreDicts s t (balance_update j b) h d = moved h (record {
    positions_dict = d.positions_dict;
    balances_dict = insert-IsDict j b s.balances d.balances_dict;
    orders_dict = d.orders_dict;
    fills_dict = d.fills_dict;
  })
  apply_event-AreDicts s t (order_opened j p) h d = moved h (record {
    positions_dict = d.positions_dict;
    balances_dict = d.balances_dict;
    orders_dict = insert-IsDict j p s.open_orders d.orders_dict;
    fills_dict = d.fills_dict;
  })
  apply_event-AreDicts s t (order_closed j) h d = moved h (record {
    positions_dict = d.positions_dict;
    balances_dict = d.balances_dict;
    orders_dict = erase-IsDict j s.open_orders d.orders_dict;
    fills_dict = d.fills_dict;
  })
  apply_event-AreDicts s t (fill_received j p) h d = moved h (record {
    positions_dict = d.positions_dict;
    balances_dict = d.balances_dict;
    orders_dict = d.orders_dict;
    fills_dict = insert-IsDict j p s.fills d.fills_dict;
  })
  apply_event-AreDicts s t (position_updated j p) h d = moved h (record {
    positions_dict = insert-IsDict j p s.positions d.positions_dict;
    balances_dict = d.balances_dict;
    orders_dict = d.orders_dict;
    fills_dict = d.fills_dict;
  })
  apply_event-AreDicts s t malformed h d = cc
  apply_event-AreDicts s t unhandled h d = moved h (record {
    positions_dict = d.positions_dict;
    balances_dict = d.balances_dict;
    orders_dict = d.orders_dict;
    fills_dict = d.fills_dict;
  })

  replay_from-Holds :
      (k : String) (s t : ReplayableRuntimeState F P) (es : List (Event F P))
      → replay_from s es ≡ some t
      → Holds k s es t
  unfolding replay_from
  replay_from-Holds k s t [] h = ground arith
  replay_from-Holds k s t (e ∷ es) h = elim (Option-cases (apply_event s e.kind)) [
    | inl q ↦ ground arith
    | inr (u, q) ↦
        ground (arith, apply_event-Holds k s u e e.kind refl q, replay_from-Holds k u t es)
  ]

  replay_from-AreDicts :
      (s t : ReplayableRuntimeState F P) (es : List (Event F P))
      → replay_from s es ≡ some t
      → AreDicts s
      → AreDicts t
  unfolding replay_from
  replay_from-AreDicts s t [] h d = moved h d
  replay_from-AreDicts s t (e ∷ es) h d = elim (Option-cases (apply_event s e.kind)) [
    | inl q ↦ absurd (ground arith)
    | inr (u, q) ↦
        let h' : replay_from u es ≡ some t = ground arith in
        replay_from-AreDicts u t es h' (apply_event-AreDicts s u e.kind q d)
  ]

  -- A replay that succeeds holds under every key the last word of the log on it: of open orders,
  -- a closing removes the order; of balances, fills and positions, the latest update stands.
  pub rebuild-Holds :
      (k : String) (es : List (Event F P)) (t : ReplayableRuntimeState F P)
      → rebuild_from_events es ≡ some t
      → Holds k empty_state es t
  unfolding rebuild_from_events
  rebuild-Holds k es t h = replay_from-Holds k empty_state t es h

  pub rebuild-AreDicts :
      (es : List (Event F P)) (t : ReplayableRuntimeState F P)
      → rebuild_from_events es ≡ some t
      → AreDicts t
  unfolding rebuild_from_events
  rebuild-AreDicts es t h =
      replay_from-AreDicts empty_state t es h
        (record { positions_dict = tt; balances_dict = tt; orders_dict = tt; fills_dict = tt })
