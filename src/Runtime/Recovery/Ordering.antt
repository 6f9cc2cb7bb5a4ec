-- ===== src/Runtime/Recovery/Ordering.antt =====
-- The order in which events were logged does not matter, but among equal sequence numbers.
use crypto_trader_ver_9_alph.Prelude.{
  ◌≡◌, ◌≢◌, refl, ◌∙◌, ap, Option, some, List, [], ◌∷◌, arith, suc, Bool, true, false, Bool-cases,
  inl, inr, All, length,
}
use crypto_trader_ver_9_alph.Prelude.Float.{FloatOps}
use crypto_trader_ver_9_alph.Runtime.Recovery.{
  EventKind, balance_update, order_opened, order_closed, fill_received, position_updated, malformed,
  unhandled, Event, ReplayableRuntimeState, RecoveryResult, empty_state, apply_event, replay_from,
  rebuild_from_events, precedes, insert_sorted, sorted, recover,
}

module _ {F P : Type 0} where
  -- Two logs that differ by exchanges of neighbours with different sequence numbers.
  pub data Shuffled : List (Event F P) → List (Event F P) → Type 0 where
    same : (es : List (Event F P)) → Shuffled es es
    keep : (e : Event F P) {es fs : List (Event F P)} → Shuffled es fs → Shuffled (e ∷ es) (e ∷ fs)
    exchange :
        (a b : Event F P) (es : List (Event F P))
        → a.sequence ≢ b.sequence
        → Shuffled (a ∷ b ∷ es) (b ∷ a ∷ es)
    then : {es fs gs : List (Event F P)} → Shuffled es fs → Shuffled fs gs → Shuffled es gs

  module _ ⦃o : FloatOps F⦄ where
    insert_sorted_comm :
        (a b : Event F P) (es : List (Event F P))
        → a.sequence ≢ b.sequence
        → insert_sorted a (insert_sorted b es) ≡ insert_sorted b (insert_sorted a es)
    unfolding insert_sorted
    insert_sorted_comm a b [] h = ground arith
    insert_sorted_comm a b (c ∷ es) h = ground (arith, insert_sorted_comm a b es h)

    sorted-Shuffled : {es fs : List (Event F P)} → Shuffled es fs → sorted es ≡ sorted fs
    unfolding sorted
    sorted-Shuffled (same es) = refl
    sorted-Shuffled (keep e s) = ap (insert_sorted e) (sorted-Shuffled s)
    sorted-Shuffled (exchange a b es h) = insert_sorted_comm a b (sorted es) h
    sorted-Shuffled (then s t) = sorted-Shuffled s ∙ sorted-Shuffled t

    -- Recovery is deterministic in the sequence numbers: two logs that differ by exchanges of
    -- neighbours with different sequence numbers give the same result, failure included.
    pub recover-Shuffled :
        (checkpoint : Option (ReplayableRuntimeState F P)) (es fs : List (Event F P))
        → Shuffled es fs
        → recover checkpoint es ≡ recover checkpoint fs
    unfolding recover
    recover-Shuffled checkpoint es fs s = ground (arith, sorted-Shuffled s)

-- the payload of an event has the keys that are read
abbrev pub is_readable : {F P : Type 0} → EventKind F P → Bool
is_readable malformed = false
is_readable _ = true

abbrev pub AllReadable : {F P : Type 0} → List (Event F P) → Type 0
AllReadable = All (λ e. is_readable (e.kind) ≡ true)

module _ {F P : Type 0} ⦃o : FloatOps F⦄ where
  insert_sorted-AllReadable :
      (a : Event F P) (es : List (Event F P))
      → AllReadable (a ∷ es)
      → AllReadable (insert_sorted a es) × (length (insert_sorted a es) ≡ suc (length es))
  unfolding insert_sorted
  insert_sorted-AllReadable a [] h = (h, refl)
  insert_sorted-AllReadable a (b ∷ es) h = elim (Bool-cases (precedes b a)) [
    | inl p ↦
        let ih = insert_sorted-AllReadable a es (h.0, h.1.1) in
        rw p ((h.1.0, ih.0), omega (arith, ih.1))
    | inr p ↦ rw p (h, refl)
  ]

  sorted-AllReadable :
      (es : List (Event F P))
      → AllReadable es
      → AllReadable (sorted es) × (length (sorted es) ≡ length es)
  unfolding sorted
  sorted-AllReadable [] h = (tt, refl)
  sorted-AllReadable (a ∷ es) h =
      let ih = sorted-AllReadable es h.1 in
      let s = insert_sorted-AllReadable a (sorted es) (h.0, ih.0) in (s.0, omega (arith, s.1, ih.1))

  apply_event-some :
      (s : ReplayableRuntimeState F P) (x : EventKind F P)
      → is_readable x ≡ true
      → (t : ReplayableRuntimeState F P) × (apply_event s x ≡ some t)
  unfolding apply_event
  apply_event-some s (balance_update j b) h = (_, refl)
  apply_event-some s (order_opened j p) h = (_, refl)
  apply_event-some s (order_closed j) h = (_, refl)
  apply_event-some s (fill_received j p) h = (_, refl)
  apply_event-some s (position_updated j p) h = (_, refl)
  apply_event-some s malformed h = cc
  apply_event-some s unhandled h = (_, refl)

  replay_from-some :
      (s : ReplayableRuntimeState F P) (es : List (Event F P))
      → AllReadable es
      → (t : ReplayableRuntimeState F P) × (replay_from s es ≡ some t)
  unfolding replay_from
  replay_from-some s [] h = (s, refl)
  replay_from-some s (e ∷ es) h =
      let (u, q) = apply_event-some s e.kind h.0 in rw (q, replay_from) (replay_from-some u es h.1)

  -- Where every event's payload has the keys that are read, the recovery succeeds, from any
  -- checkpoint or none, and reports every event of the log as replayed.
  recover_succeeds :
      (checkpoint : Option (ReplayableRuntimeState F P)) (log : List (Event F P))
      → AllReadable log
      → (r : RecoveryResult F P) × (recover checkpoint log ≡ some r)
        × (r.replayed_event_count ≡ length log)
  unfolding recover rebuild_from_events
  recover_succeeds checkpoint log h =
      let s = sorted-AllReadable log h in
      let (t, q) = replay_from-some empty_state (sorted log) s.0 in rw (q, recover) (_, refl, s.1)
