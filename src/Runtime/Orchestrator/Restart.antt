-- ===== src/Runtime/Orchestrator/Restart.antt =====
-- A restart over the events that an orchestrator has handled.
use crypto_trader_ver_9_alph.Prelude.{
  suc, ◌+◌, ◌≡◌, refl, ap, sym, ◌∙◌, ◌⊎◌, inl, inr, true, Option, none, some, List, [], ◌∷◌, ◌++◌,
  length, length-append, append_assoc, append-nil, arith, Option-cases,
}
use crypto_trader_ver_9_alph.Prelude.Float.{FloatOps}
use crypto_trader_ver_9_alph.Runtime.Recovery.{
  Event, ReplayableRuntimeState, recover, rebuild_from_events, insert_sorted, sorted,
}
use crypto_trader_ver_9_alph.Runtime.Orchestrator.{
  Orchestrator, start_exchange, start_scheduler, new_orchestrator, start, stop,
  handle_runtime_event, handle_all,
}

module _ {F P : Type 0} where
  event_log-handle_all :
      (es : List (Event F P)) (s : Orchestrator F P)
      → (handle_all es s).event_log ≡ s.event_log ++ es
  unfolding handle_all handle_runtime_event
  event_log-handle_all [] s = sym (append-nil s.event_log)
  event_log-handle_all (e ∷ es) s =
      event_log-handle_all es (handle_runtime_event e s) ∙ append_assoc s.event_log (e ∷ []) es

module _ {F P : Type 0} ⦃o : FloatOps F⦄ where
  length-insert_sorted :
      (e : Event F P) (es : List (Event F P)) → length (insert_sorted e es) ≡ suc (length es)
  unfolding insert_sorted
  length-insert_sorted e [] = refl
  length-insert_sorted e (f ∷ es) = ground (arith, length-insert_sorted e es)

  length-sorted : (es : List (Event F P)) → length (sorted es) ≡ length es
  unfolding sorted
  length-sorted [] = refl
  length-sorted (e ∷ es) = length-insert_sorted e (sorted es) ∙ ap suc (length-sorted es)

  -- A start, from the recovery of its log on: nothing is started where that fails.
  abbrev pub Started :
      Option (ReplayableRuntimeState F P) → Orchestrator F P → Option (Orchestrator F P) → Type 0
  Started checkpoint s r =
      ((recover checkpoint s.event_log ≡ none) × (r ≡ none))
      ⊎ ((t : Orchestrator F P) × (r ≡ some t)
          × (t.active ≡ true)
          × (t.replayed_events ≡ length s.event_log)
          × (t.event_log ≡ s.event_log)
          × (t.calls ≡ s.calls ++ start_exchange ∷ start_scheduler ∷ []))

  start-Started :
      (checkpoint : Option (ReplayableRuntimeState F P)) (s : Orchestrator F P)
      → Started checkpoint s (start checkpoint s)
  unfolding start recover
  start-Started checkpoint s = elim (Option-cases (rebuild_from_events (sorted s.event_log))) [
    | inl p ↦ inl (rw (p, recover), rw (p, start, recover))
    | inr (t, p) ↦
        rw (p, start, recover) (inr (_, refl, refl, length-sorted s.event_log, refl, refl))
  ]

  -- A new start over the log that an orchestrator leaves, after any events that it has handled and
  -- its stop, either fails with the recovery, and then starts nothing, or is active, has replayed
  -- as many events as the log had before and were handled, and has started the exchange runtime
  -- and then the scheduler.
  pub restart_lem :
      (checkpoint : Option (ReplayableRuntimeState F P)) (es : List (Event F P))
      (s : Orchestrator F P)
      → let log = (stop (handle_all es s)).event_log in
        let r = start checkpoint (new_orchestrator log) in
        ((recover checkpoint (s.event_log ++ es) ≡ none) × (r ≡ none))
        ⊎ ((t : Orchestrator F P) × (r ≡ some t)
            × (t.active ≡ true)
            × (t.replayed_events ≡ length s.event_log + length es)
            × (t.calls ≡ start_exchange ∷ start_scheduler ∷ []))
  unfolding stop
  restart_lem checkpoint es s =
      let log = (handle_all es s).event_log in
      let e = event_log-handle_all es s in
      elim (start-Started checkpoint (new_orchestrator log)) [
        | inl (p, q) ↦ inl (sym (ap (recover checkpoint) e) ∙ p, q)
        | inr (t, p, q, n, l, c) ↦ inr (t, p, q, n ∙ ap length e ∙ length-append s.event_log es, c)
      ]
