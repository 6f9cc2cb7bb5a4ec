-- ===== src/Lifecycle/History.antt =====
-- The history of the manual transitions.
use crypto_trader_ver_9_alph.Prelude.{
  ◌≡◌, refl, sym, ◌∙◌, subst, true, false, some, List, [], ◌∷◌, ◌++◌, String, append-nil,
  append_assoc, arith, str_eq, eq_iff, Bool-cases, inl, inr,
}
use crypto_trader_ver_9_alph.Prelude.Dict.{lookup, mem}
use crypto_trader_ver_9_alph.Prelude.Text.{TextOps, normalize}
use crypto_trader_ver_9_alph.Lifecycle.{
  LifecycleTransition, Candidate, moved, lifecycle_error, allowed_from, current_status,
  build_transition_record, transition,
}

-- Steps that each start where the one before ended and go to a status that the table allows.
abbrev pub Chain : String → List LifecycleTransition → String → Type 0
Chain a [] b = a ≡ b
Chain a (x ∷ xs) b =
    (x.from_status ≡ a) × (mem x.to_status (allowed_from a) ≡ true) × Chain x.to_status xs b

-- `strip().lower()` twice is as once.
pub record Normalizes ⦃t : TextOps⦄ : Type 0 where
  pub normalize_twice : (s : String) → normalize (normalize s) ≡ normalize s

-- No status of the table is the empty text.
allowed_unnamed : (a : String) → mem "" (allowed_from a) ≡ true → ⊥
unfolding lookup
allowed_unnamed a h = ground (
  arith,
  eq_iff "candidate" a,
  eq_iff "validated" a,
  eq_iff "probationary" a,
  eq_iff "deployable" a,
  eq_iff "live" a,
  eq_iff "quarantined" a,
)

allowed_named : (a g : String) → mem g (allowed_from a) ≡ true → str_eq g "" ≡ false
allowed_named a g h = elim (Bool-cases (str_eq g "")) [
  | inr e ↦ e
  | inl e ↦
      let p : g ≡ "" = ground (arith, eq_iff g "") in
      absurd (allowed_unnamed a (subst (λ z. mem z (allowed_from a) ≡ true) p h))
]

module _ {F : Type 0} ⦃t : TextOps⦄ where
  -- manual transitions in turn, up to the first that is refused
  abbrev pub transition_all : Candidate F → List String → Candidate F
  transition_all r [] = r
  transition_all r (target ∷ targets) = elim (transition r target) [
    | moved r' ↦ transition_all r' targets
    | lifecycle_error e ↦ r
  ]

  -- Where `strip().lower()` twice is as once, the transitions of a run of manual ones, up to the
  -- first that is refused: they stand at the end of the history as a chain of allowed steps, from
  -- the status before the run to the one after it.
  pub transition_all-Chain :
      Normalizes
      → (r : Candidate F) (targets : List String)
      → (new : List LifecycleTransition) × ((transition_all r targets).transition_history
          ≡ r.transition_history ++ new)
        × Chain (current_status r) new (current_status (transition_all r targets))
  unfolding transition
  transition_all-Chain law r [] = ([], sym (append-nil r.transition_history), refl)
  transition_all-Chain law r (target ∷ targets) =
      let current = current_status r in
      let goal = normalize target in
      elim (Bool-cases (mem goal (allowed_from current))) [
        | inr e ↦
            rw (e, transition, transition_all) ([], sym (append-nil r.transition_history), refl)
        | inl e ↦
            let step = build_transition_record r.strategy_id current goal "manual_transition" in
            let r' : Candidate F = record r {
              status = some goal;
              transition_history = r.transition_history ++ step ∷ [];
            } in
            let (new, h, c) = transition_all-Chain law r' targets in
            let same : normalize goal ≡ goal = law.normalize_twice target in
            let start : normalize current ≡ current = law.normalize_twice _ in
            let next : current_status r' ≡ normalize goal =
              rw (allowed_named current goal e) refl in
            rw (e, transition, transition_all)
              (
                step ∷ new,
                h ∙ append_assoc r.transition_history (step ∷ []) new,
                (
                  start,
                  subst (λ z. mem z (allowed_from current) ≡ true) (sym same) e,
                  subst (λ z. Chain z new (current_status (transition_all r' targets))) next c,
                ),
              )
      ]
