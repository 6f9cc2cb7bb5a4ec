-- ===== src/Lifecycle/Promotion.antt =====
-- What the automatic promotion does: the highest gate decides.
use crypto_trader_ver_9_alph.Prelude.{
  ◌≡◌, refl, sym, ◌∙◌, ap, subst, Bool, true, false, ◌||◌, Option, none, some, String, arith,
  str_eq, if◌then◌else◌, Bool-cases, inl, inr,
}
use crypto_trader_ver_9_alph.Prelude.Float.{FloatOps}
use crypto_trader_ver_9_alph.Prelude.Text.{TextOps, normalize}
use crypto_trader_ver_9_alph.Lifecycle.{Candidate, current_status}
use crypto_trader_ver_9_alph.Lifecycle.Basket.{
  BasketContext, basket_context, basket_novelty_score, is_validated, promote_if,
  can_enter_probationary_basket, can_enter_deployable_basket, auto_promote,
}

-- `strip().lower()` leaves the three statuses of a promotion as they are.
pub record KeepsStatuses ⦃t : TextOps⦄ : Type 0 where
  pub keeps_validated : normalize "validated" ≡ "validated"
  pub keeps_probationary : normalize "probationary" ≡ "probationary"
  pub keeps_deployable : normalize "deployable" ≡ "deployable"

module _ {F : Type 0} ⦃o : FloatOps F⦄ ⦃t : TextOps⦄ where
  abbrev pub is_frozen : Candidate F → Bool
  is_frozen r = str_eq (current_status r) "live" || str_eq (current_status r) "quarantined"

  -- The status that a candidate earns, from the gates at the record as it is.
  abbrev pub earned : Candidate F → Option (BasketContext F) → Option String
  earned r context =
      if is_frozen r
      then r.status
      else if can_enter_deployable_basket r context
      then some "deployable"
      else if can_enter_probationary_basket r context
      then some "probationary"
      else if is_validated r
      then some "validated"
      else r.status

  abbrev with_status : Candidate F → Option String → Candidate F
  with_status r s = record r { status = s }

  deployable_any_status :
      (r : Candidate F) (s : Option String) (context : Option (BasketContext F))
      → can_enter_deployable_basket (with_status r s) (some (basket_context r context))
        ≡ can_enter_deployable_basket r context
  unfolding can_enter_deployable_basket basket_context basket_novelty_score
  deployable_any_status r s none = refl
  deployable_any_status r s (some c) = refl

  probationary_any_status :
      (r : Candidate F) (s : Option String) (context : Option (BasketContext F))
      → str_eq (current_status r) "quarantined" ≡ false
      → str_eq (current_status (with_status r s)) "quarantined" ≡ false
      → can_enter_probationary_basket (with_status r s) (some (basket_context r context))
        ≡ can_enter_probationary_basket r context
  unfolding can_enter_probationary_basket basket_context basket_novelty_score
  probationary_any_status r s none p q = rw (p, q) refl
  probationary_any_status r s (some c) p q = rw (p, q) refl

  -- the two gates of `auto_promote` in turn, from some status on, when it is known how they answer
  by_gates :
      (r : Candidate F) (s : Option String) (ready : Option (BasketContext F)) (p d : Bool)
      → can_enter_probationary_basket (with_status r s) ready ≡ p
      → ((s' : Option String) → can_enter_deployable_basket (with_status r s') ready ≡ d)
      → (let y =
            promote_if
              (can_enter_probationary_basket (with_status r s) ready)
              "probationary"
              (with_status r s) in
          promote_if (can_enter_deployable_basket y ready) "deployable" y)
        ≡ with_status r (if d then some "deployable" else if p then some "probationary" else s)
  by_gates r s ready true true e f = rw (e, f (some "probationary")) refl
  by_gates r s ready true false e f = rw (e, f (some "probationary")) refl
  by_gates r s ready false true e f = rw (e, f s) refl
  by_gates r s ready false false e f = rw (e, f s) refl

  from_status :
      (r : Candidate F) (s : Option String) (context : Option (BasketContext F))
      → str_eq (current_status r) "quarantined" ≡ false
      → str_eq (current_status (with_status r s)) "quarantined" ≡ false
      → (let ready = some (basket_context r context) in
          let y =
            promote_if
              (can_enter_probationary_basket (with_status r s) ready)
              "probationary"
              (with_status r s) in
          promote_if (can_enter_deployable_basket y ready) "deployable" y)
        ≡ with_status r (
            if can_enter_deployable_basket r context
            then some "deployable"
            else if can_enter_probationary_basket r context
            then some "probationary"
            else s)
  from_status r s context p q =
      by_gates r s (some (basket_context r context)) (can_enter_probationary_basket r context)
        (can_enter_deployable_basket r context) (probationary_any_status r s context p q)
        (λ s'. deployable_any_status r s' context)

  -- Where `strip().lower()` leaves the three statuses of a promotion as they are, the automatic
  -- promotion changes nothing but the status, and gives the one that the highest gate passed
  -- grants: a live or quarantined candidate keeps its own; else it is deployable if it passes the
  -- deployable gate, else probationary if it passes the probationary one, else validated if it
  -- meets the validation thresholds, else as before.
  pub auto_promote_lem :
      KeepsStatuses
      → (r : Candidate F) (context : Option (BasketContext F))
      → auto_promote r context ≡ record r { status = earned r context }
  unfolding auto_promote
  auto_promote_lem law r context = elim (Bool-cases (is_frozen r)) [
    | inl e ↦ rw (e, auto_promote) refl
    | inr e ↦
        let q : str_eq (current_status r) "quarantined" ≡ false = ground arith in
        elim (Bool-cases (is_validated r)) [
          | inl v ↦
              rw (e, auto_promote, v)
                (from_status r (some "validated") context q (rw (law.keeps_validated) refl))
          | inr v ↦ rw (e, auto_promote, v) (from_status r r.status context q q)
        ]
  ]

  earned_at :
      (r : Candidate F) (s : Option String) (context : Option (BasketContext F))
      → is_frozen r ≡ false
      → is_frozen (with_status r s) ≡ false
      → earned (with_status r s) context ≡ (
          if can_enter_deployable_basket r context
          then some "deployable"
          else if can_enter_probationary_basket r context
          then some "probationary"
          else if is_validated r
          then some "validated"
          else s)
  unfolding can_enter_probationary_basket can_enter_deployable_basket basket_context
      basket_novelty_score
  earned_at r s context e f =
      let p : str_eq (current_status r) "quarantined" ≡ false = ground arith in
      let q : str_eq (current_status (with_status r s)) "quarantined" ≡ false = ground arith in
      rw (f, p, q) refl

  earned_from :
      (r : Candidate F) (s : Option String) (context : Option (BasketContext F))
      → earned r context ≡ s
      → earned (with_status r s) context ≡ s
      → earned (with_status r (earned r context)) context ≡ earned r context
  earned_from r s context x y = subst (λ z. earned (with_status r z) context ≡ z) (sym x) y

  earned_again :
      KeepsStatuses
      → (r : Candidate F) (context : Option (BasketContext F)) → is_frozen r ≡ false
      → earned (with_status r (earned r context)) context ≡ earned r context
  earned_again law r context e = elim (Bool-cases (can_enter_deployable_basket r context)) [
    | inl d ↦
        let f : is_frozen (with_status r (some "deployable")) ≡ false =
          rw (law.keeps_deployable) refl in
        earned_from r (some "deployable") context (rw (e, d) refl)
          (earned_at r (some "deployable") context e f ∙ rw d refl)
    | inr d ↦ elim (Bool-cases (can_enter_probationary_basket r context)) [
      | inl p ↦
          let f : is_frozen (with_status r (some "probationary")) ≡ false =
            rw (law.keeps_probationary) refl in
          earned_from r (some "probationary") context (rw (e, d, p) refl)
            (earned_at r (some "probationary") context e f ∙ rw (d, p) refl)
      | inr p ↦ elim (Bool-cases (is_validated r)) [
        | inl v ↦
            let f : is_frozen (with_status r (some "validated")) ≡ false =
              rw (law.keeps_validated) refl in
            earned_from r (some "validated") context (rw (e, d, p, v) refl)
              (earned_at r (some "validated") context e f ∙ rw (d, p, v) refl)
        | inr v ↦
            earned_from r r.status context (rw (e, d, p, v) refl)
              (earned_at r r.status context e e ∙ rw (d, p, v) refl)
      ]
    ]
  ]

  -- Where `strip().lower()` leaves the three statuses of a promotion as they are, a second
  -- automatic promotion in the same basket changes nothing.
  auto_promote_twice :
      KeepsStatuses
      → (r : Candidate F) (context : Option (BasketContext F))
      → auto_promote (auto_promote r context) context ≡ auto_promote r context
  unfolding auto_promote
  auto_promote_twice law r context = elim (Bool-cases (is_frozen r)) [
    | inl e ↦
        let same : auto_promote r context ≡ r = rw (e, auto_promote) refl in
        ap (λ x. auto_promote x context) same
    | inr e ↦ rw (auto_promote_lem law r context) (
        auto_promote_lem law (with_status r (earned r context)) context
        ∙ ap (with_status r) (earned_again law r context e))
  ]
