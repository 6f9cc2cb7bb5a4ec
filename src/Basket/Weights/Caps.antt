-- ===== src/Basket/Weights/Caps.antt =====
-- No weight is above its cap, in any round of the loop.
use crypto_trader_ver_9_alph.Prelude.{
  ℕ, zero, suc, ◌≡◌, inl, inr, false, List, [], ◌∷◌, ◌++◌, String, eq_iff, length, All, arith,
  Bool-cases, or_else, Option,
}
use crypto_trader_ver_9_alph.Prelude.Dict.{Dict, lookup, insert, insert-All}
use crypto_trader_ver_9_alph.Prelude.Float.{FloatOps, decimal, add, sub, mul, div, lt, le, max, min}
use crypto_trader_ver_9_alph.Prelude.Text.{TextOps}
use crypto_trader_ver_9_alph.Execution.Simulator.{Statistics}
use crypto_trader_ver_9_alph.Basket.{
  BasketRow, BasketOptimizer, id_of, to_float, zero_float, one_float, new_optimizer,
}
use crypto_trader_ver_9_alph.Basket.Weights.Signs.{SignLaws, max-sign, min-cap, cap-min, max-cap}
use crypto_trader_ver_9_alph.Basket.Weights.{
  Round, row_cap, caps_from, allocation_caps, cap_in, clip_from, shared_ids, share_overflow,
  trim_family, trim_families, give_excess, tolerance, settle, normalized_scores, raw_scores,
  build_weights,
}

module _ {F : Type 0} ⦃o : FloatOps F⦄ (optimizer : BasketOptimizer F) where
  -- No weight of a dictionary is above its cap.
  abbrev pub AreWithin : Dict F → Dict F → Type 0
  AreWithin caps weights = All (λ x. lt (cap_in optimizer caps (x.0)) (x.1) ≡ false) weights

module _ {F : Type 0} ⦃o : FloatOps F⦄ (laws : SignLaws F) where
  module _ ⦃t : TextOps⦄ (optimizer : BasketOptimizer F) where
    -- The cap of a row is not below 0 where the floor is not.
    row_cap-sign :
        (selected : List (BasketRow F)) (r : BasketRow F)
        → lt optimizer.min_cap_floor zero_float ≡ false
        → lt (row_cap optimizer selected r) zero_float ≡ false
    unfolding row_cap
    row_cap-sign selected r h = laws.mul_sign _ _ (max-sign laws optimizer.min_cap_floor _ h) (
        max-sign laws zero_float (min one_float (to_float r.capital_multiplier one_float))
          (laws.order.lt_irrefl zero_float))

    -- No cap of a dictionary is below 0.
    abbrev AreCaps : Dict F → Type 0
    AreCaps caps = All (λ x. lt (x.1) zero_float ≡ false) caps

    cap_in-sign :
        (caps : Dict F) (id : String)
        → lt optimizer.max_strategy_weight zero_float ≡ false
        → AreCaps caps
        → lt (cap_in optimizer caps id) zero_float ≡ false
    unfolding lookup
    cap_in-sign [] id h c = h
    cap_in-sign ((j, v) ∷ caps) id h c = ground (arith, cap_in-sign caps id h c.1)

    caps_from-AreCaps :
        (selected rs : List (BasketRow F)) (caps : Dict F)
        → lt optimizer.min_cap_floor zero_float ≡ false
        → AreCaps caps
        → AreCaps (caps_from optimizer selected rs caps)
    unfolding caps_from
    caps_from-AreCaps selected [] caps h c = c
    caps_from-AreCaps selected (r ∷ rs) caps h c =
        caps_from-AreCaps selected rs (insert (id_of r) (row_cap optimizer selected r) caps) h (
          insert-All (λ x. lt (x.1) zero_float ≡ false) (id_of r) (row_cap optimizer selected r)
            caps (row_cap-sign selected r h) c)

    AreWithin-snoc :
        (caps weights : Dict F) (id : String) (w : F)
        → AreWithin optimizer caps weights
        → lt (cap_in optimizer caps id) w ≡ false
        → AreWithin optimizer caps (weights ++ (id, w) ∷ [])
    AreWithin-snoc caps [] id w h q = (q, tt)
    AreWithin-snoc caps (x ∷ weights) id w h q = (h.0, AreWithin-snoc caps weights id w h.1 q)

    clip_from-AreWithin :
        (selected : List (BasketRow F)) (caps entries : Dict F) (x : Round F)
        → AreWithin optimizer caps x.weights
        → AreWithin optimizer caps (clip_from optimizer selected caps entries x).weights
    unfolding clip_from
    clip_from-AreWithin selected caps [] x h = h
    clip_from-AreWithin selected caps ((id, w) ∷ entries) x h =
        clip_from-AreWithin selected caps entries _ (
          AreWithin-snoc caps x.weights id (min w (cap_in optimizer caps id)) h
            (min-cap laws (cap_in optimizer caps id) w))

    lookup-AreWithin :
        (caps weights : Dict F) (id : String)
        → lt (cap_in optimizer caps id) zero_float ≡ false
        → AreWithin optimizer caps weights
        → lt (cap_in optimizer caps id) (or_else (lookup id weights) zero_float) ≡ false
    unfolding lookup
    lookup-AreWithin caps [] id c h = c
    lookup-AreWithin caps ((j, w) ∷ weights) id c h =
        ground (arith, eq_iff j id, lookup-AreWithin caps weights id c h.1)

    share_overflow-AreWithin :
        (caps : Dict F) (ids : List String) (per : F) (x : Round F)
        → lt optimizer.max_strategy_weight zero_float ≡ false
        → AreCaps caps
        → lt per zero_float ≡ false
        → AreWithin optimizer caps x.weights
        → AreWithin optimizer caps (share_overflow ids per x).weights
    unfolding share_overflow
    share_overflow-AreWithin caps [] per x m c p h = h
    share_overflow-AreWithin caps (id ∷ ids) per x m c p h =
        let s = cap_in-sign caps id m c in
        let w = or_else (lookup id x.weights) zero_float in
        let below = max-cap laws (cap_in optimizer caps id) (sub w per) s (
          laws.sub_le (cap_in optimizer caps id) w per (lookup-AreWithin caps x.weights id s h)
            p) in
        share_overflow-AreWithin caps ids per _ m c p (
          insert-All (λ x. lt (cap_in optimizer caps (x.0)) (x.1) ≡ false) id
            (max zero_float (sub w per)) x.weights below h)

    trim_family-AreWithin :
        (caps : Dict F) (ids : List String) (overflow : F) (x : Round F)
        → lt optimizer.max_strategy_weight zero_float ≡ false
        → AreCaps caps
        → lt overflow zero_float ≡ false
        → AreWithin optimizer caps x.weights
        → AreWithin optimizer caps (trim_family ids overflow x).weights
    unfolding trim_family
    trim_family-AreWithin caps [] overflow x m c p h = h
    trim_family-AreWithin caps (id ∷ ids) overflow x m c p h =
        share_overflow-AreWithin caps (id ∷ ids) (div overflow (decimal (length (id ∷ ids)) 0))
          (record x { excess = add x.excess overflow }) m c (laws.div_sign overflow (length ids) p)
          h

    trim_families-AreWithin :
        (selected : List (BasketRow F)) (caps totals : Dict F) (x : Round F)
        → lt optimizer.max_strategy_weight zero_float ≡ false
        → AreCaps caps
        → AreWithin optimizer caps x.weights
        → AreWithin optimizer caps (trim_families optimizer selected totals x).weights
    unfolding trim_families
    trim_families-AreWithin selected caps [] x m c h = h
    trim_families-AreWithin selected caps ((family, total) ∷ totals) x m c h =
        elim (Bool-cases (lt optimizer.max_family_weight total)) [
          | inr e ↦ rw (e, trim_families) (trim_families-AreWithin selected caps totals x m c h)
          | inl e ↦
              rw (e, trim_families)
                (trim_families-AreWithin selected caps totals
                  (trim_family (shared_ids optimizer selected family)
                    (sub total optimizer.max_family_weight) x)
                  m c
                  (trim_family-AreWithin caps (shared_ids optimizer selected family)
                    (sub total optimizer.max_family_weight) x m c
                    (laws.sub_sign total optimizer.max_family_weight e) h))
        ]

    give_excess-AreWithin :
        (caps : Dict F) (excess room_total : F) (rooms weights : Dict F)
        → AreWithin optimizer caps weights
        → AreWithin optimizer caps (give_excess optimizer caps excess room_total rooms weights)
    unfolding give_excess
    give_excess-AreWithin caps excess room_total [] weights h = h
    give_excess-AreWithin caps excess room_total ((id, room) ∷ rooms) weights h =
        elim (Bool-cases (le room zero_float)) [
          | inl e ↦
              rw (e, give_excess) (give_excess-AreWithin caps excess room_total rooms weights h)
          | inr e ↦
              rw (e, give_excess)
                (give_excess-AreWithin caps excess room_total rooms _ (
                  insert-All (λ x. lt (cap_in optimizer caps (x.0)) (x.1) ≡ false) id
                    (min (cap_in optimizer caps id) (
                      add (or_else (lookup id weights) zero_float)
                        (mul excess (div room room_total))))
                    weights (cap-min laws (cap_in optimizer caps id) _) h))
        ]

    -- A round leaves every weight within its cap, whatever the weights were before it.
    round-AreWithin :
        (n : ℕ) (selected : List (BasketRow F)) (caps weights : Dict F)
        → lt optimizer.max_strategy_weight zero_float ≡ false
        → AreCaps caps
        → ((next : Dict F)
            → AreWithin optimizer caps next
            → AreWithin optimizer caps (settle optimizer n selected caps next))
        → AreWithin optimizer caps (settle optimizer (suc n) selected caps weights)
    unfolding settle
    round-AreWithin n selected caps weights m c k =
        let start : Round F = record {
          weights = [];
          excess = zero_float;
          room_total = zero_float;
          room_map = [];
          family_totals = [];
        } in
        let clipped = clip_from optimizer selected caps weights start in
        let x = trim_families optimizer selected clipped.family_totals clipped in
        let within =
          trim_families-AreWithin selected caps clipped.family_totals clipped m c
            (clip_from-AreWithin selected caps weights start tt) in
        elim (Bool-cases (le x.excess tolerance)) [
          | inl e ↦ rw (e, settle) within
          | inr e ↦ elim (Bool-cases (le x.room_total tolerance)) [
            | inl q ↦ rw (e, settle) rw (q, settle) within
            | inr q ↦
                rw (e, settle) rw (q, settle)
                  (k (give_excess optimizer caps x.excess x.room_total x.room_map x.weights)
                    (give_excess-AreWithin caps x.excess x.room_total x.room_map x.weights within))
          ]
        ]

    settle-AreWithin :
        (n : ℕ) (selected : List (BasketRow F)) (caps weights : Dict F)
        → lt optimizer.max_strategy_weight zero_float ≡ false
        → AreCaps caps
        → AreWithin optimizer caps weights
        → AreWithin optimizer caps (settle optimizer n selected caps weights)
    unfolding settle
    settle-AreWithin zero selected caps weights m c h = h
    settle-AreWithin (suc n) selected caps weights m c h =
        round-AreWithin n selected caps weights m c
          (λ next q. settle-AreWithin n selected caps next m c q)

  -- No weight that an optimizer builds is above the cap that the telemetry gives for its
  -- identifier, whatever settings the optimizer was made with and whatever rows were selected, if
  -- the laws of signs hold.
  pub build_weights-AreWithin :
      ⦃t : TextOps⦄ (given : BasketOptimizer F) (age_days : Option String → F)
      (statistics : Statistics F) (selected : List (BasketRow F))
      → AreWithin
          (new_optimizer given)
          (build_weights (new_optimizer given) age_days statistics selected).1.allocation_caps
          (build_weights (new_optimizer given) age_days statistics selected).0
  unfolding build_weights allocation_caps caps_from new_optimizer
  build_weights-AreWithin given age_days statistics [] = tt
  build_weights-AreWithin given age_days statistics (r ∷ rs) =
      let optimizer = new_optimizer given in
      let caps = allocation_caps optimizer (r ∷ rs) in
      let sign = laws.order.lt_irrefl zero_float in
      let m = max-sign laws zero_float (min one_float given.max_strategy_weight) sign in
      let f = max-sign laws zero_float (min one_float given.min_cap_floor) sign in
      let c = caps_from-AreCaps optimizer (r ∷ rs) (r ∷ rs) [] f tt in
      round-AreWithin optimizer 9 (r ∷ rs) caps
        (normalized_scores optimizer age_days statistics
          (raw_scores optimizer age_days statistics (r ∷ rs) []))
        m c (λ next q. settle-AreWithin optimizer 9 (r ∷ rs) caps next m c q)
