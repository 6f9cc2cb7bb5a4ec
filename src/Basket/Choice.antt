-- ===== src/Basket/Choice.antt =====
-- What `build` and `allocate` promise of the rows that they select and of their weights.
use crypto_trader_ver_9_alph.Prelude.{
  ℕ, ◌≤◌, ◌≡◌, refl, ap, subst, sym, ◌⊎◌, inl, inr, Bool, true, false, Option, List, [], ◌∷◌, map,
  String, length, length-map, ltb, if◌then◌else◌, All, arith, Bool-cases,
}
use crypto_trader_ver_9_alph.Prelude.Dict.{AreDistinct}
use crypto_trader_ver_9_alph.Prelude.Float.{FloatOps}
use crypto_trader_ver_9_alph.Prelude.Text.{TextOps}
use crypto_trader_ver_9_alph.Execution.Simulator.{Statistics}
use crypto_trader_ver_9_alph.Basket.{
  BasketRow, BasketOptimizer, id_of, symbol_of, new_optimizer, is_eligible,
}
use crypto_trader_ver_9_alph.Basket.Selection.{rows_of, select_rows}
use crypto_trader_ver_9_alph.Basket.Selection.Bounds.{select_rows-IsChoice, select_rows-symbols}
use crypto_trader_ver_9_alph.Basket.Weights.Signs.{SignLaws}
use crypto_trader_ver_9_alph.Basket.Weights.Caps.{AreWithin, build_weights-AreWithin}
use crypto_trader_ver_9_alph.Basket.Build.{
  BasketSelection, as_allocations, allocation_from_dict, basket_of, build, allocations_of,
  default_optimizer, allocate,
}

module _ {F : Type 0} ⦃o : FloatOps F⦄ ⦃t : TextOps⦄ (optimizer : BasketOptimizer F) where
  -- A basket has no row, or at least `min_positions` and at most `max_positions` of them, all
  -- eligible and no two for one strategy.
  pub record IsBasket (b : BasketSelection F) : Type 0 where
    pub size : b.basket_size ≡ length b.selected
    pub least : (b.selected ≡ []) ⊎ (optimizer.min_positions ≤ length b.selected)
    pub most : length b.selected ≤ optimizer.max_positions
    pub distinct : AreDistinct (map id_of b.selected)
    pub eligible : All (λ b. b ≡ true) (map is_eligible b.selected)

module _ {F : Type 0} ⦃o : FloatOps F⦄ ⦃t : TextOps⦄ (age_days : Option String → F)
    (statistics : Statistics F) where
  -- `build` gives no row, or at least `min_positions` and at most `max_positions` rows; all are
  -- eligible, no two have one identifier, and `basket_size` counts them, whatever the candidates
  -- are.
  pub build-IsBasket :
      (optimizer : BasketOptimizer F) (candidates : List (BasketRow F))
      → IsBasket optimizer (build age_days statistics optimizer candidates)
  unfolding build basket_of
  build-IsBasket optimizer candidates =
      let p = select_rows age_days optimizer candidates in
      let c = select_rows-IsChoice age_days optimizer candidates in
      elim (Bool-cases (ltb (length (rows_of p.selected)) optimizer.min_positions)) [
        | inl e ↦
            rw (e, basket_of)
              (record {
                size = refl;
                least = inl refl;
                most = omega arith;
                distinct = tt;
                eligible = tt;
              })
        | inr e ↦
            rw (e, basket_of)
              (record {
                size = refl;
                least = inr (ground arith);
                most = omega (arith, c.few, length-map (λ x. x.1) p.selected);
                distinct = subst AreDistinct c.ids c.distinct;
                eligible = c.eligible;
              })
      ]

  -- Where symbols are to be unique and there is no second pass, no two selected rows have one
  -- symbol.
  build-symbols :
      (optimizer : BasketOptimizer F) (candidates : List (BasketRow F))
      → optimizer.enforce_unique_symbols ≡ true
      → optimizer.soft_fill ≡ false
      → AreDistinct (map symbol_of (build age_days statistics optimizer candidates).selected)
  unfolding build basket_of
  build-symbols optimizer candidates u s =
      let p = select_rows age_days optimizer candidates in
      let c = select_rows-IsChoice age_days optimizer candidates in
      elim (Bool-cases (ltb (length (rows_of p.selected)) optimizer.min_positions)) [
        | inl e ↦ rw (e, basket_of) tt
        | inr e ↦
            rw (e, basket_of)
              (subst AreDistinct c.symbols (select_rows-symbols age_days optimizer candidates u s))
      ]

  -- No weight of a basket is above the cap that its telemetry gives for the identifier, whatever
  -- settings the optimizer was made with and whatever the candidates are, if the laws of signs
  -- hold.
  pub build-AreWithin :
      SignLaws F
      → (given : BasketOptimizer F) (candidates : List (BasketRow F))
      → AreWithin
          (new_optimizer given)
          (build age_days statistics
            (new_optimizer given)
            candidates).allocation_telemetry.allocation_caps
          (build age_days statistics (new_optimizer given) candidates).weights
  unfolding build basket_of
  build-AreWithin laws given candidates =
      let optimizer = new_optimizer given in
      let selected = rows_of (select_rows age_days optimizer candidates).selected in
      elim (Bool-cases (ltb (length selected) optimizer.min_positions)) [
        | inl e ↦ rw (e, basket_of) tt
        | inr e ↦
            rw (e, basket_of) (build_weights-AreWithin laws given age_days statistics selected)
      ]

  allocated_ids :
      (rejected : BasketSelection F) (selected : List (BasketRow F))
      → map
          (λ a. a.strategy_id)
          (map allocation_from_dict (as_allocations (record rejected { selected = selected })))
        ≡ map id_of selected
  unfolding as_allocations allocation_from_dict
  allocated_ids b [] = refl
  allocated_ids b (r ∷ rs) = ap (λ xs. id_of r ∷ xs) (allocated_ids b rs)

  -- `allocate` decides for at most `max(1, max_positions)` strategies and for none of them twice,
  -- whatever the candidates are.
  allocate_lem :
      (candidates : List (BasketRow F)) (max_positions min_positions : ℕ) (soft_fill : Bool)
      → let decisions =
          allocate age_days statistics candidates max_positions min_positions soft_fill in
        (length decisions ≤ (if ltb max_positions 1 then 1 else max_positions))
        × AreDistinct (map (λ a. a.strategy_id) decisions)
  unfolding allocate allocations_of new_optimizer
  allocate_lem candidates n m s =
      let optimizer = default_optimizer n m s in
      let b = build age_days statistics optimizer candidates in
      let c = build-IsBasket optimizer candidates in
      let ids = allocated_ids b b.selected in
      let decisions = map allocation_from_dict (as_allocations b) in
      (
        omega (
          arith,
          c.most,
          length-map (λ a. a.strategy_id) decisions,
          length-map id_of b.selected,
          ap length ids,
        ),
        subst AreDistinct (sym ids) c.distinct,
      )
