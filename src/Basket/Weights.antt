-- ===== src/Basket/Weights.antt =====
-- ver9/basket_optimizer.py: the weights of a selection, `_allocation_caps` and `_build_weights`.
-- The sum of numbers is a parameter. A dictionary that the loop updates in place keeps its order.
pub mod Signs
pub mod Caps
use crypto_trader_ver_9_alph.Prelude.{
  ℕ, zero, suc, ◌+◌, Option, List, [], ◌∷◌, ◌++◌, map, String, length, or_else, str_eq, select,
  if◌then◌else◌,
}
use crypto_trader_ver_9_alph.Prelude.Dict.{Dict, lookup, insert, values, keys}
use crypto_trader_ver_9_alph.Prelude.Float.{
  FloatOps, decimal, add, sub, mul, div, lt, le, round, abs, max, min,
}
use crypto_trader_ver_9_alph.Prelude.Text.{TextOps}
use crypto_trader_ver_9_alph.Execution.Simulator.{Statistics}
use crypto_trader_ver_9_alph.Basket.{
  BasketRow, BasketOptimizer, id_of, symbol_of, family_of, to_float, zero_float, one_float, clamp,
  freshness_multiplier, execution_quality,
}

-- How often a text stands in a list (`Counter`).
abbrev pub count_of : String → List String → ℕ
count_of x [] = 0
count_of x (y ∷ ys) = (if str_eq y x then 1 else 0) + count_of x ys

abbrev pub at_least_one : ℕ → ℕ
at_least_one zero = 1
at_least_one (suc n) = suc n

-- The variables of a round of the loop.
pub record Round (F : Type 0) : Type 0 where
  pub weights : Dict F
  pub excess : F
  pub room_total : F
  pub room_map : Dict F
  pub family_totals : Dict F

pub record Telemetry (F : Type 0) : Type 0 where
  pub allocation_caps : Dict F
  pub cash_weight : F
  pub raw_weight_sum : F
  pub used_weight_sum : F
  pub covariance_penalty : F

module _ {F : Type 0} ⦃o : FloatOps F⦄ where
  abbrev pub tolerance : F
  tolerance = decimal 1 9

  -- `caps.get(strategy_id, self.max_strategy_weight)`
  abbrev pub cap_in : BasketOptimizer F → Dict F → String → F
  cap_in optimizer caps id = or_else (lookup id caps) optimizer.max_strategy_weight

  -- `for sid in shared`
  unfoldable pub share_overflow : List String → F → Round F → Round F
  share_overflow [] per x = x
  share_overflow (id ∷ ids) per x = share_overflow ids per (record x {
    weights =
        insert id (max zero_float (sub (or_else (lookup id x.weights) zero_float) per)) x.weights;
    room_map =
        insert id (max zero_float (add (or_else (lookup id x.room_map) zero_float) per)) x.room_map;
  })

  -- the body of the second loop, for a family above its cap
  unfoldable pub trim_family : List String → F → Round F → Round F
  trim_family [] overflow x = record x { excess = add x.excess overflow }
  trim_family (id ∷ ids) overflow x =
      let y : Round F = record x { excess = add x.excess overflow } in
      let per = div overflow (decimal (length (id ∷ ids)) 0) in
      let z = share_overflow (id ∷ ids) per y in record z { room_total = add z.room_total overflow }

module _ {F : Type 0} ⦃o : FloatOps F⦄ ⦃t : TextOps⦄ (optimizer : BasketOptimizer F) where
  -- the cap of a row among the selected ones
  unfoldable pub row_cap : List (BasketRow F) → BasketRow F → F
  row_cap selected r =
      let symbols = count_of (symbol_of r) (map symbol_of selected) in
      let families = count_of (family_of r) (map family_of selected) in
      let symbol_cap = div optimizer.max_symbol_weight (decimal (at_least_one symbols) 0) in
      let family_cap = div optimizer.max_family_weight (decimal (at_least_one families) 0) in
      let raw_cap = min (min optimizer.max_strategy_weight symbol_cap) family_cap in
      mul (max optimizer.min_cap_floor raw_cap) (clamp (to_float r.capital_multiplier one_float))

  unfoldable pub caps_from : List (BasketRow F) → List (BasketRow F) → Dict F → Dict F
  caps_from selected [] caps = caps
  caps_from selected (r ∷ rs) caps =
      caps_from selected rs (insert (id_of r) (row_cap selected r) caps)

  unfoldable pub allocation_caps : List (BasketRow F) → Dict F
  allocation_caps selected = caps_from selected selected []

  -- the family of the row that `selected_lookup` has for an identifier: the last one
  abbrev pub family_in : List (BasketRow F) → String → String → String
  family_in [] id family = family
  family_in (r ∷ rs) id family =
      family_in rs id (if str_eq (id_of r) id then family_of r else family)

  -- the first loop of a round: the weights of the entries are clipped to the caps
  unfoldable pub clip_from : List (BasketRow F) → Dict F → Dict F → Round F → Round F
  clip_from selected caps [] x = x
  clip_from selected caps ((id, current) ∷ entries) x =
      let family = family_in selected id "unknown" in
      let cap = cap_in optimizer caps id in
      let clipped = min current cap in
      let room = max zero_float (sub cap clipped) in
      clip_from selected caps entries (record {
        weights = x.weights ++ (id, clipped) ∷ [];
        excess = add x.excess (sub current clipped);
        room_total = add x.room_total room;
        room_map = insert id room x.room_map;
        family_totals =
            insert family (add (or_else (lookup family x.family_totals) zero_float) clipped)
              x.family_totals;
      })

  -- `selected_lookup`: the identifiers, each once, in the order of their first row
  abbrev pub lookup_ids : List (BasketRow F) → Dict String → Dict String
  lookup_ids [] d = d
  lookup_ids (r ∷ rs) d = lookup_ids rs (insert (id_of r) (family_of r) d)

  abbrev pub shared_ids : List (BasketRow F) → String → List String
  shared_ids selected family = keys (select (λ x. str_eq (x.1) family) (lookup_ids selected []))

  -- the second loop: the overflow of each family is taken from its rows
  unfoldable pub trim_families : List (BasketRow F) → Dict F → Round F → Round F
  trim_families selected [] x = x
  trim_families selected ((family, total) ∷ totals) x = trim_families selected totals (
      if lt optimizer.max_family_weight total
      then trim_family (shared_ids selected family) (sub total optimizer.max_family_weight) x
      else x)

  -- the third loop: the excess goes where there is room
  unfoldable pub give_excess : Dict F → F → F → Dict F → Dict F → Dict F
  give_excess caps excess room_total [] weights = weights
  give_excess caps excess room_total ((id, room) ∷ rooms) weights =
      give_excess caps excess room_total rooms (
        if le room zero_float
        then weights
        else insert id
            (min (cap_in optimizer caps id)
              (add (or_else (lookup id weights) zero_float) (mul excess (div room room_total))))
            weights)

  -- `for _ in range(10)`, with the rounds left
  unfoldable pub settle : ℕ → List (BasketRow F) → Dict F → Dict F → Dict F
  settle zero selected caps weights = weights
  settle (suc n) selected caps weights =
      let clipped = clip_from selected caps weights (record {
        weights = [];
        excess = zero_float;
        room_total = zero_float;
        room_map = [];
        family_totals = [];
      }) in
      let x = trim_families selected clipped.family_totals clipped in
      let rest =
        settle n selected caps (give_excess caps x.excess x.room_total x.room_map x.weights) in
      if le x.excess tolerance
      then x.weights
      else if le x.room_total tolerance
      then x.weights
      else rest

  module _ (age_days : Option String → F) (statistics : Statistics F) where
    unfoldable pub raw_score : BasketRow F → F
    raw_score r =
        let base = max (to_float r.basket_score zero_float) zero_float in
        let pair = max (to_float r.pair_penalty zero_float) zero_float in
        let hint = abs (to_float r.correlation_hint zero_float) in
        mul
          (mul (div base (add one_float (mul optimizer.correlation_penalty_scale (add pair hint))))
            (execution_quality age_days r))
          (freshness_multiplier age_days r.updated_at)

    abbrev pub raw_scores : List (BasketRow F) → Dict F → Dict F
    raw_scores [] d = d
    raw_scores (r ∷ rs) d = raw_scores rs (insert (id_of r) (raw_score r) d)

    unfoldable pub normalized_scores : Dict F → Dict F
    normalized_scores raw =
        let total = statistics.total (values raw) in
        map
          (λ x. (
            x.0,
            if lt zero_float total then div (x.1) total else div one_float (decimal (length raw) 0),
          ))
          raw

    abbrev pub covariance_of : BasketRow F → F
    covariance_of r =
        max (to_float r.pair_penalty zero_float) (abs (to_float r.correlation_hint zero_float))

    unfoldable pub build_weights : List (BasketRow F) → Dict F × Telemetry F
    build_weights [] = (
      [],
      record {
        allocation_caps = [];
        cash_weight = one_float;
        raw_weight_sum = zero_float;
        used_weight_sum = zero_float;
        covariance_penalty = zero_float;
      },
    )
    build_weights (r ∷ rs) =
        let selected = r ∷ rs in
        let normalized = normalized_scores (raw_scores selected []) in
        let caps = allocation_caps selected in
        let weights = settle 10 selected caps normalized in
        let used = statistics.total (values weights) in
        (
          weights,
          record {
            allocation_caps = caps;
            cash_weight = round (max zero_float (sub one_float used)) 6;
            raw_weight_sum = round (statistics.total (values normalized)) 6;
            used_weight_sum = round used 6;
            covariance_penalty = round (statistics.total (map covariance_of selected)) 6;
          },
        )
