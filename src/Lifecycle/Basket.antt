-- ===== src/Lifecycle/Basket.antt =====
-- ver9/lifecycle.py: the context of a basket, the two gates and the automatic promotion.
use crypto_trader_ver_9_alph.Prelude.{
  ℕ, ◌==◌, Bool, true, false, ◌&&◌, ◌||◌, not, Option, none, some, List, [], String, or_else,
  str_eq, if◌then◌else◌,
}
use crypto_trader_ver_9_alph.Prelude.Dict.{Dict, keys, mem}
use crypto_trader_ver_9_alph.Prelude.Float.{FloatOps, decimal, neg, add, lt, le, round}
use crypto_trader_ver_9_alph.Prelude.Text.{TextOps, lower, upper_all, lower_all}
use crypto_trader_ver_9_alph.Lifecycle.{Candidate, text_or, symbol_root, current_status}

pub record BasketContext (F : Type 0) : Type 0 where
  pub selected_count : Option ℕ
  pub max_positions : Option ℕ
  pub diversity_score : Option F
  pub symbol_counts : Option (Dict ℕ)
  pub family_counts : Option (Dict ℕ)
  pub regime_counts : Option (Dict ℕ)
  pub candidate_symbol_root : Option String
  pub candidate_family : Option String
  pub candidate_regime : Option String

-- `x not in xs`
abbrev pub is_new : Option String → List String → Bool
is_new x xs = not (mem (or_else x "") xs)

module _ {F : Type 0} ⦃o : FloatOps F⦄ where
  -- `_as_float(value, 0.0)`
  abbrev pub as_float : Option F → F
  as_float v = or_else v (decimal 0 0)

  abbrev pub min_validation_score : F
  min_validation_score = decimal 55 2

  abbrev pub min_robustness_validated : F
  min_robustness_validated = decimal 75 2

  abbrev pub min_robustness_probationary : F
  min_robustness_probationary = decimal 82 2

  abbrev pub min_robustness_deployable : F
  min_robustness_deployable = decimal 90 2

  abbrev pub min_profit_factor_validated : F
  min_profit_factor_validated = decimal 18 1

  abbrev pub min_profit_factor_probationary : F
  min_profit_factor_probationary = decimal 19 1

  abbrev pub min_profit_factor_deployable : F
  min_profit_factor_deployable = decimal 22 1

  abbrev pub max_drawdown_validated : F
  max_drawdown_validated = neg (decimal 100 1)

  abbrev pub max_drawdown_probationary : F
  max_drawdown_probationary = neg (decimal 85 1)

  abbrev pub max_drawdown_deployable : F
  max_drawdown_deployable = neg (decimal 60 1)

  abbrev pub min_basket_diversity : F
  min_basket_diversity = decimal 10 1

  abbrev pub min_basket_diversity_deployable : F
  min_basket_diversity_deployable = decimal 115 2

  module _ ⦃t : TextOps⦄ where
    unfoldable pub basket_context : Candidate F → Option (BasketContext F) → BasketContext F
    basket_context r none = record {
      selected_count = some 0;
      max_positions = some 0;
      diversity_score = some (decimal 0 0);
      symbol_counts = some [];
      family_counts = some [];
      regime_counts = some [];
      candidate_symbol_root = some (symbol_root (text_or "" r.symbol));
      candidate_family = some (lower (text_or "unknown" r.family));
      candidate_regime = some (lower (text_or "adaptive" r.regime));
    }
    basket_context r (some c) = record {
      selected_count = some (or_else c.selected_count 0);
      max_positions = some (or_else c.max_positions 0);
      diversity_score = some (or_else c.diversity_score (decimal 0 0));
      symbol_counts = some (or_else c.symbol_counts []);
      family_counts = some (or_else c.family_counts []);
      regime_counts = some (or_else c.regime_counts []);
      candidate_symbol_root = some (symbol_root (text_or "" r.symbol));
      candidate_family = some (lower (text_or "unknown" r.family));
      candidate_regime = some (lower (text_or "adaptive" r.regime));
    }

    -- `novelty += bonus` under a condition
    abbrev pub bonus : Bool → F → F → F
    bonus b x novelty = if b then add novelty x else novelty

    unfoldable pub basket_novelty_score : Candidate F → Option (BasketContext F) → F
    basket_novelty_score r context =
        let c = basket_context r context in
        round
          (bonus (le min_basket_diversity (as_float c.diversity_score)) (decimal 1 1) (
            bonus (is_new c.candidate_regime (lower_all (keys (or_else c.regime_counts []))))
              (decimal 1 1)
              (bonus (is_new c.candidate_family (lower_all (keys (or_else c.family_counts []))))
                (decimal 2 1)
                (bonus
                  (is_new c.candidate_symbol_root (upper_all (keys (or_else c.symbol_counts []))))
                  (decimal 4 1) (decimal 0 0)))))
          4

    -- the checks of the record that the two gates share, at the gate's thresholds
    abbrev pub meets : F → F → F → Candidate F → Bool
    meets robustness profit_factor drawdown r =
        if not r.validation_passed && lt (as_float r.validation_score) min_validation_score
        then false
        else if lt (as_float r.robustness_score) robustness
        then false
        else if lt (as_float r.profit_factor) profit_factor
        then false
        else not (lt (as_float r.max_drawdown_pct) drawdown)

    abbrev pub is_first : BasketContext F → Bool
    is_first c = elim c.selected_count [ none ↦ false | some n ↦ n == 0 ]

    unfoldable pub can_enter_probationary_basket : Candidate F → Option (BasketContext F) → Bool
    can_enter_probationary_basket r context =
        if str_eq (current_status r) "quarantined"
        then false
        else if meets min_robustness_probationary min_profit_factor_probationary
            max_drawdown_probationary r
        then (let c = basket_context r context in
            if is_first c then true else le (decimal 3 1) (basket_novelty_score r (some c)))
        else false

    unfoldable pub can_enter_deployable_basket : Candidate F → Option (BasketContext F) → Bool
    can_enter_deployable_basket r context =
        if meets min_robustness_deployable min_profit_factor_deployable max_drawdown_deployable r
        then (let c = basket_context r context in
            if is_first c
            then true
            else le (decimal 45 2) (basket_novelty_score r (some c))
              && le min_basket_diversity_deployable (as_float c.diversity_score))
        else false

    abbrev pub is_validated : Candidate F → Bool
    is_validated r =
        r.validation_passed
        && le min_validation_score (as_float r.validation_score)
        && le min_robustness_validated (as_float r.robustness_score)
        && le min_profit_factor_validated (as_float r.profit_factor)
        && le max_drawdown_validated (as_float r.max_drawdown_pct)

    abbrev pub promote_if : Bool → String → Candidate F → Candidate F
    promote_if b status r = if b then record r { status = some status } else r

    unfoldable pub auto_promote : Candidate F → Option (BasketContext F) → Candidate F
    auto_promote r context =
        if str_eq (current_status r) "live" || str_eq (current_status r) "quarantined"
        then r
        else (let basket_ready = some (basket_context r context) in
            let validated = promote_if (is_validated r) "validated" r in
            let probationary =
              promote_if (can_enter_probationary_basket validated basket_ready) "probationary"
                validated in
            promote_if (can_enter_deployable_basket probationary basket_ready) "deployable"
              probationary)
