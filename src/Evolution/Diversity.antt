-- ===== src/Evolution/Diversity.antt =====
-- ver9/diversity.py: the filters by status, the diversity report and the penalties of a candidate
-- against a selection. A status to filter by is taken in lower case. Candidates are records; a row
-- that is none is not modelled.
pub mod Counters
mod Tests
use crypto_trader_ver_9_alph.Prelude.{
  ℕ, Bool, Option, none, some, List, [], ◌∷◌, map, String, length, or_else, select, str_eq,
  if◌then◌else◌,
}
use crypto_trader_ver_9_alph.Prelude.Dict.{Dict, mem, keys}
use crypto_trader_ver_9_alph.Prelude.Float.{FloatOps, decimal, neg, add, mul, div, round, abs}
use crypto_trader_ver_9_alph.Prelude.Text.{TextOps, lower, lower_all}
use crypto_trader_ver_9_alph.Lifecycle.{text_or, symbol_root}
use crypto_trader_ver_9_alph.Basket.{BasketRow}
use crypto_trader_ver_9_alph.Evolution.Tuner.{counts_from}

pub record DiversityReport (F : Type 0) : Type 0 where
  pub total_candidates : ℕ
  pub unique_symbols : ℕ
  pub unique_families : ℕ
  pub unique_regimes : ℕ
  pub symbol_counts : Dict ℕ
  pub family_counts : Dict ℕ
  pub regime_counts : Dict ℕ
  pub status_counts : Dict ℕ
  pub diversity_score : F
  pub scope : String
  pub status_filter : Option String

abbrev pub basket_state_statuses : List String
basket_state_statuses = "validated" ∷ "probationary" ∷ "deployable" ∷ "live" ∷ []

-- `{status}` if there is one, else the statuses of a basket
abbrev pub allowed_or : ⦃t : TextOps⦄ → Option String → List String
allowed_or none = basket_state_statuses
allowed_or (some s) = if str_eq s "" then basket_state_statuses else lower s ∷ []

abbrev pub allowed_statuses : ⦃t : TextOps⦄ → Option String → List String → List String
allowed_statuses status [] = allowed_or status
allowed_statuses status (s ∷ statuses) = lower_all (s ∷ statuses)

module _ {F : Type 0} ⦃t : TextOps⦄ where
  abbrev pub root_name : BasketRow F → String
  root_name r = symbol_root (text_or "" r.symbol)

  abbrev pub family_name : BasketRow F → String
  family_name r = lower (text_or "unknown" r.family)

  abbrev pub regime_name : BasketRow F → String
  regime_name r = lower (text_or "adaptive" r.regime)

  abbrev pub has_status : List String → BasketRow F → Bool
  has_status allowed r = mem (lower (text_or "" r.status)) allowed

  unfoldable pub filter_basket_state_candidates : List (BasketRow F) → List (BasketRow F)
  filter_basket_state_candidates = select (has_status basket_state_statuses)

  unfoldable pub filter_candidates_by_status :
      Option String → List String → List (BasketRow F) → List (BasketRow F)
  filter_candidates_by_status status statuses =
      select (has_status (allowed_statuses status statuses))

  -- `Counter(...)`
  unfoldable pub counter : (BasketRow F → String) → List (BasketRow F) → Dict ℕ
  counter name rows = counts_from (map name rows) []

  -- `len` of the set of names
  abbrev pub distinct : (BasketRow F → String) → List (BasketRow F) → ℕ
  distinct name rows = length (keys (counter name rows))

  module _ ⦃o : FloatOps F⦄ where
    unfoldable pub basket_diversity_score : List (BasketRow F) → F
    basket_diversity_score [] = decimal 0 1
    basket_diversity_score (r ∷ rows) =
        round
          (div
            (add
              (add (mul (decimal (distinct root_name (r ∷ rows)) 0) (decimal 14 1))
                (mul (decimal (distinct family_name (r ∷ rows)) 0) (decimal 11 1)))
              (mul (decimal (distinct regime_name (r ∷ rows)) 0) (decimal 9 1)))
            (decimal (length (r ∷ rows)) 0))
          4

    unfoldable pub diversity_report :
        String → Option String → List String → List (BasketRow F) → DiversityReport F
    diversity_report scope status statuses candidates =
        let rows : List (BasketRow F) =
          if str_eq scope "basket"
          then filter_candidates_by_status status statuses candidates
          else candidates in
        record {
          total_candidates = length rows;
          unique_symbols = distinct root_name rows;
          unique_families = distinct family_name rows;
          unique_regimes = distinct regime_name rows;
          symbol_counts = counter root_name rows;
          family_counts = counter family_name rows;
          regime_counts = counter regime_name rows;
          status_counts = counter (λ r. lower (text_or "unknown" r.status)) rows;
          diversity_score = basket_diversity_score rows;
          scope = scope;
          status_filter = status;
        }

    unfoldable pub symbol_diversity_bonus : BasketRow F → List (BasketRow F) → F
    symbol_diversity_bonus r [] = decimal 25 2
    symbol_diversity_bonus r (x ∷ selected) =
        if mem (root_name r) (map root_name (x ∷ selected)) then neg (decimal 15 2) else decimal 4 1

    -- `sum(1 for row in selected if ... == ...)`
    abbrev pub overlap : (BasketRow F → String) → BasketRow F → List (BasketRow F) → ℕ
    overlap name r selected = length (select (λ x. str_eq (name x) (name r)) selected)

    unfoldable pub family_overlap_penalty : BasketRow F → List (BasketRow F) → F
    family_overlap_penalty r selected =
        round (mul (decimal (overlap family_name r selected) 0) (decimal 35 2)) 4

    unfoldable pub regime_overlap_penalty : BasketRow F → List (BasketRow F) → F
    regime_overlap_penalty r selected =
        round (mul (decimal (overlap regime_name r selected) 0) (decimal 25 2)) 4

    abbrev pub hint : BasketRow F → F
    hint r = abs (or_else r.correlation_hint (decimal 0 1))

    abbrev pub add_hints : F → List (BasketRow F) → F
    add_hints penalty [] = penalty
    add_hints penalty (r ∷ rows) = add_hints (add penalty (mul (hint r) (decimal 15 2))) rows

    unfoldable pub correlation_penalty : BasketRow F → List (BasketRow F) → F
    correlation_penalty r selected = round (add_hints (mul (hint r) (decimal 25 2)) selected) 4

    unfoldable pub combined_diversity_penalty : BasketRow F → List (BasketRow F) → F
    combined_diversity_penalty r selected =
        round
          (add (add (family_overlap_penalty r selected) (regime_overlap_penalty r selected))
            (correlation_penalty r selected))
          4
