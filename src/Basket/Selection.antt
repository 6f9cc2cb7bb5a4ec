-- ===== src/Basket/Selection.antt =====
-- ver9/basket_optimizer.py: the greedy selection of `build`. The rows are Python objects that the
-- list of the ranked rows, the selection and the second pass share, so each carries a number that
-- stands for its identity, and what `consider` writes to a row shows in the selection too.
pub mod Bounds
use crypto_trader_ver_9_alph.Prelude.{
  ℕ, ◌+◌, ◌==◌, Bool, true, false, ◌&&◌, not, Option, none, some, List, [], ◌∷◌, ◌++◌, map, String,
  length, ltb, leb, select, if◌then◌else◌,
}
use crypto_trader_ver_9_alph.Prelude.Dict.{mem}
use crypto_trader_ver_9_alph.Prelude.Float.{FloatOps, add, sub, lt, round}
use crypto_trader_ver_9_alph.Prelude.Text.{TextOps}
use crypto_trader_ver_9_alph.Basket.{
  BasketRow, BasketOptimizer, id_of, symbol_of, family_of, zero_float, is_eligible, score_of,
  pair_penalty_of, diversity_bonus_of,
}

pub record Rejection : Type 0 where
  pub strategy_id : String
  pub reason : String

-- A row with its identity.
abbrev pub Shared : Type 0 → Type 0
Shared F = ℕ × BasketRow F

-- The variables that `consider` writes; the sets are lists.
pub record Picks (F : Type 0) : Type 0 where
  pub selected : List (Shared F)
  pub rejected : List Rejection
  pub selected_ids : List String
  pub selected_symbols : List String
  pub selected_families : List String

abbrev pub no_picks : {F : Type 0} → Picks F
no_picks = record {
  selected = [];
  rejected = [];
  selected_ids = [];
  selected_symbols = [];
  selected_families = [];
}

abbrev pub rows_of : {F : Type 0} → List (Shared F) → List (BasketRow F)
rows_of = map (λ x. x.1)

abbrev pub number_from : {A : Type 0} → ℕ → List A → List (ℕ × A)
number_from n [] = []
number_from n (x ∷ xs) = (n, x) ∷ number_from (n + 1) xs

-- The four scores that `consider` computes.
pub record Scores (F : Type 0) : Type 0 where
  pub candidate : F
  pub diversity : F
  pub pair : F
  pub basket : F

module _ {F : Type 0} where
  abbrev pub write_scores : Scores F → BasketRow F → BasketRow F
  write_scores x r = record r {
    candidate_score = some x.candidate;
    basket_score = some x.basket;
    diversity_bonus = some x.diversity;
    pair_penalty = some x.pair;
  }

  -- what a write to the row of some identity does to a list that may hold it
  abbrev pub rescore : ℕ → Scores F → List (Shared F) → List (Shared F)
  rescore k x [] = []
  rescore k x ((j, r) ∷ rs) = (j, if j == k then write_scores x r else r) ∷ rescore k x rs

  abbrev pub reject : String → String → Picks F → Picks F
  reject id reason p = record p {
    rejected = p.rejected ++ record { strategy_id = id; reason = reason } ∷ [];
  }

module _ {F : Type 0} ⦃o : FloatOps F⦄ ⦃t : TextOps⦄ (age_days : Option String → F)
    (optimizer : BasketOptimizer F) where
  abbrev pub scores_of : BasketRow F → List (BasketRow F) → Scores F
  scores_of r selected =
      let candidate = score_of age_days r in
      let diversity = diversity_bonus_of r selected in
      let pair = pair_penalty_of r selected in
      record {
        candidate = candidate;
        diversity = diversity;
        pair = pair;
        basket = round (sub (add candidate diversity) pair) 6;
      }

  -- the reason for which `consider` refuses a row, by its tests in their order
  abbrev pub refusal : Bool → BasketRow F → F → Picks F → Option String
  refusal relaxed r basket_score p =
      if mem (id_of r) p.selected_ids
      then some "duplicate_strategy"
      else if optimizer.enforce_unique_symbols
          && mem (symbol_of r) p.selected_symbols
          && not relaxed
      then some "duplicate_symbol"
      else if optimizer.enforce_unique_families
          && mem (family_of r) p.selected_families
          && not relaxed
      then some "duplicate_family"
      else if lt basket_score optimizer.min_candidate_score
          && leb optimizer.min_positions (length p.selected)
          && not relaxed
      then some "score_below_threshold"
      else if lt basket_score zero_float && length p.selected == 0
      then some "negative_seed_score"
      else none

  abbrev pub pick : ℕ → BasketRow F → Picks F → Picks F
  pick k r p = record p {
    selected = p.selected ++ (k, r) ∷ [];
    selected_ids = p.selected_ids ++ id_of r ∷ [];
    selected_symbols = p.selected_symbols ++ symbol_of r ∷ [];
    selected_families = p.selected_families ++ family_of r ∷ [];
  }

  unfoldable pub consider : Bool → Shared F → Picks F → Picks F
  consider relaxed (k, r) p =
      let scores = scores_of r (rows_of p.selected) in
      let p' : Picks F = record p { selected = rescore k scores p.selected } in
      elim (refusal relaxed r scores.basket p') [
        | some reason ↦ reject (id_of r) reason p'
        | none ↦ pick k (write_scores scores r) p'
      ]

  -- `for row in ranked: if len(selected) >= max_positions: break; consider(row)`
  unfoldable pub run_pass : Bool → List (Shared F) → Picks F → Picks F
  run_pass relaxed [] p = p
  run_pass relaxed (x ∷ ranked) p =
      if leb optimizer.max_positions (length p.selected)
      then p
      else run_pass relaxed ranked (consider relaxed x p)

  -- `sorted(eligible, key=candidate_score, reverse=True)`, which keeps the order of equal scores
  unfoldable pub insert_ranked : BasketRow F → List (BasketRow F) → List (BasketRow F)
  insert_ranked r [] = r ∷ []
  insert_ranked r (s ∷ rs) =
      if lt (score_of age_days r) (score_of age_days s) then s ∷ insert_ranked r rs else r ∷ s ∷ rs

  unfoldable pub ranked_rows : List (BasketRow F) → List (BasketRow F)
  ranked_rows [] = []
  ranked_rows (r ∷ rs) = insert_ranked r (ranked_rows rs)

  unfoldable pub passes : List (Shared F) → Picks F
  passes ranked =
      let first = run_pass false ranked no_picks in
      if optimizer.soft_fill && ltb (length first.selected) optimizer.min_positions
      then run_pass true ranked first
      else first

  -- `build` up to the test of the number of rows
  unfoldable pub select_rows : List (BasketRow F) → Picks F
  select_rows candidates = passes (number_from 0 (ranked_rows (select is_eligible candidates)))
