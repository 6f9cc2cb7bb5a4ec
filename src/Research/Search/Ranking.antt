-- ===== src/Research/Search/Ranking.antt =====
-- The ranking of the experiments that a grid search saved.
use mathlib.Core.Option.{some-injective}
use crypto_trader_ver_9_alph.Prelude.{
  ℕ, suc, ◌≡◌, ap, sym, ◌∙◌, true, some, inl, inr, Option-cases, List, [], ◌∷◌, map, String,
}
use crypto_trader_ver_9_alph.Prelude.Dict.{Dict}
use crypto_trader_ver_9_alph.Prelude.Float.{FloatOps}
use crypto_trader_ver_9_alph.Research.Portfolio.{Bar, EngineOps}
use crypto_trader_ver_9_alph.Research.Search.{
  OptimizationCandidate, OptimizationResult, SearchOps, parameter_combinations, sort_descending,
  backtest_of, candidate_of, record_of, search_from, result_of, optimize, score, rank, rank_record,
}
use crypto_trader_ver_9_alph.Research.Search.Sorting.{map-sort_descending}

module _ {F V : Type 0} ⦃o : FloatOps F⦄ (ops : EngineOps F) (search : SearchOps F V)
    (frame : List (Bar F)) (symbol timeframe : String) (capital : F) where
  -- The ranking computes the score of the search anew, from the metrics in the record.
  scores_of_records :
      (n : ℕ) (ps : List (Dict V)) (cs : List (OptimizationCandidate F V))
      → (search_from ops search frame symbol timeframe capital n ps).0 ≡ some cs
      → map
          (λ r. r.composite_score)
          (map rank_record (search_from ops search frame symbol timeframe capital n ps).1)
        ≡ map (λ c. c.composite_score) cs
  unfolding search_from record_of rank_record candidate_of score
  scores_of_records n [] cs = λ e. cc
  scores_of_records n (p ∷ ps) cs = elim (Option-cases (search.strategy_factory p)) [
    | inl f ↦ rw (f, search_from) (λ e. cc)
    | inr (s, f) ↦ elim (Option-cases (backtest_of ops search frame symbol timeframe capital s)) [
      | inl d ↦ rw (f, search_from, d) (λ e. cc)
      | inr (r, d) ↦
          elim (Option-cases (search_from ops search frame symbol timeframe capital (suc n) ps).0) [
            | inl x ↦ rw (f, search_from, d, x) (λ e. cc)
            | inr (l, x) ↦
                let rest = scores_of_records (suc n) ps l x in
                let best = candidate_of ops search frame symbol timeframe capital p r in
                rw (f, search_from, d, x)
                  (λ e.
                    ap (λ xs. best.composite_score ∷ xs) rest
                    ∙ ap (map (λ c. c.composite_score)) (some-injective _ _ e))
          ]
    ]
  ]

  ranked_of :
      (sorted : List (OptimizationCandidate F V)) (r : OptimizationResult F V)
      → result_of ops search frame symbol timeframe capital sorted ≡ some r
      → r.ranked_candidates ≡ sorted
  ranked_of [] r e = cc
  ranked_of (best ∷ rest) r e = cc

  -- Ranking the experiments that a search has saved gives the scores of its ranked candidates, in
  -- the same order.
  pub rank-optimize :
      (space : Dict (List V)) (r : OptimizationResult F V)
      → (optimize ops search frame symbol timeframe capital true space).0 ≡ some r
      → map
          (λ x. x.composite_score)
          (rank (optimize ops search frame symbol timeframe capital true space).1)
        ≡ map (λ c. c.composite_score) r.ranked_candidates
  unfolding optimize rank
  rank-optimize space r =
      let combinations = parameter_combinations space in
      let (found, records) = search_from ops search frame symbol timeframe capital 0 combinations in
      elim (Option-cases (search_from ops search frame symbol timeframe capital 0 combinations).0) [
        | inl x ↦ rw x (λ e. cc)
        | inr (cs, x) ↦ rw x (λ e.
            map-sort_descending (λ x. x.composite_score) (map rank_record records)
            ∙ ap (sort_descending (λ (a : F). a)) (scores_of_records 0 combinations cs x)
            ∙ sym (map-sort_descending (λ c. c.composite_score) cs)
            ∙ ap (map (λ c. c.composite_score)) (sym (ranked_of _ r e)))
      ]
