-- ===== src/Research/Search/Exhaustive.antt =====
-- What the grid search finds.
use mathlib.Core.List.{Permᴰ}
use crypto_trader_ver_9_alph.Prelude.{
  ℕ, suc, ◌≡◌, refl, sym, subst, ◌⊎◌, inl, inr, Bool, false, Option, none, some, List, [], ◌∷◌,
  String, All, Option-cases,
}
use crypto_trader_ver_9_alph.Prelude.Dict.{Dict}
use crypto_trader_ver_9_alph.Prelude.Float.{FloatOps, TotalOrder, lt}
use crypto_trader_ver_9_alph.Research.Portfolio.{
  Bar, Strategy, PortfolioBacktestResult, EngineOps, run,
}
use crypto_trader_ver_9_alph.Research.Search.{
  OptimizationCandidate, OptimizationResult, SearchOps, parameter_combinations, sort_descending,
  engine_with, candidate_of, search_from, result_of, optimize,
}
use crypto_trader_ver_9_alph.Research.Search.Choices.{
  Member, All-Member, Member-All, Chooses, combinations-Chooses, Chooses-combinations,
  choice_or_none, no_choice,
}
use crypto_trader_ver_9_alph.Research.Search.Sorting.{
  IsDescending, sort-All, All-of_sort, sort-IsDescending, sort-perm,
}

module _ {F V : Type 0} ⦃o : FloatOps F⦄ (order : TotalOrder F) (ops : EngineOps F)
    (search : SearchOps F V) (frame : List (Bar F)) (symbol timeframe : String) (capital : F) where
  abbrev key : OptimizationCandidate F V → F
  key c = c.composite_score

  -- The backtest of the strategy of some parameters.
  abbrev Tests : Strategy F → Option (PortfolioBacktestResult F) → Type 0
  Tests strategy r = run ops (engine_with capital) (strategy ∷ []) frame symbol timeframe ≡ r

  -- The strategy of the parameters is not made, or its backtest raises.
  abbrev pub Fails : Dict V → Type 0
  Fails p =
      (search.strategy_factory p ≡ none)
      ⊎ ((s : Strategy F) × (search.strategy_factory p ≡ some s) × Tests s none)

  -- The strategy of the parameters is made, and the candidate is that of its backtest.
  abbrev pub Makes : Dict V → OptimizationCandidate F V → Type 0
  Makes p c =
      (s : Strategy F) × (r : PortfolioBacktestResult F) × (search.strategy_factory p ≡ some s)
      × Tests s (some r)
      × (c ≡ candidate_of ops search frame symbol timeframe capital p r)

  -- The candidates are those of the parameters, one for each, in their order.
  abbrev pub AllMade : List (Dict V) → List (OptimizationCandidate F V) → Type 0
  AllMade [] [] = Unit
  AllMade [] (c ∷ cs) = ⊥
  AllMade (p ∷ ps) [] = ⊥
  AllMade (p ∷ ps) (c ∷ cs) = Makes p c × AllMade ps cs

  -- The result of a search that returns: its best candidate is that of a choice, every choice makes
  -- a candidate and none one with a higher score, and its list has the candidate of each choice,
  -- in descending order.
  abbrev pub IsBest : Dict (List V) → OptimizationResult F V → Type 0
  IsBest space r =
      ((p : Dict V) × Chooses space p × Makes p r.best_candidate)
      × ((p : Dict V)
          → Chooses space p
          → (c : OptimizationCandidate F V) × Makes p c
            × (lt r.best_candidate.composite_score c.composite_score ≡ false))
      × ((l : List (OptimizationCandidate F V)) × AllMade (parameter_combinations space) l
          × Permᴰ r.ranked_candidates l)
      × IsDescending key r.ranked_candidates

  -- The search over a space: its result, or why it raises.
  abbrev pub Searched : Dict (List V) → Option (OptimizationResult F V) → Type 0
  Searched space r =
      ((r ≡ none)
        × (((k : String) × Member (k, []) space) ⊎ ((p : Dict V) × Chooses space p × Fails p)))
      ⊎ ((b : OptimizationResult F V) × (r ≡ some b) × IsBest space b)

  -- The loop over some parameters, from its result on.
  abbrev Looped : List (Dict V) → Option (List (OptimizationCandidate F V)) → Type 0
  Looped ps r =
      ((r ≡ none) × (p : Dict V) × Member p ps × Fails p)
      ⊎ ((l : List (OptimizationCandidate F V)) × (r ≡ some l) × AllMade ps l)

  search_from_lem :
      (n : ℕ) (ps : List (Dict V))
      → Looped ps (search_from ops search frame symbol timeframe capital n ps).0
  unfolding search_from
  search_from_lem n [] = inr ([], refl, tt)
  search_from_lem n (p ∷ ps) = elim (Option-cases (search.strategy_factory p)) [
    | inl e ↦ rw (e, search_from) (inl (refl, p, inl refl, inl e))
    | inr (s, e) ↦
        elim (Option-cases (run ops (engine_with capital) (s ∷ []) frame symbol timeframe)) [
          | inl d ↦ rw (e, search_from, d) (inl (refl, p, inl refl, inr (s, e, d)))
          | inr (r, d) ↦ elim (search_from_lem (suc n) ps) [
            | inl (x, q, m, f) ↦ rw (e, search_from, d, x) (inl (refl, q, inr m, f))
            | inr (l, x, a) ↦ rw (e, search_from, d, x) (inr (_, refl, ((s, r, e, d, refl), a)))
          ]
        ]
  ]

  AllMade-Member :
      (ps : List (Dict V)) (cs : List (OptimizationCandidate F V)) (c : OptimizationCandidate F V)
      → AllMade ps cs
      → Member c cs
      → (p : Dict V) × Member p ps × Makes p c
  AllMade-Member (p ∷ ps) (d ∷ cs) c h (inl e) = (p, inl refl, subst (Makes p) (sym e) h.0)
  AllMade-Member (p ∷ ps) (d ∷ cs) c h (inr m) =
      let (q, n, k) = AllMade-Member ps cs c h.1 m in (q, inr n, k)
  AllMade-Member [] (d ∷ cs) c h m = absurd h
  AllMade-Member ps [] c h m = absurd m

  Member-AllMade :
      (ps : List (Dict V)) (cs : List (OptimizationCandidate F V)) (p : Dict V)
      → AllMade ps cs
      → Member p ps
      → (c : OptimizationCandidate F V) × Member c cs × Makes p c
  Member-AllMade (q ∷ ps) (c ∷ cs) p h (inl e) = (c, inl refl, subst (λ x. Makes x c) (sym e) h.0)
  Member-AllMade (q ∷ ps) (c ∷ cs) p h (inr m) =
      let (d, n, k) = Member-AllMade ps cs p h.1 m in (d, inr n, k)
  Member-AllMade (q ∷ ps) [] p h m = absurd h
  Member-AllMade [] cs p h m = absurd m

  -- A candidate that a choice makes.
  IsMade : Dict (List V) → OptimizationCandidate F V → Type 0
  IsMade space c = (p : Dict V) × Chooses space p × Makes p c

  sorted-IsMade :
      (space : Dict (List V)) (l : List (OptimizationCandidate F V))
      → AllMade (parameter_combinations space) l
      → All (IsMade space) (sort_descending key l)
  unfolding IsMade
  sorted-IsMade space l a = sort-All key (IsMade space) l (
      Member-All (IsMade space) l (λ c m.
        let (p, n, k) = AllMade-Member (parameter_combinations space) l c a m in
        (p, combinations-Chooses space p n, k)))

  -- What holds of all sorted candidates holds of the candidate of each choice.
  of_sorted :
      (P : OptimizationCandidate F V → Type 0) (space : Dict (List V))
      → (l : List (OptimizationCandidate F V)) → AllMade (parameter_combinations space) l
      → All P (sort_descending key l)
      → (p : Dict V) → Chooses space p
      → (c : OptimizationCandidate F V) × Makes p c × P c
  of_sorted P space l a h p k =
      let (c, m, n) =
        Member-AllMade (parameter_combinations space) l p a (Chooses-combinations space p k) in
      (c, n, All-Member P l (All-of_sort key P l h) c m)

  searched :
      (space : Dict (List V)) (l sorted : List (OptimizationCandidate F V))
      → AllMade (parameter_combinations space) l
      → sort_descending key l ≡ sorted
      → ((p : Dict V) × Chooses space p) ⊎ ((k : String) × Member (k, []) space)
      → Searched space (result_of ops search frame symbol timeframe capital sorted)
  unfolding IsMade
  searched space l [] a e (inr k) = inl (refl, inl k)
  searched space l [] a e (inl (p, c)) =
      absurd (of_sorted (λ x. ⊥) space l a (subst (All (λ x. ⊥)) (sym e) tt) p c).2
  searched space l (best ∷ rest) a e (inr (k, m)) =
      let ((p, c, q), others) = subst (All (IsMade space)) e (sorted-IsMade space l a) in
      absurd (no_choice space k m p c)
  searched space l (best ∷ rest) a e (inl c) =
      let descending = subst (IsDescending key) e (sort-IsDescending key order l) in
      let above : All (λ x. lt (key best) (key x) ≡ false) (best ∷ rest) =
        (order.lt_irrefl (key best), descending.0) in
      let made_all = subst (All (IsMade space)) e (sorted-IsMade space l a) in
      inr (
        _,
        refl,
        (
          made_all.0,
          of_sorted (λ x. lt (key best) (key x) ≡ false) space l a
              (subst (All (λ x. lt (key best) (key x) ≡ false)) (sym e) above),
          (l, a, subst (λ k. Permᴰ k l) e (sort-perm key l)),
          descending,
        ),
      )

  -- Where the order of the scores is total, the grid search raises exactly if some parameter has no
  -- values or some choice of one value for each parameter makes no strategy or one whose backtest
  -- raises; else its best candidate is that of a choice, every choice makes a candidate and none
  -- one with a higher score, and the ranked list is a permutation of the candidates of all
  -- combinations, in descending order of the scores.
  pub optimize_lem :
      (tracks : Bool) (space : Dict (List V))
      → Searched space (optimize ops search frame symbol timeframe capital tracks space).0
  unfolding optimize
  optimize_lem tracks space = elim (search_from_lem 0 (parameter_combinations space)) [
    | inl (e, p, m, f) ↦ rw e (inl (refl, inr (p, combinations-Chooses space p m, f)))
    | inr (l, e, a) ↦ rw e (searched space l _ a refl (choice_or_none space))
  ]
