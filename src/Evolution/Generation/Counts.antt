-- ===== src/Evolution/Generation/Counts.antt =====
-- How many candidates a generation makes.
use crypto_trader_ver_9_alph.Prelude.{
  ℕ, zero, suc, ◌+◌, ◌≡◌, refl, Bool, true, false, ◌&&◌, List, [], ◌∷◌, ◌++◌, String, arith,
  or_else, str_eq, length, length-append, if◌then◌else◌,
}
use crypto_trader_ver_9_alph.Prelude.Int.{ℤ}
use crypto_trader_ver_9_alph.Prelude.Dict.{Dict}
use crypto_trader_ver_9_alph.Prelude.Float.{FloatOps}
use crypto_trader_ver_9_alph.Prelude.Text.{TextOps}
use crypto_trader_ver_9_alph.Lifecycle.{Candidate}
use crypto_trader_ver_9_alph.Evolution.{PlanRow}
use crypto_trader_ver_9_alph.Evolution.Quotas.{planned}
use crypto_trader_ver_9_alph.Evolution.Tuner.{TunerOps, infer_regime}
use crypto_trader_ver_9_alph.Evolution.Generation.{
  SeedOps, Generated, build_candidate, build_generation_plan, generation_quota_report, total_count,
  candidates_of, candidates_for, generate_candidates,
}

-- How many rows are of a family and a symbol.
abbrev pub generated : {F : Type 0} → String → String → List (Generated F) → ℕ
generated f s [] = 0
generated f s (g ∷ gs) =
    (if str_eq (or_else g.candidate.family "") f && str_eq (or_else g.candidate.symbol "") s
      then 1
      else 0)
    + generated f s gs

module _ {F : Type 0} ⦃o : FloatOps F⦄ ⦃t : TextOps⦄ (ops : TunerOps F) where
  -- A history that decides a regime decides it for every fallback.
  infer_regime_twice :
      (history : List (Candidate F)) (fallback : String)
      → infer_regime ops history (infer_regime ops history fallback)
        ≡ infer_regime ops history fallback
  unfolding infer_regime
  infer_regime_twice [] fallback = refl
  infer_regime_twice (r ∷ rs) fallback = ground arith

  module _ (seeds : SeedOps F) where
    generated-append :
        (f s : String) (xs ys : List (Generated F))
        → generated f s (xs ++ ys) ≡ generated f s xs + generated f s ys
    generated-append f s [] ys = omega arith
    generated-append f s (x ∷ xs) ys = omega (arith, generated-append f s xs ys)

    candidates_of-counts :
        (f s regime family symbol : String) (i n : ℕ)
        → let gs = candidates_of ops seeds regime family symbol i n in
          (generated f s gs ≡ (if str_eq family f && str_eq symbol s then n else 0))
          × (length gs ≡ n)
    unfolding candidates_of build_candidate
    candidates_of-counts f s regime family symbol i zero = (ground arith, refl)
    candidates_of-counts f s regime family symbol i (suc n) =
        let ih = candidates_of-counts f s regime family symbol (i + 1) n in
        (ground (arith, ih.0), omega (arith, ih.1))

    candidates_for-counts :
        (f s regime : String) (plan : List PlanRow)
        → let gs = candidates_for ops seeds regime plan in
          (generated f s gs ≡ planned f s plan) × (length gs ≡ total_count plan)
    unfolding candidates_for
    candidates_for-counts f s regime [] = (refl, refl)
    candidates_for-counts f s regime (row ∷ plan) =
        let xs = candidates_of ops seeds regime row.family row.symbol 0 row.count in
        let ys = candidates_for ops seeds regime plan in
        let here = candidates_of-counts f s regime row.family row.symbol 0 row.count in
        let rest = candidates_for-counts f s regime plan in
        (
          omega (arith, generated-append f s xs ys, here.0, rest.0),
          omega (arith, length-append xs ys, here.1, rest.1),
        )

    -- A generation makes exactly the candidates that the quota report of the same arguments
    -- announces: as many of each family and symbol as its plan has, and `total_planned` in all,
    -- though it infers the regime twice.
    pub generate_candidates_lem :
        (iterations : ℕ) (families symbols : Dict ℤ) (regime : String)
        (history : List (Candidate F)) (adaptive : Bool) (f s : String)
        → let gs =
            generate_candidates ops seeds iterations families symbols regime history adaptive in
          let report =
            generation_quota_report ops iterations families symbols regime history adaptive in
          (generated f s gs ≡ planned f s report.plan) × (length gs ≡ report.total_planned)
    unfolding generate_candidates generation_quota_report build_generation_plan
    generate_candidates_lem iterations families symbols regime history true f s =
        rw (infer_regime_twice history regime) (candidates_for-counts f s _ _)
    generate_candidates_lem iterations families symbols regime history false f s =
        candidates_for-counts f s _ _
