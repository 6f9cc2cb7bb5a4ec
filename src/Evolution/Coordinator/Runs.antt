-- ===== src/Evolution/Coordinator/Runs.antt =====
-- That every run of the pool ends, and what its summary counts.
use crypto_trader_ver_9_alph.Prelude.{
  Bool, true, false, none, some, ◌||◌, ◌++◌, map, or_else, str_eq, select, if◌then◌else◌, ℕ, zero,
  suc, ◌+◌, ◌*◌, ◌≡◌, refl, ap, ◌∙◌, subst, ◌⊎◌, inl, inr, Option, String, List, [], ◌∷◌, length,
  length-append, All, arith,
}
use crypto_trader_ver_9_alph.Prelude.Float.{FloatOps}
use crypto_trader_ver_9_alph.Prelude.Text.{TextOps}
use crypto_trader_ver_9_alph.Lifecycle.{Candidate}
use crypto_trader_ver_9_alph.Execution.Simulator.{Statistics}
use crypto_trader_ver_9_alph.Basket.{BasketRow}
use crypto_trader_ver_9_alph.Basket.Build.{allocate}
use crypto_trader_ver_9_alph.Prelude.Dict.{mem}
use crypto_trader_ver_9_alph.Evolution.{WorkerBatchResult, Validated, Worker, chunk}
use crypto_trader_ver_9_alph.Evolution.Batches.{IsCounted}
use crypto_trader_ver_9_alph.Evolution.Coordinator.{
  Job, Pool, is_deployable, sum_by, total_of, promoted_candidates, submitted, PoolStep, begin, work,
  collect, Run, next, IsFinished, summary_of,
}
use crypto_trader_ver_9_alph.Evolution.Coordinator.Totals.{length-sorted_by_index}
use crypto_trader_ver_9_alph.Evolution.Coordinator.Steps.{
  queued, taken, steps, distance, PoolStep-distance, Run-IsKept, Run-distance, submitted-IsKept,
  submitted-distance,
}

-- The status of a record that the portfolio may hold.
abbrev pub stands : Option String → Bool
stands none = false
stands (some s) = str_eq "validated" s || str_eq "probationary" s || str_eq "deployable" s

deployable-stands :
    (status : Option String)
    → mem (or_else status "") ("validated" ∷ "probationary" ∷ "deployable" ∷ []) ≡ stands status
deployable-stands none = refl
deployable-stands (some s) = ground arith

module _ {F : Type 0} where
  -- The records of the collected results, those of the first result first.
  abbrev pub records_of : List (ℕ × WorkerBatchResult F) → List (Validated F)
  records_of [] = []
  records_of ((index, result) ∷ rest) = result.candidates ++ records_of rest

  -- The records with such a status.
  abbrev pub standing : List (Validated F) → List (Validated F)
  standing [] = []
  standing (v ∷ vs) = if stands v.candidate.status then v ∷ standing vs else standing vs

  promoted-records : (rs : List (ℕ × WorkerBatchResult F)) → promoted_candidates rs ≡ records_of rs
  promoted-records [] = refl
  promoted-records (r ∷ rs) = ap (λ vs. r.1.candidates ++ vs) (promoted-records rs)

  select-standing : (vs : List (Validated F)) → select is_deployable vs ≡ standing vs
  select-standing [] = refl
  select-standing (v ∷ vs) =
      rw (deployable-stands v.candidate.status) (ground (arith, select-standing vs))

module _ {F S : Type 0} ⦃o : FloatOps F⦄ ⦃t : TextOps⦄ (worker : Worker F S) where
  -- A pool steps, or all of its results are collected.
  Progress : Pool F S → Type 0
  Progress p = IsFinished p ⊎ ((q : Pool F S) × PoolStep worker p q)

  step_of :
      (p : Pool F S) (queue : List (ℕ × List (Candidate F))) (active : List (Job F))
      → p.queue ≡ queue
      → p.active ≡ active
      → Progress p
  unfolding Progress
  step_of p [] [] e h = inl (e, h)
  step_of p ((index, batch) ∷ queue) [] e h = inr (_, begin p index batch queue e)
  step_of p queue (j ∷ after) e h = with_rest j.rest refl
    where
      with_rest : (rest : List (Candidate F)) → j.rest ≡ rest → Progress p
      with_rest [] r = inr (
        _,
        collect p [] j.index j.result after
            (h ∙ ap (λ z. record { index = j.index; rest = z; result = j.result } ∷ after) r),
      )
      with_rest (c ∷ rest) r = inr (
        _,
        work p [] j.index c rest j.result after
            (h ∙ ap (λ z. record { index = j.index; rest = z; result = j.result } ∷ after) r),
      )

  finish :
      (k : ℕ) (start p : Pool F S) (m : ℕ)
      → distance p ≡ k
      → Run worker start m p
      → (q : Pool F S) × Run worker start (m + k) q × IsFinished q
  unfolding Progress
  finish zero start p m d r = elim (step_of p p.queue p.active refl refl) [
    | inl done ↦ let e : m ≡ m + 0 = omega arith in (p, subst (λ n. Run worker start n p) e r, done)
    | inr (q, s) ↦ absurd (omega (arith, d, PoolStep-distance worker s))
  ]
  finish (suc k) start p m d r = elim (step_of p p.queue p.active refl refl) [
    | inl done ↦
        absurd (
          omega
            (arith, d, ap (sum_by (λ x. length (x.1) + 2)) (done.0), ap (sum_by steps) (done.1)))
    | inr (q, s) ↦
        let (last, run, done) =
          finish k start q (suc m) (omega (arith, d, PoolStep-distance worker s)) (next r s) in
        let e : suc m + k ≡ m + suc k = omega arith in
        (last, subst (λ n. Run worker start n last) e run, done)
  ]

  results_counted-sums :
      (rs : List (ℕ × WorkerBatchResult F))
      → All (λ x. IsCounted worker (x.1)) rs
      → (total_of (λ b. b.processed) rs
          ≡ total_of (λ b. b.promoted) rs + total_of (λ b. b.failed) rs)
        × (length (promoted_candidates rs) ≡ total_of (λ b. b.promoted) rs)
  results_counted-sums [] h = (refl, refl)
  results_counted-sums (x ∷ rs) h =
      let ih = results_counted-sums rs h.1 in
      (
        omega (arith, ih.0, h.0),
        omega (arith, ih.1, h.0, length-append x.1.candidates (promoted_candidates rs)),
      )

  module _ (batch_size : ℕ) (generated : List (Candidate F)) (s : S) where
    -- However the threads are scheduled, the run can go on to its end, which it reaches after
    -- exactly one step for each generated candidate and two for each batch.
    run_ends :
        (m : ℕ) (p : Pool F S)
        → Run worker (submitted batch_size generated s) m p
        → (k : ℕ) × (m + k ≡ length generated + 2 * length (chunk batch_size generated))
          × (q : Pool F S) × Run worker (submitted batch_size generated s) (m + k) q
          × IsFinished q
    run_ends m p r =
        let start = submitted batch_size generated s in
        let (q, run, done) = finish (distance p) start p m refl r in
        (
          distance p,
          omega (arith, Run-distance worker r, submitted-distance worker batch_size generated s),
          q,
          run,
          done,
        )

    -- However the threads are scheduled and whatever the validations and the registry raise, the
    -- summary of a run that has ended counts every generated candidate once, as promoted or as
    -- failed, has a record for each that it counts as promoted and a result for each batch; and its
    -- portfolio is what the allocation makes of exactly those records whose status is validated,
    -- probationary or deployable, in the order in which their batches were collected.
    pub summary_of-counts :
        (age_days : Option String → F) (statistics : Statistics F)
        (row_of : Validated F → BasketRow F) (worker_count max_positions m : ℕ) (p : Pool F S)
        → Run worker (submitted batch_size generated s) m p
        → IsFinished p
        → let r = summary_of age_days statistics row_of worker_count max_positions generated p in
          (r.processed ≡ r.generated)
          × (r.promoted + r.failed ≡ r.generated)
          × (length (promoted_candidates p.collected) ≡ r.promoted)
          × (length r.batch_results ≡ length (chunk batch_size generated))
          × (r.portfolio_size ≡ length r.portfolio)
          × (r.portfolio
              ≡ allocate age_days statistics
                  (map row_of (standing (records_of p.collected)))
                  max_positions
                  2
                  true)
    unfolding summary_of
    summary_of-counts age_days statistics row_of worker_count max_positions m p r done =
        let kept = Run-IsKept worker (submitted-IsKept worker batch_size generated s) r in
        let sums = results_counted-sums p.collected kept.results_counted in
        let queue = done.0 in
        let active = done.1 in
        let all : total_of (λ b. b.processed) p.collected ≡ length generated =
          omega (arith, kept.items, ap queued queue, ap (sum_by taken) active) in
        (
          all,
          omega (arith, all, sums.0),
          sums.1,
          omega (
            arith,
            length-sorted_by_index p.collected,
            kept.batches,
            ap length queue,
            ap length active,
          ),
          refl,
          ap (λ vs. allocate age_days statistics (map row_of vs) max_positions 2 true)
              (select-standing (promoted_candidates p.collected)
                ∙ ap standing (promoted-records p.collected)),
        )
