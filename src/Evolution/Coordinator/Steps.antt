-- ===== src/Evolution/Coordinator/Steps.antt =====
-- The number of steps that a pool is away from its end, and what every step keeps.
use crypto_trader_ver_9_alph.Prelude.{
  ℕ, suc, ◌+◌, ◌*◌, ◌≡◌, refl, ap, subst, List, [], ◌∷◌, length, length-append, All, arith,
}
use crypto_trader_ver_9_alph.Prelude.Float.{FloatOps}
use crypto_trader_ver_9_alph.Prelude.Text.{TextOps}
use crypto_trader_ver_9_alph.Lifecycle.{Candidate}
use crypto_trader_ver_9_alph.Evolution.{WorkerBatchResult, Worker, chunk}
use crypto_trader_ver_9_alph.Evolution.Batches.{IsCounted, process_candidate-IsCounted, chunk_lem}
use crypto_trader_ver_9_alph.Evolution.Coordinator.{
  Job, Pool, sum_by, total_of, submitted, worked, PoolStep, begin, work, collect, Run, here, next,
}
use crypto_trader_ver_9_alph.Evolution.Coordinator.Totals.{
  sum_by-append, All-append, All-parts, sum_by-concat, weight-enumerate_from, length-enumerate_from,
}

module _ {F : Type 0} where
  abbrev pub queued : List (ℕ × List (Candidate F)) → ℕ
  queued = sum_by (λ x. length (x.1))

  -- the candidates of a batch in a thread, processed or not
  abbrev pub taken : Job F → ℕ
  taken j = length j.rest + j.result.processed

  -- the steps that a batch in a thread still takes, and one in the queue
  abbrev pub steps : Job F → ℕ
  steps j = length j.rest + 1

  -- How many steps a pool is away from its end.
  abbrev pub distance : {S : Type 0} → Pool F S → ℕ
  distance p = sum_by (λ x. length (x.1) + 2) p.queue + sum_by steps p.active

module _ {F S : Type 0} ⦃o : FloatOps F⦄ ⦃t : TextOps⦄ (worker : Worker F S) where
  -- Of `n` candidates in `b` batches.
  pub record IsKept (n b : ℕ) (p : Pool F S) : Type 0 where
    pub items : queued p.queue + sum_by taken p.active + total_of (λ r. r.processed) p.collected ≡ n
    pub batches : length p.queue + length p.active + length p.collected ≡ b
    pub jobs_counted : All (λ j. IsCounted worker j.result) p.active
    pub results_counted : All (λ x. IsCounted worker (x.1)) p.collected

  pub PoolStep-distance : {p q : Pool F S} → PoolStep worker p q → distance p ≡ suc (distance q)
  unfolding worked
  PoolStep-distance (begin p index batch queue e) =
      omega (arith, ap (sum_by (λ x. length (x.1) + 2)) e)
  PoolStep-distance (work p before index c rest result after e) =
      omega (arith, ap (sum_by steps) e, sum_by-append steps before _)
  PoolStep-distance (collect p before index result after e) =
      omega (arith, ap (sum_by steps) e, sum_by-append steps before _)

  abbrev HasCounted : Job F → Type 0
  HasCounted j = IsCounted worker j.result

  PoolStep-IsKept : {n b : ℕ} {p q : Pool F S} → PoolStep worker p q → IsKept n b p → IsKept n b q
  unfolding worked
  PoolStep-IsKept (begin p index batch queue e) k = record {
    items = omega (arith, k.items, ap queued e);
    batches = omega (arith, k.batches, ap length e);
    jobs_counted = ((refl, refl, refl), k.jobs_counted);
    results_counted = k.results_counted;
  }
  PoolStep-IsKept (work p before index c rest result after e) k =
      let counted : All HasCounted before
          × All HasCounted (record { index = index; rest = c ∷ rest; result = result } ∷ after) =
        All-parts HasCounted before _ (subst (All HasCounted) e k.jobs_counted) in
      let (kept, more) = process_candidate-IsCounted worker c result p.registry (counted.1.0) in
      record {
        items = omega (arith, k.items, ap (sum_by taken) e, sum_by-append taken before _, more);
        batches = omega (arith, k.batches, ap length e, length-append before _);
        jobs_counted = All-append HasCounted before _ (counted.0) (kept, counted.1.1);
        results_counted = k.results_counted;
      }
  PoolStep-IsKept (collect p before index result after e) k =
      let counted : All HasCounted before
          × All HasCounted (record { index = index; rest = []; result = result } ∷ after) =
        All-parts HasCounted before _ (subst (All HasCounted) e k.jobs_counted) in
      record {
        items = omega (
          arith,
          k.items,
          ap (sum_by taken) e,
          sum_by-append taken before _,
          sum_by-append (λ (x : ℕ × WorkerBatchResult F). x.1.processed) p.collected _,
        );
        batches =
            omega
              (arith, k.batches, ap length e, length-append before _, length-append p.collected _);
        jobs_counted = All-append HasCounted before _ (counted.0) (counted.1.1);
        results_counted =
            All-append (λ x. IsCounted worker (x.1)) p.collected _ k.results_counted
              (counted.1.0, tt);
      }

  pub Run-IsKept :
      {n b : ℕ} {p : Pool F S} {m : ℕ} {q : Pool F S}
      → IsKept n b p
      → Run worker p m q
      → IsKept n b q
  Run-IsKept k here = k
  Run-IsKept k (next r s) = PoolStep-IsKept s (Run-IsKept k r)

  pub Run-distance :
      {p : Pool F S} {m : ℕ} {q : Pool F S} → Run worker p m q → distance p ≡ m + distance q
  Run-distance here = omega arith
  Run-distance (next r s) = omega (arith, Run-distance r, PoolStep-distance s)

  pub submitted-IsKept :
      (batch_size : ℕ) (generated : List (Candidate F)) (s : S)
      → IsKept
          (length generated)
          (length (chunk batch_size generated))
          (submitted batch_size generated s)
  submitted-IsKept batch_size generated s =
      let batches = chunk batch_size generated in
      record {
        items =
            omega (arith, sum_by-concat 0 batches, ap length ((chunk_lem batch_size generated).0));
        batches = omega (arith, length-enumerate_from 0 batches);
        jobs_counted = tt;
        results_counted = tt;
      }

  pub submitted-distance :
      (batch_size : ℕ) (generated : List (Candidate F)) (s : S)
      → distance (submitted batch_size generated s)
        ≡ length generated + 2 * length (chunk batch_size generated)
  submitted-distance batch_size generated s =
      let batches = chunk batch_size generated in
      omega (arith, weight-enumerate_from 0 batches, ap length ((chunk_lem batch_size generated).0))
