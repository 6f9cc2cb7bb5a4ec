-- ===== src/Evolution/Coordinator.antt =====
-- ver9/distributed.py: the run of the coordinator. Its threads are a step relation: a pool holds
-- the batches that wait, those that are in a thread or done there, and the results in the order in
-- which `as_completed` gives them. When a thread takes a batch, and how many of them are at work, is
-- the executor's choice: the relation allows every one. A thread processes one candidate in a step, the read and the
-- write of the registry in it included (the code takes no lock for them). `process_batch` raises
-- nothing, so the handler for a batch that fails is not reached. The artifact, which is only
-- written, and the labels of the workers are left out; how a record reads as a row of `allocate`
-- is a parameter.
mod Totals
mod Steps
pub mod Runs
mod Tests
use crypto_trader_ver_9_alph.Prelude.{
  ℕ, suc, ◌+◌, ◌<◌, ◌≡◌, Bool, true, Option, List, [], ◌∷◌, ◌++◌, map, String, length, ltb, or_else,
  select, if◌then◌else◌,
}
use crypto_trader_ver_9_alph.Prelude.Dict.{mem}
use crypto_trader_ver_9_alph.Prelude.Float.{FloatOps}
use crypto_trader_ver_9_alph.Prelude.Text.{TextOps}
use crypto_trader_ver_9_alph.Lifecycle.{Candidate}
use crypto_trader_ver_9_alph.Basket.{BasketRow}
use crypto_trader_ver_9_alph.Execution.Simulator.{Statistics}
use crypto_trader_ver_9_alph.Basket.Build.{AllocationDecision, allocate}
use crypto_trader_ver_9_alph.Evolution.{
  WorkerBatchResult, Validated, Worker, no_result, process_candidate, chunk, at_least_one,
}

-- A batch in a thread: its index, the candidates that are left, and the result so far.
pub record Job (F : Type 0) : Type 0 where
  pub index : ℕ
  pub rest : List (Candidate F)
  pub result : WorkerBatchResult F

pub record Pool (F S : Type 0) : Type 0 where
  pub queue : List (ℕ × List (Candidate F))
  pub active : List (Job F)
  pub collected : List (ℕ × WorkerBatchResult F)
  pub registry : S

pub record DistributedEvolutionSummary (F : Type 0) : Type 0 where
  pub generated : ℕ
  pub processed : ℕ
  pub promoted : ℕ
  pub failed : ℕ
  pub worker_count : ℕ
  pub portfolio_size : ℕ
  pub portfolio : List (AllocationDecision F)
  pub batch_results : List (ℕ × WorkerBatchResult F)

abbrev pub sum_by : {A : Type 0} → (A → ℕ) → List A → ℕ
sum_by f [] = 0
sum_by f (x ∷ xs) = f x + sum_by f xs

-- `enumerate(batches)`
abbrev pub enumerate_from : {A : Type 0} → ℕ → List A → List (ℕ × A)
enumerate_from n [] = []
enumerate_from n (x ∷ xs) = (n, x) ∷ enumerate_from (n + 1) xs

-- `sorted(batch_results, key=lambda item: item.batch_index)`
unfoldable pub insert_by_index : {A : Type 0} → ℕ × A → List (ℕ × A) → List (ℕ × A)
insert_by_index x [] = x ∷ []
insert_by_index x (y ∷ ys) = if ltb (y.0) (x.0) then y ∷ insert_by_index x ys else x ∷ y ∷ ys

unfoldable pub sorted_by_index : {A : Type 0} → List (ℕ × A) → List (ℕ × A)
sorted_by_index [] = []
sorted_by_index (x ∷ xs) = insert_by_index x (sorted_by_index xs)

module _ {F : Type 0} where
  -- `sum(batch.processed for batch in batch_results)` and the other two sums
  abbrev pub total_of : (WorkerBatchResult F → ℕ) → List (ℕ × WorkerBatchResult F) → ℕ
  total_of field = sum_by (λ x. field (x.1))

  abbrev pub promoted_candidates : List (ℕ × WorkerBatchResult F) → List (Validated F)
  promoted_candidates [] = []
  promoted_candidates (x ∷ xs) = x.1.candidates ++ promoted_candidates xs

  abbrev pub is_deployable : Validated F → Bool
  is_deployable v =
      mem (or_else v.candidate.status "") ("validated" ∷ "probationary" ∷ "deployable" ∷ [])

abbrev pub new_job : {F : Type 0} ⦃o : FloatOps F⦄ ⦃t : TextOps⦄ → ℕ → List (Candidate F) → Job F
new_job index batch = record { index = index; rest = batch; result = no_result }

module _ {F S : Type 0} ⦃o : FloatOps F⦄ where
  -- the pool as the batches are submitted
  abbrev pub submitted : ℕ → List (Candidate F) → S → Pool F S
  submitted batch_size generated s = record {
    queue = enumerate_from 0 (chunk batch_size generated);
    active = [];
    collected = [];
    registry = s;
  }

  module _ ⦃t : TextOps⦄ (worker : Worker F S) where
    -- the pool after a thread has processed the candidate `c` of its batch
    unfoldable pub worked :
        List (Job F)
        → ℕ
        → Candidate F
        → List (Candidate F)
        → WorkerBatchResult F
        → List (Job F)
        → Pool F S
        → Pool F S
    worked before index c rest result after p =
        let (b, s) = process_candidate worker c (result, p.registry) in
        record p {
          active = before ++ (record { index = index; rest = rest; result = b } ∷ after);
          registry = s;
        }

    -- A thread takes the next batch, a thread goes on with its batch, or a result is collected.
    pub data PoolStep : Pool F S → Pool F S → Type 0 where
      begin :
          (p : Pool F S) (index : ℕ) (batch : List (Candidate F))
          (queue : List (ℕ × List (Candidate F)))
          → p.queue ≡ (index, batch) ∷ queue
          → PoolStep p (record p { queue = queue; active = new_job index batch ∷ p.active })
      work :
          (p : Pool F S) (before : List (Job F)) (index : ℕ) (c : Candidate F)
          (rest : List (Candidate F)) (result : WorkerBatchResult F) (after : List (Job F))
          → p.active
            ≡ before ++ (record { index = index; rest = c ∷ rest; result = result } ∷ after)
          → PoolStep p (worked before index c rest result after p)
      collect :
          (p : Pool F S) (before : List (Job F)) (index : ℕ) (result : WorkerBatchResult F)
          (after : List (Job F))
          → p.active ≡ before ++ (record { index = index; rest = []; result = result } ∷ after)
          → PoolStep p (record p {
            active = before ++ after;
            collected = p.collected ++ ((index, result) ∷ []);
          })

    -- A run of so many steps.
    pub data Run (p : Pool F S) : ℕ → Pool F S → Type 0 where
      here : Run p 0 p
      next : {n : ℕ} {q r : Pool F S} → Run p n q → PoolStep q r → Run p (suc n) r

  -- Every result is collected.
  abbrev pub IsFinished : Pool F S → Type 0
  IsFinished p = (p.queue ≡ []) × (p.active ≡ [])

  -- `run`, from the end of the pool on
  module _ ⦃t : TextOps⦄ (age_days : Option String → F) (statistics : Statistics F)
      (row_of : Validated F → BasketRow F) where
    unfoldable pub summary_of :
        ℕ → ℕ → List (Candidate F) → Pool F S → DistributedEvolutionSummary F
    summary_of worker_count max_positions generated p =
        let deployable = select is_deployable (promoted_candidates p.collected) in
        let portfolio = allocate age_days statistics (map row_of deployable) max_positions 2 true in
        record {
          generated = length generated;
          processed = total_of (λ b. b.processed) p.collected;
          promoted = total_of (λ b. b.promoted) p.collected;
          failed = total_of (λ b. b.failed) p.collected;
          worker_count = at_least_one worker_count;
          portfolio_size = length portfolio;
          portfolio = portfolio;
          batch_results = sorted_by_index p.collected;
        }
