-- ===== src/Evolution.antt =====
-- ver9/distributed.py and the generation quotas of ver9/diversity.py. Of `distributed.py`: the
-- split into batches and a worker's run over a batch; Coordinator has the pool of threads. The
-- artifacts are left out. The validation (that of the child module Validation) and the registry, which a worker calls, are parameters that return or raise
-- a text. A number of a candidate is missing or converts, and of the validation's report the model
-- has what the worker reads.
pub mod Batches
pub mod Quotas
pub mod Tuner
pub mod Generation
pub mod Coordinator
pub mod Validation
pub mod Diversity
mod Tests
use crypto_trader_ver_9_alph.Prelude.{
  ℕ, zero, suc, ◌+◌, Bool, ◌&&◌, Option, none, some, List, [], ◌∷◌, ◌++◌, map, String, length, take,
  drop, ltb, leb, or_else, str_append, if◌then◌else◌,
}
use crypto_trader_ver_9_alph.Prelude.Int.{ℤ, pos, negsuc}
use crypto_trader_ver_9_alph.Prelude.Dict.{Dict, lookup, insert}
use crypto_trader_ver_9_alph.Prelude.Float.{FloatOps, decimal, max}
use crypto_trader_ver_9_alph.Prelude.Text.{TextOps}
use crypto_trader_ver_9_alph.Lifecycle.{Candidate, text_or}
use crypto_trader_ver_9_alph.Lifecycle.Basket.{auto_promote}

-- `range(start, stop, step)`, on fuel; `stop` is enough for a positive step
unfoldable pub range_on : ℕ → ℕ → ℕ → ℕ → List ℕ
range_on zero start stop step = []
range_on (suc fuel) start stop step =
    let rest = range_on fuel (start + step) stop step in if ltb start stop then start ∷ rest else []

abbrev pub at_least_one : ℕ → ℕ
at_least_one n = if ltb n 1 then 1 else n

-- `_chunk` of a coordinator with the batch size given to it
unfoldable pub chunk : {A : Type 0} → ℕ → List A → List (List A)
chunk batch_size items =
    let size = at_least_one batch_size in
    map (λ index. take size (drop index items)) (range_on (length items) 0 (length items) size)

pub record ValidationReport (F : Type 0) : Type 0 where
  pub walk_forward_passed : Bool
  pub monte_carlo_passed : Bool
  pub perturbation_passed : Bool
  pub cross_symbol_passed : Bool
  pub evidence_robustness : Option F
  pub cross_symbol_mean : Option F
  pub monte_carlo_score : Option F
  pub stability_score : Option F

-- A candidate with the report that `process_batch` stores in it.
pub record Validated (F : Type 0) : Type 0 where
  pub candidate : Candidate F
  pub validation : ValidationReport F

pub record WorkerBatchResult (F : Type 0) : Type 0 where
  pub processed : ℕ
  pub promoted : ℕ
  pub failed : ℕ
  pub errors : List String
  pub candidates : List (Validated F)

pub data Attempted (A : Type 0) : Type 0 where
  returned : A → Attempted A
  raised : String → Attempted A

-- What a worker calls; `S` is the registry.
pub record Worker (F S : Type 0) : Type 0 where
  pub validate_candidate : Candidate F → Attempted (ValidationReport F)
  pub upsert_candidate : Validated F → S → Option String × S

module _ {F : Type 0} ⦃o : FloatOps F⦄ ⦃t : TextOps⦄ where
  abbrev pub no_result : WorkerBatchResult F
  no_result = record { processed = 0; promoted = 0; failed = 0; errors = []; candidates = [] }

  -- `float(value or 0.0)`
  abbrev pub number : Option F → F
  number v = or_else v (decimal 0 0)

  -- the candidate with its report merged in, promoted
  unfoldable pub merge_validation : Candidate F → ValidationReport F → Validated F
  merge_validation c v =
      let merged : Candidate F = record c {
        validation_passed =
            v.walk_forward_passed && v.monte_carlo_passed && v.perturbation_passed
            && v.cross_symbol_passed;
        robustness_score = some (
            max
              (max
                (max (max (number c.robustness_score) (number v.evidence_robustness))
                  (number v.cross_symbol_mean))
                (number v.monte_carlo_score))
              (number v.stability_score));
      } in
      record { candidate = auto_promote merged none; validation = v }

  abbrev pub add_error : String → String → WorkerBatchResult F → WorkerBatchResult F
  add_error strategy_id e b = record b {
    processed = b.processed + 1;
    failed = b.failed + 1;
    errors = b.errors ++ str_append strategy_id (str_append ": " e) ∷ [];
  }

  abbrev pub add_candidate : Validated F → WorkerBatchResult F → WorkerBatchResult F
  add_candidate c b = record b {
    processed = b.processed + 1;
    promoted = b.promoted + 1;
    candidates = b.candidates ++ c ∷ [];
  }

  module _ {S : Type 0} (worker : Worker F S) where
    -- one round of the loop of `process_batch`
    unfoldable pub process_candidate :
        Candidate F → WorkerBatchResult F × S → WorkerBatchResult F × S
    process_candidate c (b, s) =
        let name = text_or "unknown" (some c.strategy_id) in
        elim (worker.validate_candidate c) [
          | raised e ↦ (add_error name e b, s)
          | returned v ↦
              let merged = merge_validation c v in
              let (error, s') = worker.upsert_candidate merged s in
              elim error [ some e ↦ (add_error name e b, s') | none ↦ (add_candidate merged b, s') ]
        ]

    unfoldable pub process_from :
        List (Candidate F) → WorkerBatchResult F × S → WorkerBatchResult F × S
    process_from [] bs = bs
    process_from (c ∷ batch) bs = process_from batch (process_candidate c bs)

    unfoldable pub process_batch : List (Candidate F) → S → WorkerBatchResult F × S
    process_batch batch s = process_from batch (no_result, s)

-- `max(0, int(raw))`, where `none` stands for a value that does not convert
abbrev pub quota_of : ℕ → Option ℤ → ℕ
quota_of default none = default
quota_of default (some (pos n)) = n
quota_of default (some (negsuc n)) = 0

unfoldable pub normalize_quota_map : Dict (Option ℤ) → List String → ℕ → Dict ℕ → Dict ℕ
normalize_quota_map source [] default normalized = normalized
normalize_quota_map source (item ∷ items) default normalized =
    normalize_quota_map source items default (
      insert item (quota_of default (or_else (lookup item source) (some (pos default)))) normalized)

pub record PlanRow : Type 0 where
  pub family : String
  pub symbol : String
  pub count : ℕ

abbrev pub smaller : ℕ → ℕ → ℕ
smaller a b = if ltb b a then b else a

-- the count of a row: the smallest of the cap and the two limits
abbrev pub row_count : ℕ → Dict ℕ → Dict ℕ → String → String → ℕ
row_count cap family_limits symbol_limits family symbol =
    smaller (smaller cap (or_else (lookup family family_limits) cap))
      (or_else (lookup symbol symbol_limits) cap)

abbrev pub add_row : String → String → ℕ → List PlanRow → List PlanRow
add_row family symbol count plan =
    if leb count 0 then plan else record { family = family; symbol = symbol; count = count } ∷ plan

unfoldable pub rows_of_family : ℕ → Dict ℕ → Dict ℕ → String → List String → List PlanRow
rows_of_family cap fs ss family [] = []
rows_of_family cap fs ss family (symbol ∷ symbols) =
    add_row family symbol (row_count cap fs ss family symbol)
      (rows_of_family cap fs ss family symbols)

unfoldable pub rows : ℕ → Dict ℕ → Dict ℕ → List String → List String → List PlanRow
rows cap fs ss [] symbols = []
rows cap fs ss (family ∷ families) symbols =
    rows_of_family cap fs ss family symbols ++ rows cap fs ss families symbols

unfoldable pub build_generation_quota_plan :
    ℕ → List String → List String → Dict (Option ℤ) → Dict (Option ℤ) → List PlanRow
build_generation_quota_plan iterations families symbols family_quota symbol_quota =
    let cap = at_least_one iterations in
    rows cap (normalize_quota_map family_quota families cap [])
      (normalize_quota_map symbol_quota symbols cap []) families symbols
