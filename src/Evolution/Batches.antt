-- ===== src/Evolution/Batches.antt =====
-- The split into batches, and the counts of a worker.
use crypto_trader_ver_9_alph.Prelude.{
  ℕ, zero, suc, ◌+◌, ◌≤◌, ◌≡◌, refl, sym, ap, ◌∙◌, ◌⊎◌, inl, inr, some, List, [], ◌∷◌, ◌++◌, map,
  String, length, length-append, length-drop, take, drop, take-drop, length-take-le, All, arith,
  ltb, Option-cases, str_append, Bool-cases,
}
use crypto_trader_ver_9_alph.Prelude.Float.{FloatOps}
use crypto_trader_ver_9_alph.Prelude.Text.{TextOps}
use crypto_trader_ver_9_alph.Lifecycle.{Candidate, text_or}
use crypto_trader_ver_9_alph.Evolution.{
  range_on, at_least_one, chunk, Attempted, returned, raised, WorkerBatchResult, Worker, Validated,
  no_result, add_error, add_candidate, process_candidate, process_from, process_batch,
  merge_validation,
}

module _ {A : Type 0} where
  abbrev pub concat : List (List A) → List A
  concat [] = []
  concat (xs ∷ xss) = xs ++ concat xss

  drop-nil : (n : ℕ) → drop {A = A} n [] ≡ []
  drop-nil zero = refl
  drop-nil (suc n) = refl

  drop-drop : (m n : ℕ) (xs : List A) → drop n (drop m xs) ≡ drop (m + n) xs
  drop-drop zero n xs = let e : n ≡ 0 + n = omega arith in ap (λ k. drop k xs) e
  drop-drop (suc m) n [] = drop-nil n ∙ sym (drop-nil (suc m + n))
  drop-drop (suc m) n (x ∷ xs) =
      let e : suc (m + n) ≡ suc m + n = omega arith in
      drop-drop m n xs ∙ ap (λ k. drop k (x ∷ xs)) e

  drop_all : (n : ℕ) (xs : List A) → length xs ≤ n → drop n xs ≡ []
  drop_all zero [] h = refl
  drop_all zero (x ∷ xs) h = absurd (omega arith)
  drop_all (suc n) [] h = refl
  drop_all (suc n) (x ∷ xs) h = drop_all n xs (omega arith)

  -- The chunks from some index on are together the items from there on.
  concat-range :
      (fuel index size : ℕ) (items : List A)
      → 1 ≤ size
      → length items ≤ index + fuel
      → concat (map (λ i. take size (drop i items)) (range_on fuel index (length items) size))
        ≡ drop index items
  unfolding range_on
  concat-range zero index size items h f = sym (drop_all index items (omega arith))
  concat-range (suc fuel) index size items h f = elim (Bool-cases (ltb index (length items))) [
    | inr e ↦ rw (e, range_on) (sym (drop_all index items (ground arith)))
    | inl e ↦
        rw (e, range_on)
          (ap (λ ys. take size (drop index items) ++ ys)
              (concat-range fuel (index + size) size items h (omega arith)
                ∙ sym (drop-drop index size items))
            ∙ take-drop size (drop index items))
  ]

  -- A batch of at most some size, and not empty.
  abbrev pub IsBatch : ℕ → List A → Type 0
  IsBatch size batch = (length batch ≤ size) × (1 ≤ length batch)

  length-take : (n : ℕ) (xs : List A) → 1 ≤ n → 1 ≤ length xs → 1 ≤ length (take n xs)
  length-take zero xs h k = absurd (omega arith)
  length-take (suc n) [] h k = absurd (omega arith)
  length-take (suc n) (x ∷ xs) h k = omega arith

  range-IsBatch :
      (fuel index size : ℕ) (items : List A)
      → 1 ≤ size
      → All
          (IsBatch size)
          (map (λ i. take size (drop i items)) (range_on fuel index (length items) size))
  unfolding range_on
  range-IsBatch zero index size items h = tt
  range-IsBatch (suc fuel) index size items h = elim (Bool-cases (ltb index (length items))) [
    | inr e ↦ rw (e, range_on) tt
    | inl e ↦
        let p : 1 ≤ length (drop index items) = ground (arith, length-drop index items) in
        rw (e, range_on)
          (
            (length-take-le size (drop index items), length-take size (drop index items) h p),
            range-IsBatch fuel (index + size) size items h,
          )
  ]

  -- The batches are together the items, in their order, and each has at least one item and at
  -- most the batch size, a batch size of 0 being taken as 1.
  pub chunk_lem :
      (batch_size : ℕ) (items : List A)
      → (concat (chunk batch_size items) ≡ items)
        × All (IsBatch (at_least_one batch_size)) (chunk batch_size items)
  unfolding chunk
  chunk_lem batch_size items =
      let h : 1 ≤ at_least_one batch_size = ground arith in
      (
        concat-range (length items) 0 (at_least_one batch_size) items h (omega arith),
        range-IsBatch (length items) 0 (at_least_one batch_size) items h,
      )

module _ {F S : Type 0} ⦃o : FloatOps F⦄ ⦃t : TextOps⦄ (worker : Worker F S) where
  -- The counts of a result say what its lists hold, and every candidate was promoted or failed.
  abbrev pub IsCounted : WorkerBatchResult F → Type 0
  IsCounted b =
      (b.promoted ≡ length b.candidates)
      × (b.failed ≡ length b.errors)
      × (b.processed ≡ b.promoted + b.failed)

  add_error-IsCounted :
      (name e : String) (b : WorkerBatchResult F)
      → IsCounted b
      → IsCounted (add_error name e b) × ((add_error name e b).processed ≡ b.processed + 1)
  add_error-IsCounted name e b h =
      let n = length-append b.errors (str_append name (str_append ": " e) ∷ []) in
      ((h.0, omega (arith, n, h.1), omega (arith, h.2)), refl)

  add_candidate-IsCounted :
      (v : Validated F) (b : WorkerBatchResult F)
      → IsCounted b
      → IsCounted (add_candidate v b) × ((add_candidate v b).processed ≡ b.processed + 1)
  add_candidate-IsCounted v b h =
      let n = length-append b.candidates (v ∷ []) in
      ((omega (arith, n, h.0), h.1, omega (arith, h.2)), refl)

  Attempted-cases :
      {A : Type 0} (a : Attempted A)
      → ((x : A) × (a ≡ returned x)) ⊎ ((e : String) × (a ≡ raised e))
  Attempted-cases (returned x) = inl (x, refl)
  Attempted-cases (raised e) = inr (e, refl)

  pub process_candidate-IsCounted :
      (c : Candidate F) (b : WorkerBatchResult F) (s : S)
      → IsCounted b
      → let r = (process_candidate worker c (b, s)).0 in
        IsCounted r × (r.processed ≡ b.processed + 1)
  unfolding process_candidate
  process_candidate-IsCounted c b s h =
      let name = text_or "unknown" (some c.strategy_id) in
      elim (Attempted-cases (worker.validate_candidate c)) [
        | inr (e, p) ↦ rw (p, process_candidate) (add_error-IsCounted name e b h)
        | inl (v, p) ↦ elim (Option-cases (worker.upsert_candidate (merge_validation c v) s).0) [
          | inl q ↦
              rw (p, process_candidate, q) (add_candidate-IsCounted (merge_validation c v) b h)
          | inr (e, q) ↦ rw (p, process_candidate, q) (add_error-IsCounted name e b h)
        ]
      ]

  process_from-IsCounted :
      (batch : List (Candidate F)) (b : WorkerBatchResult F) (s : S)
      → IsCounted b
      → let r = (process_from worker batch (b, s)).0 in
        IsCounted r × (r.processed ≡ b.processed + length batch)
  unfolding process_from
  process_from-IsCounted [] b s h = (h, omega arith)
  process_from-IsCounted (c ∷ batch) b s h =
      let (k, e) = process_candidate-IsCounted c b s h in
      let (b', s') = process_candidate worker c (b, s) in
      let (k', e') = process_from-IsCounted batch b' s' k in (k', omega (arith, e, e'))

  -- A worker processes every candidate of its batch, whatever the validation and the registry
  -- raise: each is counted once, as promoted with its record in the result or as failed with its
  -- text.
  process_batch-IsCounted :
      (batch : List (Candidate F)) (s : S)
      → let r = (process_batch worker batch s).0 in IsCounted r × (r.processed ≡ length batch)
  unfolding process_batch
  process_batch-IsCounted batch s =
      let (k, e) = process_from-IsCounted batch no_result s (refl, refl, refl) in
      (k, omega (arith, e))
