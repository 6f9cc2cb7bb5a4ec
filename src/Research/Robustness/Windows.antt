-- ===== src/Research/Robustness/Windows.antt =====
-- The windows of the stability validation.
use crypto_trader_ver_9_alph.Prelude.{
  ℕ, zero, suc, ◌+◌, ◌-◌, ◌*◌, ◌/◌, ◌≤◌, ◌≡◌, refl, ap, sym, ◌∙◌, List, [], ◌∷◌, map, length,
  length-map, take, drop, arith, ltb, Bool-cases, inl, inr, All, range_from, length-range_from,
}
use crypto_trader_ver_9_alph.Prelude.Float.{FloatOps, round}
use crypto_trader_ver_9_alph.Evolution.{range_on, at_least_one, chunk}
use crypto_trader_ver_9_alph.Evolution.Batches.{concat, IsBatch, chunk_lem}
use crypto_trader_ver_9_alph.Research.Robustness.{
  SampleOps, windows_from, chunk_size, stability_windows,
}

-- The indices of a range are few enough.
range-length :
    (fuel index stop size : ℕ)
    → 1 ≤ size
    → size * length (range_on fuel index stop size) ≤ (stop - index) + (size - 1)
unfolding range_on
range-length zero index stop size h = grind arith
range-length (suc fuel) index stop size h = elim (Bool-cases (ltb index stop)) [
  | inl e ↦ rw e (grind (arith, range-length fuel (index + size) stop size h, e))
  | inr e ↦ rw e (grind arith)
]

at_most_nine : (s m : ℕ) → 1 ≤ s → s * m ≤ 6 * s + 3 → m ≤ 9
at_most_nine s m h k = elim (Bool-cases (ltb 9 m)) [
  | inl e ↦
      let more : m ≡ 10 + (m - 10) = ground arith in
      let product : s * m ≡ s * 10 + s * (m - 10) = grind (arith, more) in
      absurd (omega (arith, h, k, product))
  | inr e ↦ ground arith
]

nine_at_most : (n m : ℕ) → at_least_one (n / 5) * m ≤ (n - 0) + (at_least_one (n / 5) - 1) → m ≤ 9
nine_at_most n m h = at_most_nine (at_least_one (n / 5)) m (ground arith) (ground arith)

module _ {F : Type 0} ⦃o : FloatOps F⦄ (ops : SampleOps F) where
  with_head : {A : Type 0} (xs : List A) → 1 ≤ length xs → (x : A) × (ys : List A) × (xs ≡ x ∷ ys)
  with_head [] h = absurd (omega arith)
  with_head (x ∷ xs) h = (x, xs, refl)

  windows_from-lem :
      (size : ℕ) (scores : List F) (id : ℕ) (indices : List ℕ)
      → All (IsBatch size) (map (λ i. take size (drop i scores)) indices)
      → (map (λ w. w.score_mean) (windows_from ops size scores id indices)
          ≡ map (λ c. round (ops.mean c) 4) (map (λ i. take size (drop i scores)) indices))
        × (map (λ w. w.window_id) (windows_from ops size scores id indices)
            ≡ range_from id (length indices))
  unfolding windows_from
  windows_from-lem size scores id [] h = (refl, refl)
  windows_from-lem size scores id (i ∷ indices) h =
      let (x, xs, e) = with_head (take size (drop i scores)) h.0.1 in
      let (means, numbers) = windows_from-lem size scores (id + 1) indices h.1 in
      rw (e, windows_from)
        (ap (λ ms. round (ops.mean (x ∷ xs)) 4 ∷ ms) means, ap (λ ns. id ∷ ns) numbers)

  -- The windows of a list of scores have the means of chunks that are together the scores, in
  -- their order, none of them empty; they are numbered from 0 on, and are nine at most.
  pub stability_windows_lem :
      (scores : List F)
      → let ws = stability_windows ops scores in
        let chunks = chunk (length scores / 5) scores in
        (map (λ w. w.score_mean) ws ≡ map (λ c. round (ops.mean c) 4) chunks)
        × (concat chunks ≡ scores)
        × All (IsBatch (chunk_size scores)) chunks
        × (map (λ w. w.window_id) ws ≡ range_from 0 (length ws))
        × (length ws ≤ 9)
  unfolding stability_windows chunk
  stability_windows_lem scores =
      let n = length scores in
      let size = chunk_size scores in
      let indices = range_on n 0 n size in
      let (whole, batches) = chunk_lem (n / 5) scores in
      let (means, numbers) = windows_from-lem size scores 0 indices batches in
      let count : length (windows_from ops size scores 0 indices) ≡ length indices =
        sym (length-map (λ w. w.window_id) (windows_from ops size scores 0 indices))
        ∙ ap length numbers
        ∙ length-range_from 0 (length indices) in
      (
        means,
        whole,
        batches,
        numbers ∙ ap (range_from 0) (sym count),
        rw count (nine_at_most n (length indices) (range-length n 0 n size (ground arith))),
      )
