-- ===== src/Evolution/Coordinator/Totals.antt =====
-- Sums over lists, numbered lists and lists sorted by index.
use crypto_trader_ver_9_alph.Prelude.{
  ℕ, suc, ◌+◌, ◌*◌, ◌≡◌, refl, ap, ◌∙◌, List, [], ◌∷◌, ◌++◌, length, length-append, All, arith,
}
use crypto_trader_ver_9_alph.Evolution.Batches.{concat}
use crypto_trader_ver_9_alph.Evolution.Coordinator.{
  sum_by, enumerate_from, insert_by_index, sorted_by_index,
}

module _ {A : Type 0} where
  pub sum_by-append : (f : A → ℕ) (xs ys : List A) → sum_by f (xs ++ ys) ≡ sum_by f xs + sum_by f ys
  sum_by-append f [] ys = omega arith
  sum_by-append f (x ∷ xs) ys = omega (arith, sum_by-append f xs ys)

  pub All-append : (P : A → Type 0) (xs ys : List A) → All P xs → All P ys → All P (xs ++ ys)
  All-append P [] ys h k = k
  All-append P (x ∷ xs) ys h k = (h.0, All-append P xs ys h.1 k)

  pub All-parts : (P : A → Type 0) (xs ys : List A) → All P (xs ++ ys) → All P xs × All P ys
  All-parts P [] ys h = (tt, h)
  All-parts P (x ∷ xs) ys h = let (a, b) = All-parts P xs ys h.1 in ((h.0, a), b)

  pub sum_by-concat :
      (n : ℕ) (xss : List (List A))
      → sum_by (λ x. length (x.1)) (enumerate_from n xss) ≡ length (concat xss)
  sum_by-concat n [] = refl
  sum_by-concat n (xs ∷ xss) =
      omega (arith, length-append xs (concat xss), sum_by-concat (n + 1) xss)

  pub weight-enumerate_from :
      (n : ℕ) (xss : List (List A))
      → sum_by (λ x. length (x.1) + 2) (enumerate_from n xss) ≡ length (concat xss) + 2 * length xss
  weight-enumerate_from n [] = refl
  weight-enumerate_from n (xs ∷ xss) =
      omega (arith, length-append xs (concat xss), weight-enumerate_from (n + 1) xss)

  pub length-enumerate_from : (n : ℕ) (xs : List A) → length (enumerate_from n xs) ≡ length xs
  length-enumerate_from n [] = refl
  length-enumerate_from n (x ∷ xs) = ap suc (length-enumerate_from (n + 1) xs)

  pub length-insert_by_index :
      (x : ℕ × A) (ys : List (ℕ × A)) → length (insert_by_index x ys) ≡ suc (length ys)
  unfolding insert_by_index
  length-insert_by_index x [] = refl
  length-insert_by_index x (y ∷ ys) = ground (arith, length-insert_by_index x ys)

  pub length-sorted_by_index : (xs : List (ℕ × A)) → length (sorted_by_index xs) ≡ length xs
  unfolding sorted_by_index
  length-sorted_by_index [] = refl
  length-sorted_by_index (x ∷ xs) =
      length-insert_by_index x (sorted_by_index xs) ∙ ap suc (length-sorted_by_index xs)
