-- ===== src/Research/Search/Sorting.antt =====
-- The sort of the grid search and of the ranking.
use mathlib.Core.List.{Permᴰ}
use mathlib.Core.List.Permᴰ
use crypto_trader_ver_9_alph.Prelude.{
  ◌≡◌, refl, ap, ◌∙◌, false, List, [], ◌∷◌, map, All, Bool-cases, inl, inr,
}
use crypto_trader_ver_9_alph.Prelude.Float.{FloatOps, TotalOrder, lt}
use crypto_trader_ver_9_alph.Research.Search.{insert_descending, sort_descending}

module _ {F A : Type 0} ⦃o : FloatOps F⦄ (key : A → F) where
  -- No key of the list is above that of `m`.
  abbrev pub IsAbove : A → List A → Type 0
  IsAbove m = All (λ x. lt (key m) (key x) ≡ false)

  -- No key is above an earlier one.
  abbrev pub IsDescending : List A → Type 0
  IsDescending [] = Unit
  IsDescending (x ∷ xs) = IsAbove x xs × IsDescending xs

  insert-All :
      (P : A → Type 0) (x : A) (ys : List A) → P x → All P ys → All P (insert_descending key x ys)
  unfolding insert_descending
  insert-All P x [] p h = (p, tt)
  insert-All P x (y ∷ ys) p h = elim (Bool-cases (lt (key x) (key y))) [
    | inl e ↦ rw e (h.0, insert-All P x ys p h.1)
    | inr e ↦ rw e (p, h)
  ]

  pub sort-All : (P : A → Type 0) (xs : List A) → All P xs → All P (sort_descending key xs)
  unfolding sort_descending
  sort-All P [] h = tt
  sort-All P (x ∷ xs) h = insert-All P x (sort_descending key xs) h.0 (sort-All P xs h.1)

  All-of_insert :
      (P : A → Type 0) (x : A) (ys : List A) → All P (insert_descending key x ys) → P x × All P ys
  unfolding insert_descending
  All-of_insert P x [] h = (h.0, tt)
  All-of_insert P x (y ∷ ys) h = elim (Bool-cases (lt (key x) (key y))) [
    | inl e ↦
        let k : P y × All P (insert_descending key x ys) = rw e at h in
        let (a, b) = All-of_insert P x ys k.1 in (a, (k.0, b))
    | inr e ↦ rw e at h
  ]

  -- What holds of all of the sorted list holds of all of the list.
  pub All-of_sort : (P : A → Type 0) (xs : List A) → All P (sort_descending key xs) → All P xs
  unfolding sort_descending
  All-of_sort P [] h = tt
  All-of_sort P (x ∷ xs) h =
      let (a, b) = All-of_insert P x (sort_descending key xs) h in (a, All-of_sort P xs b)

  IsAbove-trans :
      TotalOrder F
      → (m n : A) (xs : List A) → lt (key m) (key n) ≡ false
      → IsAbove n xs
      → IsAbove m xs
  IsAbove-trans order m n [] h k = tt
  IsAbove-trans order m n (x ∷ xs) h k =
      (order.not_lt_trans (key m) (key n) (key x) h (k.0), IsAbove-trans order m n xs h k.1)

  insert-IsDescending :
      TotalOrder F
      → (x : A) (ys : List A) → IsDescending ys
      → IsDescending (insert_descending key x ys)
  unfolding insert_descending
  insert-IsDescending order x [] h = (tt, tt)
  insert-IsDescending order x (y ∷ ys) h = elim (Bool-cases (lt (key x) (key y))) [
    | inl e ↦ rw e (
      insert-All (λ z. lt (key y) (key z) ≡ false) x ys (order.lt_asymm (key x) (key y) e) (h.0),
      insert-IsDescending order x ys h.1,
    )
    | inr e ↦ rw e ((e, IsAbove-trans order x y ys e h.0), h)
  ]

  pub sort-IsDescending : TotalOrder F → (xs : List A) → IsDescending (sort_descending key xs)
  unfolding sort_descending
  sort-IsDescending order [] = tt
  sort-IsDescending order (x ∷ xs) =
      insert-IsDescending order x (sort_descending key xs) (sort-IsDescending order xs)

  insert-perm : (x : A) (ys : List A) → Permᴰ (insert_descending key x ys) (x ∷ ys)
  unfolding insert_descending
  insert-perm x [] = Permᴰ.refl (x ∷ [])
  insert-perm x (y ∷ ys) = elim (Bool-cases (lt (key x) (key y))) [
    | inl e ↦ rw e (Permᴰ.trans (Permᴰ.cons refl (insert-perm x ys)) (Permᴰ.swap refl refl))
    | inr e ↦ rw e (Permᴰ.refl (x ∷ y ∷ ys))
  ]

  pub sort-perm : (xs : List A) → Permᴰ (sort_descending key xs) xs
  unfolding sort_descending
  sort-perm [] = Permᴰ.nil
  sort-perm (x ∷ xs) =
      Permᴰ.trans (insert-perm x (sort_descending key xs)) (Permᴰ.cons refl (sort-perm xs))

  map-insert_descending :
      (x : A) (ys : List A)
      → map key (insert_descending key x ys) ≡ insert_descending (λ (a : F). a) (key x) (map key ys)
  unfolding insert_descending
  map-insert_descending x [] = refl
  map-insert_descending x (y ∷ ys) = elim (Bool-cases (lt (key x) (key y))) [
    | inl e ↦ rw e (ap (λ zs. key y ∷ zs) (map-insert_descending x ys))
    | inr e ↦ rw e
  ]

  -- The keys of the sorted list are the sorted keys.
  pub map-sort_descending :
      (xs : List A) → map key (sort_descending key xs) ≡ sort_descending (λ (a : F). a) (map key xs)
  unfolding sort_descending
  map-sort_descending [] = refl
  map-sort_descending (x ∷ xs) =
      map-insert_descending x (sort_descending key xs)
      ∙ ap (insert_descending (λ (a : F). a) (key x)) (map-sort_descending xs)
