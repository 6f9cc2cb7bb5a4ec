-- ===== src/Research/Search/Choices.antt =====
-- The combinations of a parameter space are the choices of one value for each parameter.
use crypto_trader_ver_9_alph.Prelude.{
  ◌≡◌, refl, ap, sym, subst, ◌⊎◌, inl, inr, List, [], ◌∷◌, ◌++◌, map, String, All,
}
use crypto_trader_ver_9_alph.Prelude.Dict.{Dict, keys, values}
use crypto_trader_ver_9_alph.Research.Search.{with_each, product, zip, parameter_combinations}

module _ {A : Type 0} where
  abbrev pub Member : A → List A → Type 0
  Member x [] = ⊥
  Member x (y ∷ ys) = (x ≡ y) ⊎ Member x ys

  Member-append_left : (x : A) (xs ys : List A) → Member x xs → Member x (xs ++ ys)
  Member-append_left x (z ∷ xs) ys (inl e) = inl e
  Member-append_left x (z ∷ xs) ys (inr m) = inr (Member-append_left x xs ys m)
  Member-append_left x [] ys m = absurd m

  Member-append_right : (x : A) (xs ys : List A) → Member x ys → Member x (xs ++ ys)
  Member-append_right x [] ys m = m
  Member-append_right x (z ∷ xs) ys m = inr (Member-append_right x xs ys m)

  Member-append : (x : A) (xs ys : List A) → Member x (xs ++ ys) → Member x xs ⊎ Member x ys
  Member-append x [] ys m = inr m
  Member-append x (z ∷ xs) ys (inl e) = inl (inl e)
  Member-append x (z ∷ xs) ys (inr m) = elim (Member-append x xs ys m) [
    | inl l ↦ inl (inr l)
    | inr r ↦ inr r
  ]

  pub All-Member : (P : A → Type 0) (xs : List A) → All P xs → (x : A) → Member x xs → P x
  All-Member P (y ∷ ys) h x (inl e) = subst P (sym e) (h.0)
  All-Member P (y ∷ ys) h x (inr m) = All-Member P ys h.1 x m
  All-Member P [] h x m = absurd m

  pub Member-All : (P : A → Type 0) (xs : List A) → ((x : A) → Member x xs → P x) → All P xs
  Member-All P [] h = tt
  Member-All P (x ∷ xs) h = (h x (inl refl), Member-All P xs (λ y m. h y (inr m)))

module _ {A B : Type 0} (f : A → B) where
  pub Member-map : (x : A) (xs : List A) → Member x xs → Member (f x) (map f xs)
  Member-map x (y ∷ ys) (inl e) = inl (ap f e)
  Member-map x (y ∷ ys) (inr m) = inr (Member-map x ys m)
  Member-map x [] m = absurd m

  pub Member-of_map :
      (y : B) (xs : List A) → Member y (map f xs) → (x : A) × Member x xs × (y ≡ f x)
  Member-of_map y (x ∷ xs) (inl e) = (x, inl refl, e)
  Member-of_map y (x ∷ xs) (inr m) = let (z, n, e) = Member-of_map y xs m in (z, inr n, e)
  Member-of_map y [] m = absurd m

module _ {V : Type 0} where
  -- A choice of one of its values for each parameter, in the order of the space.
  abbrev pub Chooses : Dict (List V) → Dict V → Type 0
  Chooses [] [] = Unit
  Chooses [] (x ∷ p) = ⊥
  Chooses (x ∷ space) [] = ⊥
  Chooses ((k, vs) ∷ space) ((j, v) ∷ p) = (j ≡ k) × Member v vs × Chooses space p

  with_each-Member :
      (v : V) (xs : List V) (vs : List V) (rest : List (List V))
      → Member v vs
      → Member xs rest
      → Member (v ∷ xs) (with_each vs rest)
  with_each-Member v xs (w ∷ vs) rest (inl e) m =
      Member-append_left (v ∷ xs) (map (λ ys. w ∷ ys) rest) (with_each vs rest) (
        subst (λ z. Member (v ∷ xs) (map (λ ys. z ∷ ys) rest)) e
          (Member-map (λ ys. v ∷ ys) xs rest m))
  with_each-Member v xs (w ∷ vs) rest (inr n) m =
      Member-append_right (v ∷ xs) (map (λ ys. w ∷ ys) rest) (with_each vs rest)
        (with_each-Member v xs vs rest n m)
  with_each-Member v xs [] rest n m = absurd n

  Member-of_with_each :
      (zs : List V) (vs : List V) (rest : List (List V))
      → Member zs (with_each vs rest)
      → (v : V) × (xs : List V) × Member v vs × Member xs rest × (zs ≡ v ∷ xs)
  Member-of_with_each zs (w ∷ vs) rest m =
      elim (Member-append zs (map (λ ys. w ∷ ys) rest) (with_each vs rest) m) [
        | inl l ↦ let (xs, n, e) = Member-of_map (λ ys. w ∷ ys) zs rest l in (w, xs, inl refl, n, e)
        | inr r ↦ let (v, xs, n, k, e) = Member-of_with_each zs vs rest r in (v, xs, inr n, k, e)
      ]
  Member-of_with_each zs [] rest m = absurd m

  -- The combinations are the choices.
  product-Chooses :
      (space : Dict (List V)) (xs : List V)
      → Member xs (product (values space))
      → Chooses space (zip (keys space) xs)
  unfolding product
  product-Chooses [] xs (inl e) = subst (λ ys. Chooses [] (zip [] ys)) (sym e) tt
  product-Chooses [] xs (inr m) = absurd m
  product-Chooses ((k, vs) ∷ space) xs m =
      let (v, ys, n, l, e) = Member-of_with_each xs vs (product (values space)) m in
      subst (λ zs. Chooses ((k, vs) ∷ space) (zip (k ∷ keys space) zs)) (sym e)
        (refl, n, product-Chooses space ys l)

  Chooses-product :
      (space : Dict (List V)) (p : Dict V)
      → Chooses space p
      → (xs : List V) × Member xs (product (values space)) × (p ≡ zip (keys space) xs)
  unfolding product
  Chooses-product [] [] h = ([], inl refl, refl)
  Chooses-product [] (x ∷ p) h = absurd h
  Chooses-product (x ∷ space) [] h = absurd h
  Chooses-product ((k, vs) ∷ space) ((j, v) ∷ p) h =
      let (xs, m, e) = Chooses-product space p h.2 in
      (v ∷ xs, with_each-Member v xs vs (product (values space)) h.1 m, cc (h.0, e))

  pub combinations-Chooses :
      (space : Dict (List V)) (p : Dict V)
      → Member p (parameter_combinations space)
      → Chooses space p
  unfolding parameter_combinations
  combinations-Chooses space p m =
      let (xs, n, e) = Member-of_map (zip (keys space)) p (product (values space)) m in
      subst (Chooses space) (sym e) (product-Chooses space xs n)

  pub Chooses-combinations :
      (space : Dict (List V)) (p : Dict V)
      → Chooses space p
      → Member p (parameter_combinations space)
  unfolding parameter_combinations
  Chooses-combinations space p h =
      let (xs, m, e) = Chooses-product space p h in
      subst (λ q. Member q (map (zip (keys space)) (product (values space)))) (sym e)
        (Member-map (zip (keys space)) xs (product (values space)) m)

  -- There is a choice, or a parameter without values.
  pub choice_or_none :
      (space : Dict (List V))
      → ((p : Dict V) × Chooses space p) ⊎ ((k : String) × Member (k, []) space)
  choice_or_none [] = inl ([], tt)
  choice_or_none ((k, []) ∷ space) = inr (k, inl refl)
  choice_or_none ((k, v ∷ vs) ∷ space) = elim (choice_or_none space) [
    | inl (p, h) ↦ inl ((k, v) ∷ p, (refl, inl refl, h))
    | inr (j, m) ↦ inr (j, inr m)
  ]

  pub no_choice :
      (space : Dict (List V)) (k : String)
      → Member (k, []) space
      → (p : Dict V) → Chooses space p
      → ⊥
  no_choice ((j, vs) ∷ space) k (inl e) ((i, v) ∷ p) h =
      subst (λ (ws : List V). Member v ws) (sym (ap (λ x. x.1) e)) (h.1)
  no_choice ((j, vs) ∷ space) k (inr m) ((i, v) ∷ p) h = no_choice space k m p h.2
  no_choice ((j, vs) ∷ space) k m [] h = h
  no_choice [] k m p h = m
