-- ===== src/Broker/Keys.antt =====
-- Which orders of a batch find a fill by their key.
use crypto_trader_ver_9_alph.Prelude.{
  ◌≡◌, refl, ap, ◌∙◌, inl, inr, Bool, true, false, not, List, [], ◌∷◌, map, is_some, select, All,
  arith, Bool-cases, if◌then◌else◌,
}
use crypto_trader_ver_9_alph.Prelude.Float.{FloatOps}
use crypto_trader_ver_9_alph.Broker.{OrderRequest, ExecutionResult, BrokerOps, has_key}
use crypto_trader_ver_9_alph.Broker.Telemetry.{fill_for}
use crypto_trader_ver_9_alph.Broker.Submit.{PaperBroker, fill_of, is_refused}

-- Some element passes the test.
abbrev any_of : {A : Type 0} → (A → Bool) → List A → Bool
any_of p [] = false
any_of p (x ∷ xs) = if p x then true else any_of p xs

pub All-map :
    {A : Type 0} (P Q : A → Type 0) → ((x : A) → P x → Q x) → (xs : List A) → All P xs → All Q xs
All-map P Q f [] h = tt
All-map P Q f (x ∷ xs) h = (f x h.0, All-map P Q f xs h.1)

module _ {F : Type 0} ⦃o : FloatOps F⦄ (ops : BrokerOps F) (broker : PaperBroker F) where
  abbrev pub accepted_orders : List (OrderRequest F) → List (OrderRequest F)
  accepted_orders = select (λ r. not (is_refused ops broker r))

  -- An order finds its own fill, and orders with one key are answered alike.
  abbrev pub KeysAgree : List (OrderRequest F) → Type 0
  KeysAgree orders =
      All
        (λ r.
          (has_key r (fill_of ops r) ≡ true)
          × All
              (λ s.
                has_key r (fill_of ops s) ≡ true
                → is_refused ops broker s ≡ is_refused ops broker r)
              orders)
        orders

  fill_for-any :
      (r : OrderRequest F) (fs : List (ExecutionResult F))
      → is_some (fill_for r fs) ≡ any_of (has_key r) fs
  unfolding fill_for
  fill_for-any r [] = refl
  fill_for-any r (f ∷ fs) = ground (arith, fill_for-any r fs)

  refused-unfilled :
      (r : OrderRequest F) (rs : List (OrderRequest F))
      → is_refused ops broker r ≡ true
      → All
          (λ s.
            has_key r (fill_of ops s) ≡ true → is_refused ops broker s ≡ is_refused ops broker r)
          rs
      → any_of (has_key r) (map (fill_of ops) (accepted_orders rs)) ≡ false
  refused-unfilled r [] q h = refl
  refused-unfilled r (s ∷ rs) q h = elim (Bool-cases (is_refused ops broker s)) [
    | inl e ↦ rw e (refused-unfilled r rs q h.1)
    | inr e ↦ elim (Bool-cases (has_key r (fill_of ops s))) [
      | inl k ↦ ground (arith, h.0 k)
      | inr k ↦ rw e rw k (refused-unfilled r rs q h.1)
    ]
  ]

  accepted-grow :
      (r s : OrderRequest F) (rs : List (OrderRequest F))
      → any_of (has_key r) (map (fill_of ops) (accepted_orders rs)) ≡ true
      → any_of (has_key r) (map (fill_of ops) (accepted_orders (s ∷ rs))) ≡ true
  accepted-grow r s rs h = elim (Bool-cases (is_refused ops broker s)) [
    | inl e ↦ rw e h
    | inr e ↦ rw e (ground (arith, h))
  ]

  -- Every order that is not refused finds a fill.
  pub accepted-filled :
      (rs : List (OrderRequest F))
      → All (λ r. has_key r (fill_of ops r) ≡ true) rs
      → All
          (λ r.
            is_refused ops broker r ≡ false
            → any_of (has_key r) (map (fill_of ops) (accepted_orders rs)) ≡ true)
          rs
  accepted-filled [] h = tt
  accepted-filled (s ∷ rs) h = (
    λ e. rw e (ground (arith, h.0)),
    All-map
        (λ r.
          is_refused ops broker r ≡ false
          → any_of (has_key r) (map (fill_of ops) (accepted_orders rs)) ≡ true)
        (λ r.
          is_refused ops broker r ≡ false
          → any_of (has_key r) (map (fill_of ops) (accepted_orders (s ∷ rs))) ≡ true)
        (λ r f e. accepted-grow r s rs (f e)) rs (accepted-filled rs h.1),
  )

  -- An order finds a fill exactly where it is not refused.
  pub filled_lem :
      (orders rs : List (OrderRequest F))
      → All
          (λ r.
            (has_key r (fill_of ops r) ≡ true)
            × All
                (λ s.
                  has_key r (fill_of ops s) ≡ true
                  → is_refused ops broker s ≡ is_refused ops broker r)
                orders)
          rs
      → All
          (λ r.
            is_refused ops broker r ≡ false
            → any_of (has_key r) (map (fill_of ops) (accepted_orders orders)) ≡ true)
          rs
      → map (λ r. is_some (fill_for r (map (fill_of ops) (accepted_orders orders)))) rs
        ≡ map (λ r. not (is_refused ops broker r)) rs
  filled_lem orders [] h k = refl
  filled_lem orders (r ∷ rs) h k =
      let fs = map (fill_of ops) (accepted_orders orders) in
      let own : is_some (fill_for r fs) ≡ not (is_refused ops broker r) =
        elim (Bool-cases (is_refused ops broker r)) [
          | inl e ↦ rw e (fill_for-any r fs ∙ refused-unfilled r orders e h.0.1)
          | inr e ↦ rw e (fill_for-any r fs ∙ k.0 e)
        ] in
      rw own (ap (λ bs. not (is_refused ops broker r) ∷ bs) (filled_lem orders rs h.1 k.1))
