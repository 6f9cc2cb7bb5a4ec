-- ===== src/Runtime/Supervision/Latency.antt =====
-- The rolling window of the supervision.
use crypto_trader_ver_9_alph.Prelude.{
  ℕ, zero, suc, ◌-◌, ◌≤◌, ◌≡◌, refl, ap, sym, ◌∙◌, List, [], ◌∷◌, ◌++◌, length, length-append, drop,
  arith,
}
use crypto_trader_ver_9_alph.Prelude.Float.{FloatOps}
use crypto_trader_ver_9_alph.Runtime.Supervision.{
  RuntimeSnapshot, RuntimeSupervisionLayer, last_n, supervise,
}

module _ {A : Type 0} where
  drop-append : (k : ℕ) (xs ys : List A) → k ≤ length xs → drop k (xs ++ ys) ≡ drop k xs ++ ys
  drop-append zero xs ys h = refl
  drop-append (suc k) [] ys h = absurd (omega arith)
  drop-append (suc k) (x ∷ xs) ys h = drop-append k xs ys (omega arith)

  -- With one element more at the end, the window has one element less of the rest.
  last_n-snoc :
      (n : ℕ) (xs : List A) (x : A)
      → last_n (suc (suc n)) (xs ++ x ∷ []) ≡ last_n (suc n) xs ++ x ∷ []
  unfolding last_n
  last_n-snoc n xs x =
      let e : length (xs ++ x ∷ []) - suc (suc n) ≡ length xs - suc n =
        omega (arith, length-append xs (x ∷ [])) in
      ap (λ k. drop k (xs ++ x ∷ [])) e ∙ drop-append (length xs - suc n) xs (x ∷ []) (omega arith)

module _ {F : Type 0} ⦃o : FloatOps F⦄ (mean : List F → F) where
  -- The supervision forgets: two layers with the same thresholds whose histories end with the same
  -- 24 latencies, over two snapshots of one runtime, give the same snapshot and the same
  -- result at the next latency, however long the histories were and whatever their earlier
  -- latencies and the statuses stored so far (a halt included) were.
  pub supervise_window :
      (a b : RuntimeSupervisionLayer F) (x y : RuntimeSnapshot) (latency : F)
      → a.warning_latency_ms ≡ b.warning_latency_ms
      → a.critical_latency_ms ≡ b.critical_latency_ms
      → last_n 24 a.latency_history ≡ last_n 24 b.latency_history
      → x.runtime_id ≡ y.runtime_id
      → ((supervise mean a x latency).1 ≡ (supervise mean b y latency).1)
        × ((supervise mean a x latency).2 ≡ (supervise mean b y latency).2)
  unfolding supervise
  supervise_window a b x y latency p q h r =
      let e : last_n 25 (a.latency_history ++ latency ∷ [])
          ≡ last_n 25 (b.latency_history ++ latency ∷ []) =
        last_n-snoc 23 a.latency_history latency
        ∙ ap (λ xs. xs ++ latency ∷ []) h
        ∙ sym (last_n-snoc 23 b.latency_history latency) in
      (cc (p, q, e, r), cc (p, q, e, r))
