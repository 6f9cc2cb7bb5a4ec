-- ===== src/Execution/Engine/Execute.antt =====
-- The supervised adapter call, as the engine makes it: what it leaves alone, how many calls it may
-- make, and when it succeeds.
use crypto_trader_ver_9_alph.Prelude.{
  ℕ, zero, suc, ◌+◌, ◌≤◌, ◌<◌, ◌≡◌, refl, ◌⊎◌, inl, inr, Option, some, arith, String,
}
use crypto_trader_ver_9_alph.Prelude.Float.{FloatOps, decimal, mul}
use crypto_trader_ver_9_alph.Execution.Order.{ExecutionOrder, Result, ok, err, retries_exhausted}
use crypto_trader_ver_9_alph.Execution.Retry.{Attempt, returned, raised, execute_from}
use crypto_trader_ver_9_alph.Execution.Engine.{Session, call, sleep}

-- What a supervised call may change: calls and pauses only.
pub record Keeps {F : Type 0} (n : ℕ) (s t : Session F) : Type 0 where
  pub order_kept : t.order ≡ s.order
  pub journal_kept : t.journal ≡ s.journal
  pub readings_kept : t.readings ≡ s.readings
  pub calls_bounded : t.calls ≤ s.calls + n

-- A result that is a value, or the exhaustion of the retries.
abbrev pub Supervised : {A : Type 0} → Result A → Type 0
Supervised {A} r = ((a : A) × (r ≡ ok a)) ⊎ ((e : Option String) × (r ≡ err (retries_exhausted e)))

module _ {F : Type 0} ⦃o : FloatOps F⦄ (operation : ℕ → ExecutionOrder F → Attempt (Option String))
    (base : F) where
  abbrev run : ℕ → ℕ → Option String → Session F → Result (Option String) × Session F
  run = execute_from (call operation) sleep base

  step-Keeps :
      (n a : ℕ) (e : Option String) (s : Session F) (r : Attempt (Option String))
      → operation s.calls s.order ≡ r
      → ((x : String)
          → let t = sleep (mul base (decimal a 0)) (record s { calls = s.calls + 1 }) in
            Keeps n t (run n (a + 1) (some x) t).1 × Supervised (run n (a + 1) (some x) t).0)
      → Keeps (suc n) s (run (suc n) a e s).1 × Supervised (run (suc n) a e s).0
  unfolding execute_from
  step-Keeps n a e s (returned v) q ih =
      rw (q, execute_from)
        (
          record {
            order_kept = refl;
            journal_kept = refl;
            readings_kept = refl;
            calls_bounded = omega arith;
          },
          inl (v, refl),
        )
  step-Keeps n a e s (raised x) q ih =
      let t = sleep (mul base (decimal a 0)) (record s { calls = s.calls + 1 }) in
      let h = ih x in
      rw (q, execute_from)
        (
          record {
            order_kept = h.0.order_kept;
            journal_kept = h.0.journal_kept;
            readings_kept = h.0.readings_kept;
            calls_bounded = omega (arith, h.0.calls_bounded);
          },
          h.1,
        )

  pub run-Keeps :
      (n a : ℕ) (e : Option String) (s : Session F)
      → Keeps n s (run n a e s).1 × Supervised (run n a e s).0
  unfolding execute_from
  run-Keeps zero a e s = (
    record {
      order_kept = refl;
      journal_kept = refl;
      readings_kept = refl;
      calls_bounded = omega arith;
    },
    inr (e, refl),
  )
  run-Keeps (suc n) a e s = step-Keeps n a e s (operation s.calls s.order) refl (λ x.
      run-Keeps n (a + 1) (some x)
        (sleep (mul base (decimal a 0)) (record s { calls = s.calls + 1 })))

  abbrev paused : ℕ → Session F → Session F
  paused a s = sleep (mul base (decimal a 0)) (record s { calls = s.calls + 1 })

  step_succeeds :
      (n a : ℕ) (e : Option String) (s : Session F) (k : ℕ) (v : Option String)
      (r : Attempt (Option String))
      → operation s.calls s.order ≡ r
      → operation (s.calls + k) s.order ≡ returned v
      → ((x : String) (j : ℕ)
          → k ≡ suc j
          → (w : Option String) × ((run n (a + 1) (some x) (paused a s)).0 ≡ ok w))
      → (w : Option String) × ((run (suc n) a e s).0 ≡ ok w)
  unfolding execute_from
  step_succeeds n a e s k v (returned w) q h ih = (w, rw (q, execute_from) refl)
  step_succeeds n a e s zero v (raised x) q h ih =
      let c : s.calls + 0 ≡ s.calls = omega arith in
      let h' : operation s.calls s.order ≡ returned v = rw c at h in cc
  step_succeeds n a e s (suc k) v (raised x) q h ih = rw (q, execute_from) (ih x k refl)

  -- Where one of the calls left would return on this order, the supervised call returns.
  pub run_succeeds :
      (n a : ℕ) (e : Option String) (s : Session F) (k : ℕ) (v : Option String)
      → k < n
      → operation (s.calls + k) s.order ≡ returned v
      → (w : Option String) × ((run n a e s).0 ≡ ok w)
  unfolding execute_from
  run_succeeds zero a e s k v h q = absurd (omega arith)
  run_succeeds (suc n) a e s k v h q =
      step_succeeds n a e s k v (operation s.calls s.order) refl q (λ x j c.
        let c' : s.calls + k ≡ s.calls + 1 + j = omega arith in
        run_succeeds n (a + 1) (some x) (paused a s) j v (omega arith) (rw c' at q))
