-- ===== src/Execution/Retry/Attempts.antt =====
-- Which attempt of a supervised call decides its result.
use crypto_trader_ver_9_alph.Prelude.{ℕ, zero, suc, ◌+◌, ◌≡◌, refl, ap, Option, some, arith, String}
use crypto_trader_ver_9_alph.Prelude.Float.{FloatOps, decimal, mul}
use crypto_trader_ver_9_alph.Execution.Order.{Result}
use crypto_trader_ver_9_alph.Execution.Retry.{
  Attempt, returned, raised, execute_from, here, next, Ends, success, exhausted,
}

module _ {F A S : Type 0} ⦃o : FloatOps F⦄ (operation : S → Attempt A × S) (sleep : F → S → S)
    (base_delay : F) where
  Ends-next :
      (n a : ℕ) (e : Option String) (s s' : S) (x : String) {r : Result A × S}
      → operation s ≡ (raised x, s')
      → Ends operation sleep base_delay n
          (a + 1)
          (some x)
          (sleep (mul base_delay (decimal a 0)) s')
          r
      → Ends operation sleep base_delay (suc n) a e s r
  Ends-next n a e s s' x q (success k e' t t' v lt f h) =
      success (suc k) e' t t' v (omega arith) (next k a e s s' x q f) h
  Ends-next n a e s s' x q (exhausted e' t f) = exhausted e' t (next n a e s s' x q f)

  step_result :
      (n a : ℕ) (e : Option String) (s : S) (r : Attempt A)
      → (operation s).0 ≡ r
      → ((x : String)
          → Ends operation sleep base_delay n
              (a + 1)
              (some x)
              (sleep (mul base_delay (decimal a 0)) (operation s).1)
              (execute_from operation sleep base_delay n
                (a + 1)
                (some x)
                (sleep (mul base_delay (decimal a 0)) (operation s).1)))
      → Ends operation sleep base_delay
          (suc n)
          a
          e
          s
          (execute_from operation sleep base_delay (suc n) a e s)
  unfolding execute_from
  step_result n a e s (returned v) q ih =
      rw (q, execute_from)
        (success 0 e s (operation s).1 v (omega arith) (here a e s)
          (ap (λ r. (r, (operation s).1)) q))
  step_result n a e s (raised x) q ih =
      rw (q, execute_from)
        (Ends-next n a e s (operation s).1 x (ap (λ r. (r, (operation s).1)) q) (ih x))

  -- A supervised call ends in one of two ways: after fewer failed attempts than there are rounds
  -- one attempt returns, and its value and state are the result; or every round has failed and
  -- the result is `RuntimeError` with the last exception. Pauses follow the failed attempts only,
  -- the pause after attempt number i being the base delay times i.
  pub execute_from-Ends :
      (rounds a : ℕ) (e : Option String) (s : S)
      → Ends operation sleep base_delay rounds a e s
          (execute_from operation sleep base_delay rounds a e s)
  unfolding execute_from
  execute_from-Ends zero a e s = exhausted e s (here a e s)
  execute_from-Ends (suc n) a e s = step_result n a e s (operation s).0 refl (λ x.
      execute_from-Ends n (a + 1) (some x) (sleep (mul base_delay (decimal a 0)) (operation s).1))
