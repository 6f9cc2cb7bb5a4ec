-- ===== src/Execution/Retry.antt =====
-- ver9/execution/retry_policy.py: an operation is tried up to `max_attempts` times, with a pause
-- that grows by the base delay after each failure. The operation is an action on a state `S`; its
-- exceptions are texts. A pause is an action `sleep` on the same state.
pub mod Attempts
use crypto_trader_ver_9_alph.Prelude.{ℕ, zero, suc, ◌+◌, ◌≤◌, ◌≡◌, Option, some, String}
use crypto_trader_ver_9_alph.Prelude.Float.{FloatOps, decimal, mul}
use crypto_trader_ver_9_alph.Execution.Order.{Result, ok, err, retries_exhausted}

pub record RetryPolicyConfig (F : Type 0) : Type 0 where
  pub max_attempts : ℕ
  pub base_delay_seconds : F

abbrev pub default_config : {F : Type 0} ⦃o : FloatOps F⦄ → RetryPolicyConfig F
default_config = record { max_attempts = 5; base_delay_seconds = decimal 1 0 }

-- What a call of the operation gives: a value, or an exception with its text.
pub data Attempt (A : Type 0) : Type 0 where
  returned : A → Attempt A
  raised : String → Attempt A

module _ {F A S : Type 0} ⦃o : FloatOps F⦄ (operation : S → Attempt A × S) (sleep : F → S → S)
    (base_delay : F) where
  -- `for attempt in range(1, max_attempts + 1)`, from some attempt on with some rounds left
  unfoldable pub execute_from : ℕ → ℕ → Option String → S → Result A × S
  execute_from zero attempt last_error s = (err (retries_exhausted last_error), s)
  execute_from (suc rounds) attempt last_error s =
      let (r, s') = operation s in
      elim r [
        | returned a ↦ (ok a, s')
        | raised e ↦
            execute_from rounds (attempt + 1) (some e)
              (sleep (mul base_delay (decimal attempt 0)) s')
      ]

  -- `k` attempts in a row that raise, each with its pause, from one state and last error to
  -- another.
  pub data Failing : ℕ → ℕ → Option String → S → Option String → S → Type 0 where
    here : (a : ℕ) (e : Option String) (s : S) → Failing 0 a e s e s
    next :
        (k a : ℕ) (e : Option String) (s s' : S) (x : String) {e' : Option String} {t : S}
        → operation s ≡ (raised x, s')
        → Failing k (a + 1) (some x) (sleep (mul base_delay (decimal a 0)) s') e' t
        → Failing (suc k) a e s e' t

  -- How a supervised call ends: some attempts raise; then, within the rounds, one returns and its
  -- value is the result, or all the rounds have raised and the last exception is reported.
  pub data Ends (rounds : ℕ) (a : ℕ) (e : Option String) (s : S) : Result A × S → Type 0 where
    success :
        (k : ℕ) (e' : Option String) (t t' : S) (v : A)
        → suc k ≤ rounds
        → Failing k a e s e' t
        → operation t ≡ (returned v, t')
        → Ends rounds a e s (ok v, t')
    exhausted :
        (e' : Option String) (t : S)
        → Failing rounds a e s e' t
        → Ends rounds a e s (err (retries_exhausted e'), t)
