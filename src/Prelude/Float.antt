-- ===== src/Prelude/Float.antt =====
-- Python's `float`, which the program computes with and does not implement: a type with its
-- operations, taken as an instance by every definition that uses it. Nothing is assumed of the
-- operations but the laws below, where a lemma names them.
use Prim.Native.Nat.{ℕ}
use mathlib.Core.Path.{◌≡◌}
use mathlib.Core.Bool.{Bool, true, false, ◌&&◌}
use mathlib.Core.Option.{Option, none, some}
use mathlib.Core.List.{List, [], ◌∷◌}
use package.crypto_trader_ver_9_alph.Prelude.Tests.{if◌then◌else◌}

pub record FloatOps (F : Type 0) : Type 0 where
  -- the literal m * 10 ^ -e; an `int` n in a float expression is `decimal_op n 0`
  pub decimal_op : ℕ → ℕ → F
  pub neg_op : F → F
  pub add_op : F → F → F
  pub sub_op : F → F → F
  pub mul_op : F → F → F
  pub div_op : F → F → F
  pub lt_op : F → F → Bool
  pub le_op : F → F → Bool
  -- `round(x, digits)`
  pub round_op : F → ℕ → F

module _ {F : Type 0} ⦃o : FloatOps F⦄ where
  abbrev pub decimal : ℕ → ℕ → F
  decimal = o.decimal_op

  abbrev pub neg : F → F
  neg = o.neg_op

  abbrev pub add : F → F → F
  add = o.add_op

  abbrev pub sub : F → F → F
  sub = o.sub_op

  abbrev pub mul : F → F → F
  mul = o.mul_op

  abbrev pub div : F → F → F
  div = o.div_op

  abbrev pub lt : F → F → Bool
  lt = o.lt_op

  abbrev pub le : F → F → Bool
  le = o.le_op

  abbrev pub round : F → ℕ → F
  round = o.round_op

  abbrev pub abs : F → F
  abs a = if lt a (decimal 0 0) then neg a else a

  -- Python's `max(a, b)` and `min(a, b)` keep the first argument unless the second beats it.
  abbrev pub max : F → F → F
  max a b = if lt a b then b else a

  abbrev pub min : F → F → F
  min a b = if lt b a then b else a

  abbrev pub is_zero : F → Bool
  is_zero a = le a (decimal 0 0) && le (decimal 0 0) a

  -- a value, or the ZeroDivisionError of a division by some number
  abbrev pub unless_zero : {A : Type 0} → F → A → Option A
  unless_zero a x = if is_zero a then none else some x

  -- Python's `min` and `max` of a list that starts with a number
  abbrev pub least_of : F → List F → F
  least_of x [] = x
  least_of x (y ∷ ys) = least_of (min x y) ys

  abbrev pub largest_of : F → List F → F
  largest_of x [] = x
  largest_of x (y ∷ ys) = largest_of (max x y) ys

-- `<` is a strict order, as on IEEE doubles (every comparison with NaN is false).
pub record StrictOrder (F : Type 0) ⦃o : FloatOps F⦄ : Type 0 where
  pub lt_irrefl : (a : F) → lt a a ≡ false
  pub lt_trans : (a b c : F) → lt a b ≡ true → lt b c ≡ true → lt a c ≡ true

-- "Not below" is transitive too, as on doubles other than NaN.
pub record TotalOrder (F : Type 0) ⦃o : FloatOps F⦄ : Type 0 where
  pub lt_irrefl : (a : F) → lt a a ≡ false
  pub lt_asymm : (a b : F) → lt a b ≡ true → lt b a ≡ false
  pub not_lt_trans : (a b c : F) → lt a b ≡ false → lt b c ≡ false → lt a c ≡ false
