-- ===== src/Prelude/Dict.antt =====
-- Python's `dict` with string keys, as an association list in insertion order.
use Prim.Native.String.{String}
use mathlib.Core.Path.{◌≡◌, refl}
use mathlib.Core.Bool.{Bool, true, false}
use mathlib.Core.Option.{Option, none, some}
use mathlib.Core.Logic.{inl, inr}
use mathlib.Core.List.{List, [], ◌∷◌, ◌++◌}
use native.Mathlib.Omega.{arith}
use text.Mathlib.Text.{◌==◌ as str_eq}
use text.Mathlib.TextEquality.{eq_iff}
use package.crypto_trader_ver_9_alph.Prelude.Tests.{if◌then◌else◌, is_some, Bool-cases}
use package.crypto_trader_ver_9_alph.Prelude.Lists.{All}

abbrev pub Dict {ℓ} : Type ℓ → Type ℓ
Dict V = List (String × V)

module _ {ℓ} {V : Type ℓ} where
  -- `d.get(k)`
  unfoldable pub lookup : String → Dict V → Option V
  lookup k [] = none
  lookup k ((j, v) ∷ d) = if str_eq j k then some v else lookup k d

  -- `k in d`
  abbrev pub contains : String → Dict V → Bool
  contains k d = is_some (lookup k d)

  -- `d[k] = v`: an old key keeps its place
  unfoldable pub insert : String → V → Dict V → Dict V
  insert k v [] = (k, v) ∷ []
  insert k v ((j, w) ∷ d) = if str_eq j k then (k, v) ∷ d else (j, w) ∷ insert k v d

  -- `d.pop(k, None)` and, where the key is known, `del d[k]`
  unfoldable pub erase : String → Dict V → Dict V
  erase k [] = []
  erase k ((j, w) ∷ d) = if str_eq j k then erase k d else (j, w) ∷ erase k d

  -- `d.update(e)`
  unfoldable pub update : Dict V → Dict V → Dict V
  update d [] = d
  update d ((k, v) ∷ e) = update (insert k v d) e

  abbrev pub keys : Dict V → List String
  keys [] = []
  keys ((k, v) ∷ d) = k ∷ keys d

  abbrev pub values : Dict V → List V
  values [] = []
  values ((k, v) ∷ d) = v ∷ values d

  pub lookup-insert :
      (k j : String) (v : V) (d : Dict V)
      → lookup j (insert k v d) ≡ (if str_eq k j then some v else lookup j d)
  unfolding lookup insert
  lookup-insert k j v [] = refl
  lookup-insert k j v ((i, w) ∷ d) =
      ground (arith, eq_iff k j, eq_iff i k, eq_iff i j, lookup-insert k j v d)

  pub lookup-erase :
      (k j : String) (d : Dict V) → lookup j (erase k d) ≡ (if str_eq k j then none else lookup j d)
  unfolding lookup erase
  lookup-erase k j [] = ground arith
  lookup-erase k j ((i, w) ∷ d) =
      ground (arith, eq_iff k j, eq_iff i k, eq_iff i j, lookup-erase k j d)

-- `k in ks`, for a set or a list of texts
abbrev pub mem : String → List String → Bool
mem k [] = false
mem k (j ∷ js) = if str_eq j k then true else mem k js

-- No text stands twice.
abbrev pub AreDistinct : List String → Type 0
AreDistinct [] = Unit
AreDistinct (x ∷ xs) = (mem x xs ≡ false) × AreDistinct xs

-- No key stands twice, as in every `dict`.
abbrev pub IsDict {ℓ} : {V : Type ℓ} → Dict V → Type ℓ
IsDict [] = Unit
IsDict ((k, v) ∷ d) = (lookup k d ≡ none) × IsDict d

module _ {ℓ} {V : Type ℓ} where
  pub insert-IsDict : (k : String) (v : V) (d : Dict V) → IsDict d → IsDict (insert k v d)
  unfolding lookup insert
  insert-IsDict k v [] h = (refl, tt)
  insert-IsDict k v ((j, w) ∷ d) h =
      ground (arith, eq_iff j k, eq_iff k j, insert-IsDict k v d h.1, lookup-insert k j v d)

  pub erase-IsDict : (k : String) (d : Dict V) → IsDict d → IsDict (erase k d)
  unfolding lookup erase
  erase-IsDict k [] h = tt
  erase-IsDict k ((j, w) ∷ d) h =
      ground (arith, eq_iff j k, erase-IsDict k d h.1, lookup-erase k j d)

  -- `d.update(e)` gives the value in `e` where there is one, and that in `d` where not.
  pub lookup-update :
      (j : String) (d e : Dict V)
      → IsDict e
      → lookup j (update d e) ≡ (if contains j e then lookup j e else lookup j d)
  unfolding lookup update
  lookup-update j d [] h = refl
  lookup-update j d ((k, v) ∷ e) h =
      ground (arith, eq_iff k j, lookup-update j (insert k v d) e h.1, lookup-insert k j v d)

mem-snoc :
    (k : String) (xs : List String) (x : String)
    → mem k (xs ++ x ∷ []) ≡ (if mem k xs then true else str_eq x k)
mem-snoc k [] x = ground arith
mem-snoc k (y ∷ xs) x = ground (arith, mem-snoc k xs x)

pub AreDistinct-snoc :
    (xs : List String) (x : String) → AreDistinct xs → mem x xs ≡ false → AreDistinct (xs ++ x ∷ [])
AreDistinct-snoc [] x h q = (refl, tt)
AreDistinct-snoc (y ∷ xs) x h q = (
  ground (arith, mem-snoc y xs x, eq_iff x y, eq_iff y x),
  AreDistinct-snoc xs x h.1 (ground arith),
)

-- An entry put into a dictionary whose entries have some property.
pub insert-All {ℓ κ} :
    {V : Type ℓ} (P : String × V → Type κ) (k : String) (v : V) (d : Dict V)
    → P (k, v)
    → All P d
    → All P (insert k v d)
unfolding insert
insert-All P k v [] p h = (p, tt)
insert-All P k v ((j, w) ∷ d) p h = elim (Bool-cases (str_eq j k)) [
  | inl e ↦ rw e (p, h.1)
  | inr e ↦ rw e (h.0, insert-All P k v d p h.1)
]
