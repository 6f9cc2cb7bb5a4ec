-- ===== src/Evolution/Diversity/Counters.antt =====
-- What the counts of a diversity report add up to.
use crypto_trader_ver_9_alph.Prelude.{
  ℕ, ◌+◌, ◌≤◌, ◌≡◌, Option, List, [], ◌∷◌, map, String, length, length-map, arith, str_eq,
  Bool-cases, inl, inr, All,
}
use crypto_trader_ver_9_alph.Prelude.Dict.{Dict, lookup, insert, keys, IsDict, insert-IsDict}
use crypto_trader_ver_9_alph.Prelude.Float.{FloatOps}
use crypto_trader_ver_9_alph.Prelude.Text.{TextOps}
use crypto_trader_ver_9_alph.Basket.{BasketRow}
use crypto_trader_ver_9_alph.Evolution.Tuner.{count_at, counts_from}
use crypto_trader_ver_9_alph.Evolution.Diversity.{
  root_name, family_name, regime_name, counter, diversity_report,
}

abbrev pub sum : Dict ℕ → ℕ
sum [] = 0
sum ((k, n) ∷ d) = n + sum d

-- A new count of a name takes the place of its old one.
sum-insert : (k : String) (n : ℕ) (d : Dict ℕ) → sum (insert k n d) + count_at k d ≡ sum d + n
unfolding insert lookup
sum-insert k n [] = omega arith
sum-insert k n ((j, m) ∷ d) = elim (Bool-cases (str_eq j k)) [
  | inl e ↦ rw (e, insert, lookup) (omega arith)
  | inr e ↦ rw (e, insert, lookup) (omega (arith, sum-insert k n d))
]

sum-counts_from : (ks : List String) (d : Dict ℕ) → sum (counts_from ks d) ≡ sum d + length ks
sum-counts_from [] d = omega arith
sum-counts_from (k ∷ ks) d =
    omega
      (arith, sum-insert k (count_at k d + 1) d, sum-counts_from ks (insert k (count_at k d + 1) d))

-- Every count is positive.
abbrev pub IsCounter : Dict ℕ → Type 0
IsCounter d = IsDict d × All (λ x. 1 ≤ x.1) d

insert-positive :
    (k : String) (n : ℕ) (d : Dict ℕ)
    → 1 ≤ n
    → All (λ x. 1 ≤ x.1) d
    → All (λ x. 1 ≤ x.1) (insert k n d)
unfolding insert
insert-positive k n [] p h = (p, tt)
insert-positive k n ((j, m) ∷ d) p h = elim (Bool-cases (str_eq j k)) [
  | inl e ↦ rw e (p, h.1)
  | inr e ↦ rw e (h.0, insert-positive k n d p h.1)
]

counts_from-IsCounter : (ks : List String) (d : Dict ℕ) → IsCounter d → IsCounter (counts_from ks d)
counts_from-IsCounter [] d h = h
counts_from-IsCounter (k ∷ ks) d h = counts_from-IsCounter ks (insert k (count_at k d + 1) d) (
  insert-IsDict k (count_at k d + 1) d h.0,
  insert-positive k (count_at k d + 1) d (omega arith) h.1,
)

length-le-sum : (d : Dict ℕ) → All (λ x. 1 ≤ x.1) d → length (keys d) ≤ sum d
length-le-sum [] h = omega arith
length-le-sum ((k, n) ∷ d) h = omega (arith, length-le-sum d h.1, h.0)

-- A count for each name once, each of them positive and `n` together.
abbrev pub Counts : ℕ → Dict ℕ → Type 0
Counts n d = IsCounter d × (sum d ≡ n) × (length (keys d) ≤ n)

module _ {F : Type 0} ⦃t : TextOps⦄ where
  counter-Counts :
      (name : BasketRow F → String) (rows : List (BasketRow F))
      → Counts (length rows) (counter name rows)
  unfolding counter
  counter-Counts name rows =
      let counted = counts_from-IsCounter (map name rows) [] (tt, tt) in
      let total = sum-counts_from (map name rows) [] in
      (
        counted,
        omega (arith, total, length-map name rows),
        omega (
          arith,
          total,
          length-map name rows,
          length-le-sum (counts_from (map name rows) []) counted.1,
        ),
      )

  -- In a diversity report each of the four counters has no name twice and only positive counts,
  -- which add up to the number of candidates, whatever the scope and the filter are; so no number
  -- of unique symbols, families or regimes is above it.
  diversity_report-Counts :
      ⦃o : FloatOps F⦄ (scope : String) (status : Option String) (statuses : List String)
      (candidates : List (BasketRow F))
      → let r = diversity_report scope status statuses candidates in
        Counts r.total_candidates r.symbol_counts
        × Counts r.total_candidates r.family_counts
        × Counts r.total_candidates r.regime_counts
        × Counts r.total_candidates r.status_counts
        × (r.unique_symbols ≤ r.total_candidates)
        × (r.unique_families ≤ r.total_candidates)
        × (r.unique_regimes ≤ r.total_candidates)
  unfolding diversity_report
  diversity_report-Counts scope status statuses candidates =
      let symbols = counter-Counts root_name _ in
      let families = counter-Counts family_name _ in
      let regimes = counter-Counts regime_name _ in
      (symbols, families, regimes, counter-Counts _ _, symbols.2, families.2, regimes.2)
