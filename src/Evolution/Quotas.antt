-- ===== src/Evolution/Quotas.antt =====
-- What the generation plan asks for.
use crypto_trader_ver_9_alph.Prelude.{
  ℕ, ◌+◌, ◌≡◌, refl, Bool, true, false, ◌&&◌, Option, none, some, List, [], ◌∷◌, ◌++◌, String,
  arith, or_else, str_eq, eq_iff, Bool-cases, inl, inr, subst, ap, ◌∙◌, if◌then◌else◌,
}
use crypto_trader_ver_9_alph.Prelude.Int.{ℤ, pos}
use crypto_trader_ver_9_alph.Prelude.Dict.{Dict, lookup, insert, mem, lookup-insert, AreDistinct}
use crypto_trader_ver_9_alph.Evolution.{
  at_least_one, quota_of, normalize_quota_map, PlanRow, smaller, row_count, add_row, rows_of_family,
  rows, build_generation_quota_plan,
}

-- How many candidates of a family and a symbol the rows ask for.
abbrev pub planned : String → String → List PlanRow → ℕ
planned f s [] = 0
planned f s (row ∷ plan) =
    (if str_eq row.family f && str_eq row.symbol s then row.count else 0) + planned f s plan

-- The limit that a quota map sets: the cap where it has none or one that does not convert, and 0
-- for a negative one.
abbrev pub limit : Dict (Option ℤ) → ℕ → String → ℕ
limit quota cap item = quota_of cap (or_else (lookup item quota) (some (pos cap)))

planned-append :
    (f s : String) (p q : List PlanRow) → planned f s (p ++ q) ≡ planned f s p + planned f s q
planned-append f s [] q = omega arith
planned-append f s (row ∷ p) q = omega (arith, planned-append f s p q)

lookup-normalize_quota_map :
    (k : String) (quota : Dict (Option ℤ)) (items : List String) (cap : ℕ) (d : Dict ℕ)
    → lookup k (normalize_quota_map quota items cap d)
      ≡ (if mem k items then some (limit quota cap k) else lookup k d)
unfolding normalize_quota_map
lookup-normalize_quota_map k quota [] cap d = refl
lookup-normalize_quota_map k quota (item ∷ items) cap d = elim (Bool-cases (str_eq item k)) [
  | inl e ↦
      let p : item ≡ k = ground (arith, eq_iff item k) in
      let q : limit quota cap item ≡ limit quota cap k = ap (limit quota cap) p in
      lookup-normalize_quota_map k quota items cap (insert item (limit quota cap item) d)
      ∙ ground (arith, lookup-insert item k (limit quota cap item) d, q)
  | inr e ↦
      lookup-normalize_quota_map k quota items cap (insert item (limit quota cap item) d)
      ∙ ground (arith, lookup-insert item k (limit quota cap item) d)
]

module _ (cap : ℕ) (fs ss : Dict ℕ) where
  planned-add_row :
      (f s g u : String) (n : ℕ) (plan : List PlanRow)
      → planned f s (add_row g u n plan)
        ≡ (if str_eq g f && str_eq u s then n else 0) + planned f s plan
  planned-add_row f s g u n plan = ground arith

  planned-rows_of_family :
      (f s g : String) (symbols : List String)
      → AreDistinct symbols
      → planned f s (rows_of_family cap fs ss g symbols)
        ≡ (if str_eq g f && mem s symbols then row_count cap fs ss f s else 0)
  unfolding rows_of_family
  planned-rows_of_family f s g [] h = ground arith
  planned-rows_of_family f s g (u ∷ symbols) h = elim (Bool-cases (str_eq g f && str_eq u s)) [
    | inl e ↦
        let p : g ≡ f = ground (arith, eq_iff g f) in
        let q : u ≡ s = ground (arith, eq_iff u s) in
        let m : mem s symbols ≡ false = subst (λ z. mem z symbols ≡ false) q h.0 in
        let n : row_count cap fs ss g u ≡ row_count cap fs ss f s =
          ap (λ z. row_count cap fs ss z u) p ∙ ap (row_count cap fs ss f) q in
        ground (
          arith,
          n,
          planned-add_row f s g u (row_count cap fs ss g u) (rows_of_family cap fs ss g symbols),
          planned-rows_of_family f s g symbols h.1,
        )
    | inr e ↦ ground (
      arith,
      planned-add_row f s g u (row_count cap fs ss g u) (rows_of_family cap fs ss g symbols),
      planned-rows_of_family f s g symbols h.1,
    )
  ]

  planned-rows :
      (f s : String) (families symbols : List String)
      → AreDistinct families
      → AreDistinct symbols
      → planned f s (rows cap fs ss families symbols)
        ≡ (if mem f families && mem s symbols then row_count cap fs ss f s else 0)
  unfolding rows
  planned-rows f s [] symbols h k = refl
  planned-rows f s (g ∷ families) symbols h k = elim (Bool-cases (str_eq g f)) [
    | inl e ↦
        let p : g ≡ f = ground (arith, eq_iff g f) in
        let m : mem f families ≡ false = subst (λ z. mem z families ≡ false) p h.0 in
        ground (
          arith,
          planned-append f s (rows_of_family cap fs ss g symbols) (rows cap fs ss families symbols),
          planned-rows_of_family f s g symbols k,
          planned-rows f s families symbols h.1 k,
        )
    | inr e ↦ ground (
      arith,
      planned-append f s (rows_of_family cap fs ss g symbols) (rows cap fs ss families symbols),
      planned-rows_of_family f s g symbols k,
      planned-rows f s families symbols h.1 k,
    )
  ]

at_limits :
    (cap : ℕ) (fs ss : Dict ℕ) (in_families in_symbols : Bool) (a b : ℕ) (f s : String)
    → lookup f fs ≡ (if in_families then some a else none)
    → lookup s ss ≡ (if in_symbols then some b else none)
    → (if in_families && in_symbols then row_count cap fs ss f s else 0)
      ≡ (if in_families && in_symbols then smaller (smaller cap a) b else 0)
at_limits cap fs ss true true a b f s p q = rw (p, q) refl
at_limits cap fs ss true false a b f s p q = refl
at_limits cap fs ss false in_symbols a b f s p q = refl

-- Over lists without repetitions, the plan asks for each family and symbol of the lists as many
-- candidates as the smallest of the iterations (at least 1), the family's quota and the symbol's
-- quota, and for no others: a family's quota limits each of its symbols and not their sum.
pub build_generation_quota_plan_lem :
    (iterations : ℕ) (families symbols : List String) (family_quota symbol_quota : Dict (Option ℤ))
    (f s : String)
    → AreDistinct families
    → AreDistinct symbols
    → let cap = at_least_one iterations in
      planned f s
        (build_generation_quota_plan iterations families symbols family_quota symbol_quota)
      ≡ (if mem f families && mem s symbols
          then smaller (smaller cap (limit family_quota cap f)) (limit symbol_quota cap s)
          else 0)
unfolding build_generation_quota_plan lookup
build_generation_quota_plan_lem iterations families symbols family_quota symbol_quota f s h k =
    let cap = at_least_one iterations in
    let fs = normalize_quota_map family_quota families cap [] in
    let ss = normalize_quota_map symbol_quota symbols cap [] in
    let whole = planned-rows cap fs ss f s families symbols h k in
    let a = lookup-normalize_quota_map f family_quota families cap [] in
    let b = lookup-normalize_quota_map s symbol_quota symbols cap [] in
    whole
    ∙ at_limits cap fs ss (mem f families) (mem s symbols) (limit family_quota cap f)
        (limit symbol_quota cap s) f s a b
