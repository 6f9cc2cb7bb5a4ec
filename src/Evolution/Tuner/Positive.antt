-- ===== src/Evolution/Tuner/Positive.antt =====
-- The tuned quotas: their names, and that the tuning leaves no family out.
use crypto_trader_ver_9_alph.Prelude.{
  ℕ, ◌≡◌, refl, ap, ◌∙◌, inl, inr, Bool, true, false, ◌||◌, Bool-cases, Option, some, none, is_some,
  List, [], ◌∷◌, String, ltb, str_eq, arith, eq_iff, if◌then◌else◌,
}
use crypto_trader_ver_9_alph.Prelude.Dict.{Dict, IsDict, lookup, contains, insert, lookup-insert}
use crypto_trader_ver_9_alph.Prelude.Float.{FloatOps}
use crypto_trader_ver_9_alph.Prelude.Text.{TextOps}
use crypto_trader_ver_9_alph.Prelude.Int.{ℤ, pos, negsuc, ltb_ℤ}
use crypto_trader_ver_9_alph.Lifecycle.{Candidate}
use crypto_trader_ver_9_alph.Evolution.Tuner.{
  TunerOps, default_family_quotas, nonnegative, override_quotas, tune_quotas, tune_family_quotas,
}

-- The families that have a quota by default.
abbrev pub is_default : String → Bool
is_default family =
    str_eq "mean_reversion" family
    || str_eq "volatility_compression" family
    || str_eq "trend" family

-- Whether a family is to be generated: by the quota that is given for it, or else by default.
abbrev pub wanted : String → Option ℤ → Bool
wanted family (some quota) = ltb_ℤ (pos 0) quota
wanted family none = is_default family

-- The number of a name is there and positive.
abbrev pub is_positive : Option ℕ → Bool
is_positive none = false
is_positive (some n) = ltb 0 n

abbrev overridden : Option ℤ → Option ℕ → Option ℕ
overridden (some v) base = some (nonnegative v)
overridden none base = base

-- A given quota replaces that of the base.
lookup-override_quotas :
    (given : Dict ℤ) (base : Dict ℕ) (k : String)
    → IsDict given
    → lookup k (override_quotas given base) ≡ overridden (lookup k given) (lookup k base)
unfolding override_quotas lookup
lookup-override_quotas [] base k h = refl
lookup-override_quotas ((j, v) ∷ given) base k h = ground (
  arith,
  eq_iff j k,
  h.0,
  lookup-override_quotas given (insert j (nonnegative v) base) k h.1,
  lookup-insert j k (nonnegative v) base,
)

default-wanted :
    (family : String)
    → (is_positive (lookup family default_family_quotas) ≡ is_default family)
      × (is_some (lookup family default_family_quotas) ≡ is_default family)
unfolding lookup
default-wanted family = (ground arith, ground arith)

positive-nonnegative : (v : ℤ) → ltb 0 (nonnegative v) ≡ ltb_ℤ (pos 0) v
positive-nonnegative (pos n) = ground arith
positive-nonnegative (negsuc n) = ground arith

overridden-wanted :
    (family : String) (given : Option ℤ)
    → is_positive (overridden given (lookup family default_family_quotas)) ≡ wanted family given
overridden-wanted family (some v) = positive-nonnegative v
overridden-wanted family none = (default-wanted family).0

overridden-named :
    (family : String) (given : Option ℤ)
    → is_some (overridden given (lookup family default_family_quotas))
      ≡ (is_some given || is_default family)
overridden-named family (some v) = refl
overridden-named family none = (default-wanted family).1

module _ {F : Type 0} ⦃o : FloatOps F⦄ ⦃t : TextOps⦄ (ops : TunerOps F) where
  tune_quotas-kept :
      (bias : Dict F) (base : Dict ℕ) (k : String)
      → (is_positive (lookup k base) ≡ true
          → is_positive (lookup k (tune_quotas ops bias base)) ≡ true)
        × (contains k (tune_quotas ops bias base) ≡ contains k base)
  unfolding tune_quotas lookup
  tune_quotas-kept bias [] k = (λ p. p, refl)
  tune_quotas-kept bias ((j, n) ∷ base) k = elim (Bool-cases (str_eq j k)) [
    | inl e ↦ rw e (λ p. ground (arith, p), refl)
    | inr e ↦ rw e (tune_quotas-kept bias base k)
  ]

  -- The tuned quotas have the names of the default ones and of those given, no others; and a family
  -- whose given quota is positive, or that has a default one and none is given, has a positive
  -- tuned quota, whatever the regime, the history and the rounding are.
  pub tune_family_quotas-positive :
      (regime : String) (given : Dict ℤ) (history : List (Candidate F)) (family : String)
      → IsDict given
      → let tuned = tune_family_quotas ops regime given history in
        (contains family tuned ≡ (contains family given || is_default family))
        × (if wanted family (lookup family given) then is_positive (lookup family tuned) else true)
          ≡ true
  unfolding tune_family_quotas
  tune_family_quotas-positive regime given history family h =
      let base = override_quotas given default_family_quotas in
      let found = lookup-override_quotas given default_family_quotas family h in
      let (kept, names) = tune_quotas-kept _ base family in
      (
        names ∙ ap is_some found ∙ overridden-named family (lookup family given),
        elim (Bool-cases (wanted family (lookup family given))) [
          | inl e ↦
              rw e
                (kept (ap is_positive found ∙ overridden-wanted family (lookup family given) ∙ e))
          | inr e ↦ rw e refl
        ],
      )
