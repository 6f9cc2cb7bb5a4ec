-- ===== src/Registry.antt =====
-- ver9/registry.py: the registry of the strategies, a dictionary of records in one file. A value
-- of a record is a text, a truth value or something that the module only passes on (`J`). The file
-- is taken to hold a JSON object with the two dictionaries, so that the repairs of a corrupt file
-- never act. The clock, the age of a time stamp and the regular expression that cleans an
-- identifier are parameters.
pub mod Legacy
pub mod Entries
mod Tests
use crypto_trader_ver_9_alph.Prelude.{
  ◌==◌, Bool, true, false, ◌&&◌, not, Option, none, some, List, [], ◌∷◌, String, length, is_some,
  str_eq, if◌then◌else◌,
}
use crypto_trader_ver_9_alph.Prelude.Dict.{Dict, lookup, contains, insert}
use crypto_trader_ver_9_alph.Prelude.Text.{TextOps, normalize, lower}

pub data Value (J : Type 0) : Type 0 where
  text : String → Value J
  flag : Bool → Value J
  opaque : J → Value J

abbrev pub Fields : Type 0 → Type 0
Fields J = Dict (Value J)

-- An entry of the file: a record, or something else.
pub data Entry (J : Type 0) : Type 0 where
  fields : Fields J → Entry J
  unsafe : J → Entry J

pub record Quarantined (J : Type 0) : Type 0 where
  pub strategy_id : String
  pub reason : String
  pub entry : Entry J

pub record Registry (J : Type 0) : Type 0 where
  pub entries : Dict (Entry J)
  pub quarantined : Dict (Quarantined J)

-- The truth, the text and the equality of the values that are passed on, the regular expression,
-- the clock, and whether a time stamp is 21 days old.
pub record RegistryOps (J : Type 0) : Type 0 where
  pub truth : J → Bool
  pub show : J → String
  pub same : J → J → Bool
  pub normalize_strategy_id : String → String
  pub now : String
  pub is_old : Option (Value J) → Bool

abbrev pub default_registry : {J : Type 0} → Registry J
default_registry = record { entries = []; quarantined = [] }

abbrev pub regime_by_family : Dict String
regime_by_family =
    ("mean_reversion", "mean_reversion")
    ∷ ("volatility_compression", "volatility_compression")
    ∷ ("trend", "trend")
    ∷ []

abbrev pub required_fields : List String
required_fields = "strategy_id" ∷ "family" ∷ "regime" ∷ "symbol" ∷ []

module _ {J : Type 0} (ops : RegistryOps J) where
  abbrev pub is_true : Value J → Bool
  is_true (text s) = not (str_eq s "")
  is_true (flag b) = b
  is_true (opaque x) = ops.truth x

  abbrev pub str_of : Value J → String
  str_of (text s) = s
  str_of (flag b) = if b then "True" else "False"
  str_of (opaque x) = ops.show x

  -- `str(value or default)`
  abbrev pub text_from : String → Option (Value J) → String
  text_from default none = default
  text_from default (some v) = if is_true v then str_of v else default

  -- `str(record.get(field) or "")`
  abbrev pub field_text : String → Fields J → String
  field_text name r = text_from "" (lookup name r)

  abbrev pub bool_eq : Bool → Bool → Bool
  bool_eq a b = if a then b else not b

  abbrev pub value_eq : Value J → Value J → Bool
  value_eq (text a) (text b) = str_eq a b
  value_eq (flag a) (flag b) = bool_eq a b
  value_eq (opaque a) (opaque b) = ops.same a b
  value_eq _ _ = false

  abbrev pub option_eq : Option (Value J) → Option (Value J) → Bool
  option_eq none none = true
  option_eq (some a) (some b) = value_eq a b
  option_eq _ _ = false

  abbrev pub agrees_with : Fields J → Fields J → Bool
  agrees_with r [] = true
  agrees_with r ((k, v) ∷ rest) = option_eq (lookup k r) (some v) && agrees_with r rest

  -- `==` of two dictionaries
  abbrev pub fields_eq : Fields J → Fields J → Bool
  fields_eq r s = length r == length s && agrees_with r s

  -- `d.setdefault(k, v)`
  abbrev pub set_default : String → Value J → Fields J → Fields J
  set_default k v r = if contains k r then r else insert k v r

  -- a value or, where it counts as false, the next one
  abbrev pub first_true : Option (Value J) → Option (Value J) → Option (Value J)
  first_true none next = next
  first_true (some v) next = if is_true v then some v else next

  module _ ⦃t : TextOps⦄ where
    abbrev pub is_blank : String → Fields J → Bool
    is_blank name r = str_eq (normalize (field_text name r)) ""

    abbrev pub is_recoverable : Fields J → Bool
    is_recoverable r = not (is_blank "strategy_id" r)

    abbrev pub has_all : List String → Fields J → Bool
    has_all [] r = true
    has_all (name ∷ names) r = not (is_blank name r) && has_all names r

    abbrev pub is_tradeable : Entry J → Bool
    is_tradeable (fields r) = has_all required_fields r
    is_tradeable (unsafe x) = false

    -- the cleanup of an "adaptive" regime
    abbrev pub clean_regime : String → String → Fields J → Fields J
    clean_regime family regime r = elim (lookup family regime_by_family) [
      | none ↦ r
      | some better ↦
          if str_eq regime "adaptive"
          then insert "regime_cleanup" (flag true)
              (insert "legacy_regime" (text "adaptive") (insert "regime" (text better) r))
          else r
    ]

    abbrev pub retire_stale : String → Fields J → Fields J
    retire_stale regime r =
        if str_eq regime "adaptive"
          && ops.is_old (first_true (lookup "updated_at" r) (lookup "created_at" r))
        then insert "retired_at" (text ops.now) (
            insert "retirement_reason" (text "stale_legacy_adaptive")
              (insert "retired" (flag true) (insert "status" (text "retired") r)))
        else r

    abbrev pub status_of_validation : Fields J → Fields J
    status_of_validation r =
        if not (is_some (first_true (lookup "status" r) none))
          && is_some (first_true (lookup "validation_passed" r) none)
        then insert "status" (text "validated") r
        else r

    unfoldable pub normalize_record : J → String → Fields J → String × Fields J
    normalize_record one strategy_id r =
        let id = ops.normalize_strategy_id (text_from strategy_id (lookup "strategy_id" r)) in
        let named = insert "strategy_id" (text id) r in
        let family = lower (field_text "family" named) in
        let regime = lower (field_text "regime" named) in
        let cleaned =
          status_of_validation (retire_stale regime (clean_regime family regime named)) in
        (
          id,
          set_default "strategy_epoch" (opaque one)
              (set_default "generation_version" (text "v9") cleaned),
        )
