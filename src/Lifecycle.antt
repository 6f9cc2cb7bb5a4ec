-- ===== src/Lifecycle.antt =====
-- ver9/lifecycle.py: the statuses of a strategy and the manual transitions; the child Basket has
-- the automatic promotion. Of a candidate's record the model has the keys that the module reads; a
-- number is `none` where the key is missing or does not convert, a text where it is missing. Time
-- stamps are left out, and counts are naturals.
pub mod Basket
pub mod Gates
pub mod Promotion
pub mod History
mod Tests
use crypto_trader_ver_9_alph.Prelude.{
  Bool, Option, none, some, List, [], ◌∷◌, ◌++◌, String, or_else, str_eq, str_append, if◌then◌else◌,
}
use crypto_trader_ver_9_alph.Prelude.Dict.{Dict, lookup, mem}
use crypto_trader_ver_9_alph.Prelude.Text.{TextOps, normalize, upper, root}

pub record LifecycleTransition : Type 0 where
  pub strategy_id : String
  pub from_status : String
  pub to_status : String
  pub reason : String

pub record Candidate (F : Type 0) : Type 0 where
  pub strategy_id : String
  pub status : Option String
  pub symbol : Option String
  pub family : Option String
  pub regime : Option String
  pub robustness_score : Option F
  pub profit_factor : Option F
  pub max_drawdown_pct : Option F
  pub validation_score : Option F
  pub validation_passed : Bool
  pub transition_history : List LifecycleTransition

abbrev pub valid_transitions : Dict (List String)
valid_transitions =
    ("candidate", "validated" ∷ "quarantined" ∷ [])
    ∷ ("validated", "probationary" ∷ "quarantined" ∷ [])
    ∷ ("probationary", "deployable" ∷ "quarantined" ∷ [])
    ∷ ("deployable", "live" ∷ "quarantined" ∷ [])
    ∷ ("live", "quarantined" ∷ [])
    ∷ ("quarantined", "validated" ∷ [])
    ∷ []

-- `VALID_TRANSITIONS.get(status, set())`
abbrev pub allowed_from : String → List String
allowed_from status = or_else (lookup status valid_transitions) []

-- `text or default`
abbrev pub text_or : String → Option String → String
text_or default none = default
text_or default (some s) = if str_eq s "" then default else s

pub data Moved (F : Type 0) : Type 0 where
  moved : Candidate F → Moved F
  lifecycle_error : String → Moved F

module _ ⦃t : TextOps⦄ where
  abbrev pub build_transition_record : String → String → String → String → LifecycleTransition
  build_transition_record strategy_id from_status to_status reason = record {
    strategy_id = strategy_id;
    from_status = normalize from_status;
    to_status = normalize to_status;
    reason = reason;
  }

  abbrev pub symbol_root : String → String
  symbol_root symbol = if str_eq (upper symbol) "" then "UNKNOWN" else root (upper symbol)

  module _ {F : Type 0} where
    -- the status that the module reads
    abbrev pub current_status : Candidate F → String
    current_status r = normalize (text_or "candidate" r.status)

    unfoldable pub transition : Candidate F → String → Moved F
    transition r target_status =
        let current = current_status r in
        let target = normalize target_status in
        if mem target (allowed_from current)
        then moved (record r {
          status = some target;
          transition_history =
              r.transition_history
              ++ build_transition_record r.strategy_id current target "manual_transition" ∷ [];
        })
        else lifecycle_error
            (str_append "invalid transition: " (str_append current (str_append " -> " target)))
