-- ===== src/State.antt =====
-- ver9/state.py: the health of each strategy, kept in one file. An operation is a function of the
-- disk. The file is taken to be one that this module wrote, so that the `setdefault` and
-- `isinstance` repairs never act, and reading or writing it is taken to succeed and to give back
-- what was written. Timestamps are left out: this module writes them and reads none of them back.
pub mod Rolling
pub mod Ladder
pub mod Decay
mod Tests
use crypto_trader_ver_9_alph.Prelude.{
  ℕ, ◌+◌, Bool, true, false, Option, some, List, [], ◌∷◌, ◌++◌, String, leb, not, if◌then◌else◌,
  or_else, str_eq, select,
}
use crypto_trader_ver_9_alph.Prelude.Dict.{Dict, lookup, insert}
use crypto_trader_ver_9_alph.Prelude.Float.{FloatOps, decimal, round}

-- The values that "status" takes.
pub data HealthStatus : Type 0 where
  active quarantined probationary retired : HealthStatus

abbrev pub is_quarantined_status : HealthStatus → Bool
is_quarantined_status quarantined = true
is_quarantined_status _ = false

abbrev pub is_retired_status : HealthStatus → Bool
is_retired_status retired = true
is_retired_status _ = false

pub record HealthEvent : Type 0 where
  pub approved : Bool
  pub reason : String

pub record HealthEntry (F : Type 0) : Type 0 where
  pub strategy_id : String
  pub status : HealthStatus
  pub approved_streak : ℕ
  pub failure_streak : ℕ
  pub recovery_streak : ℕ
  pub inactive_cycles : ℕ
  pub decay_score : F
  pub is_retired : Bool
  pub retirement_reason : String
  pub quarantine_reason : String
  pub events : List HealthEvent

-- A record of `quarantined_strategies`, `recovery_events` or `retirement_events`.
pub record Notice : Type 0 where
  pub strategy_id : String
  pub reason : String

-- `J` is the JSON payload that the module stores and does not look into; of a cycle it reads the
-- strategy ids of its portfolio rows.
pub record Cycle (J : Type 0) : Type 0 where
  pub portfolio : List String
  pub body : J

pub record RuntimeState (F J : Type 0) : Type 0 where
  pub cycles : List (Cycle J)
  pub executions : List J
  pub risk_events : List J
  pub quarantined_strategies : List Notice
  pub recovery_events : List Notice
  pub retirement_events : List Notice
  pub strategy_health : Dict (HealthEntry F)

-- What `_sync_registry_status` sends to the registry.
pub data Sync (F : Type 0) : Type 0 where
  quarantine_sync : String → String → Sync F
  recover_sync : String → HealthStatus → Bool → String → String → F → Sync F
  retire_sync : String → String → F → Sync F

pub record Disk (F J : Type 0) : Type 0 where
  pub file : Option (RuntimeState F J)
  pub synced : List (Sync F)

abbrev pub recovery_threshold : ℕ
recovery_threshold = 2

abbrev pub active_recovery_threshold : ℕ
active_recovery_threshold = 2

module _ {F : Type 0} ⦃o : FloatOps F⦄ where
  abbrev pub decay_per_inactive_cycle : F
  decay_per_inactive_cycle = decimal 12 2

  abbrev pub decay_recovery_per_active_cycle : F
  decay_recovery_per_active_cycle = decimal 5 2

  abbrev pub retirement_threshold : F
  retirement_threshold = decimal 65 2

  -- the entry that `_health_entry` makes for an unknown strategy
  abbrev pub new_entry : String → HealthEntry F
  new_entry id = record {
    strategy_id = id;
    status = active;
    approved_streak = 0;
    failure_streak = 0;
    recovery_streak = 0;
    inactive_cycles = 0;
    decay_score = decimal 0 0;
    is_retired = false;
    retirement_reason = "";
    quarantine_reason = "";
    events = [];
  }

abbrev pub default_state : {F J : Type 0} → RuntimeState F J
default_state = record {
  cycles = [];
  executions = [];
  risk_events = [];
  quarantined_strategies = [];
  recovery_events = [];
  retirement_events = [];
  strategy_health = [];
}

module _ {F J : Type 0} where
  abbrev pub load_state : Disk F J → RuntimeState F J
  load_state d = or_else d.file default_state

  abbrev pub save_state : RuntimeState F J → Disk F J → Disk F J
  save_state s d = record d { file = some s }

  abbrev pub sync_registry_status : Sync F → Disk F J → Disk F J
  sync_registry_status message d = record d { synced = d.synced ++ message ∷ [] }

  abbrev pub put_entry : String → HealthEntry F → RuntimeState F J → RuntimeState F J
  put_entry id entry s = record s { strategy_health = insert id entry s.strategy_health }

  abbrev pub remove_quarantine_record : String → RuntimeState F J → RuntimeState F J
  remove_quarantine_record id s = record s {
    quarantined_strategies =
        select (λ item. not (str_eq (item.strategy_id) id)) s.quarantined_strategies;
  }

  abbrev pub notify_recovery : String → String → RuntimeState F J → RuntimeState F J
  notify_recovery id reason s = record s {
    recovery_events = s.recovery_events ++ record { strategy_id = id; reason = reason } ∷ [];
  }

  unfoldable pub append_risk_event : J → Disk F J → Disk F J
  append_risk_event event d =
      let s = load_state d in save_state (record s { risk_events = s.risk_events ++ event ∷ [] }) d

  unfoldable pub append_execution : J → Disk F J → Disk F J
  append_execution execution d =
      let s = load_state d in
      save_state (record s { executions = s.executions ++ execution ∷ [] }) d

module _ {F J : Type 0} ⦃o : FloatOps F⦄ where
  abbrev pub health_entry : RuntimeState F J → String → HealthEntry F
  health_entry s id = or_else (lookup id s.strategy_health) (new_entry id)

  unfoldable pub is_quarantined : String → Disk F J → Bool
  is_quarantined id d = is_quarantined_status ((health_entry (load_state d) id).status)

  unfoldable pub quarantine_strategy : String → String → Disk F J → HealthEntry F × Disk F J
  quarantine_strategy id reason d =
      let s = load_state d in
      let entry = health_entry s id in
      let entry' : HealthEntry F = record entry {
        approved_streak = 0;
        failure_streak = entry.failure_streak + 1;
        recovery_streak = 0;
        quarantine_reason = reason;
        status = quarantined;
        events = entry.events ++ record { approved = false; reason = reason } ∷ [];
      } in
      let s' = put_entry id entry' s in
      let s'' : RuntimeState F J = record s' {
        quarantined_strategies =
            s'.quarantined_strategies ++ record { strategy_id = id; reason = reason } ∷ [];
      } in
      (entry', save_state s'' (sync_registry_status (quarantine_sync id reason) d))

  -- the branch of `recover_strategy` on the status before the call, which the `elif`s test; the
  -- entry has its approval counted and its retirement cleared by then
  abbrev pub climb :
      HealthStatus → String → HealthEntry F → RuntimeState F J → HealthEntry F × RuntimeState F J
  climb quarantined id e s =
      let e' : HealthEntry F = record e { recovery_streak = e.recovery_streak + 1 } in
      if leb recovery_threshold e'.recovery_streak
      then (
        record e' { status = probationary; quarantine_reason = ""; recovery_streak = 0 },
        notify_recovery id "recovered_from_quarantine" s,
      )
      else (e', s)
  climb probationary id e s =
      let e' : HealthEntry F = record e { recovery_streak = e.recovery_streak + 1 } in
      if leb active_recovery_threshold e'.recovery_streak
      then (
        record e' { status = active; recovery_streak = 0; quarantine_reason = "" },
        notify_recovery id "promoted_to_active" (remove_quarantine_record id s),
      )
      else (e', s)
  climb _ id e s = (record e { recovery_streak = 0 }, s)

  unfoldable pub recover_strategy : String → String → Disk F J → HealthEntry F × Disk F J
  recover_strategy id reason d =
      let s = load_state d in
      let entry = health_entry s id in
      let (e, s') =
        climb entry.status id
          (record entry {
            approved_streak = entry.approved_streak + 1;
            failure_streak = 0;
            is_retired = false;
            retirement_reason = "";
          })
          s in
      let e' : HealthEntry F = record e {
        events = e.events ++ record { approved = true; reason = reason } ∷ [];
      } in
      let message =
        recover_sync id e'.status e'.is_retired e'.retirement_reason e'.quarantine_reason
          (round e'.decay_score 4) in
      (e', save_state (put_entry id e' s') (sync_registry_status message d))
