-- ===== src/State/Rolling.antt =====
-- ver9/state.py: retirement, the decay of inactive strategies, and the append of a cycle.
use crypto_trader_ver_9_alph.Prelude.{
  ◌+◌, Bool, true, false, List, [], ◌∷◌, ◌++◌, String, not, if◌then◌else◌, str_eq, select, ◌&&◌,
}
use crypto_trader_ver_9_alph.Prelude.Dict.{Dict, mem}
use crypto_trader_ver_9_alph.Prelude.Float.{
  FloatOps, decimal, add, sub, mul, lt, le, max, min, round,
}
use crypto_trader_ver_9_alph.State.{
  active, retired, HealthEntry, Notice, Cycle, RuntimeState, Sync, retire_sync, Disk, load_state,
  save_state, sync_registry_status, put_entry, health_entry, is_retired_status,
  decay_per_inactive_cycle, decay_recovery_per_active_cycle, retirement_threshold,
}

-- What a pass of the decay loop has changed so far: the entries, and the notices, messages and
-- `changed` flag of the retirements and of the active strategies.
pub record Decayed (F : Type 0) : Type 0 where
  pub health : Dict (HealthEntry F)
  pub retirements : List Notice
  pub messages : List (Sync F)
  pub changed : Bool

module _ {F : Type 0} ⦃o : FloatOps F⦄ where
  -- an active strategy: its decay goes down, and it may come back from retirement
  abbrev pub refresh : HealthEntry F → HealthEntry F
  refresh e =
      let decay = max (decimal 0 0) (sub e.decay_score decay_recovery_per_active_cycle) in
      let back = e.is_retired && lt decay (mul retirement_threshold (decimal 8 1)) in
      let still = if back then false else e.is_retired in
      record e {
        inactive_cycles = 0;
        decay_score = decay;
        is_retired = still;
        retirement_reason = if back then "" else e.retirement_reason;
        status = if is_retired_status e.status && not still then active else e.status;
      }

  -- an inactive one: its decay goes up
  abbrev pub age : HealthEntry F → HealthEntry F
  age e = record e {
    inactive_cycles = e.inactive_cycles + 1;
    decay_score = min (decimal 1 0) (add e.decay_score decay_per_inactive_cycle);
  }

  -- the test under which an aged entry is retired
  abbrev pub must_retire : HealthEntry F → Bool
  must_retire e = le retirement_threshold e.decay_score && not e.is_retired

  abbrev pub retire_entry : HealthEntry F → HealthEntry F
  retire_entry e = record e {
    is_retired = true;
    status = retired;
    retirement_reason = "inactive_decay";
  }

  -- one round of the loop, on the entries after it
  abbrev pub decay_one : List String → String → HealthEntry F → Decayed F → Decayed F
  decay_one ids id e rest =
      if mem id ids
      then record rest { health = (id, refresh e) ∷ rest.health; changed = true }
      else if must_retire (age e)
      then record {
        health = (id, retire_entry (age e)) ∷ rest.health;
        retirements = record { strategy_id = id; reason = "inactive_decay" } ∷ rest.retirements;
        messages = retire_sync id "inactive_decay" (round ((age e).decay_score) 4) ∷ rest.messages;
        changed = true;
      }
      else record rest { health = (id, age e) ∷ rest.health }

  -- the `for` loop of `apply_rolling_decay`; a write to a known key keeps its place
  unfoldable pub decay_all : List String → Dict (HealthEntry F) → Decayed F
  decay_all ids [] = record { health = []; retirements = []; messages = []; changed = false }
  decay_all ids ((id, e) ∷ d) = decay_one ids id e (decay_all ids d)

-- `{str(item) for item in ids if str(item)}`
abbrev pub nonempty : List String → List String
nonempty = select (λ id. not (str_eq id ""))

module _ {F J : Type 0} ⦃o : FloatOps F⦄ where
  unfoldable pub retire_strategy : String → String → Disk F J → HealthEntry F × Disk F J
  retire_strategy id reason d =
      let s = load_state d in
      let entry = health_entry s id in
      let entry' : HealthEntry F = record entry {
        is_retired = true;
        status = retired;
        retirement_reason = reason;
        decay_score = max entry.decay_score retirement_threshold;
      } in
      let s' = put_entry id entry' s in
      let s'' : RuntimeState F J = record s' {
        retirement_events =
            s'.retirement_events ++ record { strategy_id = id; reason = reason } ∷ [];
      } in
      (
        entry',
        save_state s''
            (sync_registry_status (retire_sync id reason (round entry'.decay_score 4)) d),
      )

  -- the state that is returned, and the disk, which has it only if `changed`
  unfoldable pub apply_rolling_decay : List String → Disk F J → RuntimeState F J × Disk F J
  apply_rolling_decay ids d =
      let s = load_state d in
      let pass = decay_all (nonempty ids) s.strategy_health in
      let s' : RuntimeState F J = record s {
        strategy_health = pass.health;
        retirement_events = s.retirement_events ++ pass.retirements;
      } in
      let d' : Disk F J = record d { synced = d.synced ++ pass.messages } in
      (s', if pass.changed then save_state s' d' else d')

  -- `append_cycle` saves the state that it loaded before `apply_rolling_decay` ran
  unfoldable pub append_cycle : Cycle J → Disk F J → Disk F J
  append_cycle cycle d =
      let s = load_state d in
      let s' : RuntimeState F J = record s { cycles = s.cycles ++ cycle ∷ [] } in
      let (decayed, d') = apply_rolling_decay (nonempty cycle.portfolio) d in save_state s' d'
