-- ===== src/Runtime/Orchestrator.antt =====
-- ver9/runtime/orchestration/live_runtime_orchestrator.py: start, stop and the events between.
-- What it starts and stops is a list of calls; the recovery is that of Recovery, over the log that
-- the orchestrator appends to.
pub mod Restart
mod Tests
use crypto_trader_ver_9_alph.Prelude.{
  ℕ, ◌+◌, Bool, true, false, Option, none, some, List, [], ◌∷◌, ◌++◌,
}
use crypto_trader_ver_9_alph.Prelude.Float.{FloatOps}
use crypto_trader_ver_9_alph.Runtime.Recovery.{Event, ReplayableRuntimeState, recover}

pub data RuntimeCall : Type 0 where
  start_exchange : RuntimeCall
  start_scheduler : RuntimeCall
  stop_exchange : RuntimeCall
  stop_scheduler : RuntimeCall
  cancel_tasks : ℕ → RuntimeCall

-- The orchestrator with the log that it appends to, and the calls that it made.
pub record Orchestrator (F P : Type 0) : Type 0 where
  pub recovered : Bool
  pub active : Bool
  pub replayed_events : ℕ
  pub tasks : ℕ
  pub event_log : List (Event F P)
  pub calls : List RuntimeCall

module _ {F P : Type 0} where
  abbrev pub new_orchestrator : List (Event F P) → Orchestrator F P
  new_orchestrator log = record {
    recovered = false;
    active = false;
    replayed_events = 0;
    tasks = 0;
    event_log = log;
    calls = [];
  }

  -- `none` is the exception of a recovery that fails
  unfoldable pub start :
      ⦃o : FloatOps F⦄
      → Option (ReplayableRuntimeState F P)
      → Orchestrator F P
      → Option (Orchestrator F P)
  start checkpoint s = elim (recover checkpoint s.event_log) [
    | none ↦ none
    | some recovery ↦ some (record s {
      recovered = true;
      active = true;
      replayed_events = recovery.replayed_event_count;
      tasks = s.tasks + 2;
      calls = s.calls ++ start_exchange ∷ start_scheduler ∷ [];
    })
  ]

  unfoldable pub stop : Orchestrator F P → Orchestrator F P
  stop s = record s {
    active = false;
    calls = s.calls ++ stop_exchange ∷ stop_scheduler ∷ cancel_tasks s.tasks ∷ [];
  }

  unfoldable pub handle_runtime_event : Event F P → Orchestrator F P → Orchestrator F P
  handle_runtime_event e s = record s { event_log = s.event_log ++ e ∷ [] }

  unfoldable pub handle_all : List (Event F P) → Orchestrator F P → Orchestrator F P
  handle_all [] s = s
  handle_all (e ∷ es) s = handle_all es (handle_runtime_event e s)
