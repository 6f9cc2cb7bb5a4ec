-- ===== src/State/Tests.antt =====
-- Runs of the health state, and its theorems at concrete inputs.
use crypto_trader_ver_9_alph.Prelude.{ℕ, ◌≡◌, refl, false, none, some, [], ◌∷◌, String}
use crypto_trader_ver_9_alph.Prelude.Int.{ℤ, pos}
use crypto_trader_ver_9_alph.Prelude.Dict.{lookup, insert}
use crypto_trader_ver_9_alph.Prelude.Fixed.{fixed}
use crypto_trader_ver_9_alph.State.{
  active, quarantined, probationary, retired, HealthEntry, Cycle, Disk, default_state, new_entry,
  load_state, health_entry, is_quarantined, quarantine_strategy, recover_strategy,
}
use crypto_trader_ver_9_alph.State.Rolling.{retire_strategy, apply_rolling_decay, decay_all}
use crypto_trader_ver_9_alph.State.Ladder.{recover_times, recovery_ladder, IsCleared}
use crypto_trader_ver_9_alph.State.Decay.{decay_times, decay_times_lem}

abbrev empty_disk : Disk ℤ String
empty_disk = record { file = none; synced = [] }

-- the disk after one quarantine
abbrev sick_disk : Disk ℤ String
sick_disk = (quarantine_strategy "eth_mr_alpha" "risk_failure" empty_disk).1

ladder_runs :
    let status = λ (n : ℕ).
      (health_entry
        (load_state (recover_times "eth_mr_alpha" n "recovery" sick_disk))
        "eth_mr_alpha").status in
    (status 1 ≡ quarantined)
    × (status 2 ≡ probationary)
    × (status 3 ≡ probationary)
    × (status 4 ≡ active)
unfolding quarantine_strategy recover_strategy lookup insert
ladder_runs = (refl, refl, refl, refl)

recovery_ladder_example :
    let d = recover_times "eth_mr_alpha" 4 "recovery" sick_disk in
    ((health_entry (load_state d) "eth_mr_alpha").status ≡ active)
    × ((is_quarantined "eth_mr_alpha" d ≡ false) × IsCleared "eth_mr_alpha" 4 d)
recovery_ladder_example = recovery_ladder "eth_mr_alpha" "risk_failure" "recovery" 4 empty_disk

abbrev cycle : Cycle String
cycle = record { portfolio = "eth_mr_alpha" ∷ []; body = "{}" }

-- A strategy one inactive cycle below retirement.
abbrev old_entry : HealthEntry ℤ
old_entry = record (new_entry "old") { decay_score = pos 530000 }

abbrev old_disk : Disk ℤ String
old_disk = record {
  file =
      some
        (record (default_state {F = ℤ} {J = String}) { strategy_health = ("old", old_entry) ∷ [] });
  synced = [];
}

decay_retires :
    let (s, d) = apply_rolling_decay [] old_disk in
    ((health_entry s "old").status ≡ retired)
    × ((health_entry (load_state d) "old").status ≡ retired)
unfolding apply_rolling_decay decay_all lookup
decay_retires = (refl, refl)

abbrev young_disk : Disk ℤ String
young_disk = record {
  file = some (record (default_state {F = ℤ} {J = String}) {
    strategy_health = ("young", new_entry "young") ∷ [];
  });
  synced = [];
}

decay_times_lem_example : (decay_times 9 young_disk).file ≡ young_disk.file
decay_times_lem_example = decay_times_lem 9 young_disk (refl, tt)

abbrev retired_disk : Disk ℤ String
retired_disk = (retire_strategy "old" "inactive_decay" old_disk).1
