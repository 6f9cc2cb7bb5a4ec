-- ===== src/State/Ladder.antt =====
-- Quarantine and the way back: quarantined, probationary, active.
use crypto_trader_ver_9_alph.Prelude.{
  ℕ, zero, suc, ◌≡◌, refl, ap, ◌∙◌, List, [], ◌∷◌, String, arith, eq_refl, select, not, str_eq, ltb,
}
use crypto_trader_ver_9_alph.Prelude.Dict.{lookup-insert}
use crypto_trader_ver_9_alph.Prelude.Float.{FloatOps}
use crypto_trader_ver_9_alph.State.{
  HealthStatus, active, quarantined, probationary, Notice, Disk, load_state, is_quarantined_status,
  health_entry, is_quarantined, quarantine_strategy, recover_strategy,
}

-- where a strategy stands after `k` recoveries from a quarantine, and its recovery streak there
abbrev pub rung : ℕ → HealthStatus
rung zero = quarantined
rung (suc zero) = quarantined
rung (suc (suc zero)) = probationary
rung (suc (suc (suc zero))) = probationary
rung (suc (suc (suc (suc k)))) = active

rung-quarantined : (n : ℕ) → is_quarantined_status (rung n) ≡ ltb n 2
rung-quarantined zero = refl
rung-quarantined (suc zero) = refl
rung-quarantined (suc (suc zero)) = refl
rung-quarantined (suc (suc (suc zero))) = refl
rung-quarantined (suc (suc (suc (suc k)))) = ground arith

abbrev streak : ℕ → ℕ
streak zero = 0
streak (suc zero) = 1
streak (suc (suc zero)) = 0
streak (suc (suc (suc zero))) = 1
streak (suc (suc (suc (suc k)))) = 0

-- the quarantine records of a strategy
abbrev records_of : String → List Notice → List Notice
records_of id = select (λ item. str_eq (item.strategy_id) id)

records_of-removed :
    (id : String) (xs : List Notice)
    → records_of id (select (λ item. not (str_eq (item.strategy_id) id)) xs) ≡ []
records_of-removed id [] = refl
records_of-removed id (x ∷ xs) = ground (arith, records_of-removed id xs)

module _ {F J : Type 0} ⦃o : FloatOps F⦄ (id : String) where
  -- from the fourth recovery on, no record is left
  abbrev pub IsCleared : ℕ → Disk F J → Type 0
  IsCleared (suc (suc (suc (suc k)))) d = records_of id (load_state d).quarantined_strategies ≡ []
  IsCleared _ d = Unit

  -- the strategy stands on rung `k`
  abbrev Stands : ℕ → Disk F J → Type 0
  Stands k d =
      ((health_entry (load_state d) id).status ≡ rung k)
      × ((health_entry (load_state d) id).recovery_streak ≡ streak k)
      × IsCleared k d

  quarantine-Stands :
      (reason : String) (d : Disk F J) → Stands 0 (quarantine_strategy id reason d).1
  unfolding quarantine_strategy
  quarantine-Stands reason d = simp (lookup-insert, eq_refl) (refl, refl, tt)

  recover-Stands :
      (reason : String) (k : ℕ) (d : Disk F J)
      → Stands k d
      → Stands (suc k) (recover_strategy id reason d).1
  unfolding recover_strategy
  recover-Stands reason zero d h = simp (lookup-insert, eq_refl) (ground arith)
  recover-Stands reason (suc zero) d h = simp (lookup-insert, eq_refl) (ground arith)
  recover-Stands reason (suc (suc zero)) d h = simp (lookup-insert, eq_refl) (ground arith)
  recover-Stands reason (suc (suc (suc zero))) d h =
      simp (lookup-insert, eq_refl)
        (ground (arith, records_of-removed id (load_state d).quarantined_strategies))
  recover-Stands reason (suc (suc (suc (suc k)))) d h = simp (lookup-insert, eq_refl) (ground arith)

  abbrev pub recover_times : ℕ → String → Disk F J → Disk F J
  recover_times zero reason d = d
  recover_times (suc k) reason d = (recover_strategy id reason (recover_times k reason d)).1

  ladder-Stands :
      (why reason : String) (n : ℕ) (d : Disk F J)
      → Stands n (recover_times n reason (quarantine_strategy id why d).1)
  ladder-Stands why reason zero d = quarantine-Stands why d
  ladder-Stands why reason (suc n) d =
      recover-Stands reason n (recover_times n reason (quarantine_strategy id why d).1)
        (ladder-Stands why reason n d)

  -- Whatever a strategy's history, after a quarantine and n recoveries it is quarantined for
  -- n = 0 and 1, probationary for n = 2 and 3, and active from then on; `is_quarantined` holds
  -- exactly below 2; and from the fourth recovery on, no quarantine record of the strategy is left,
  -- however many there were.
  pub recovery_ladder :
      (why reason : String) (n : ℕ) (d : Disk F J)
      → let d' = recover_times n reason (quarantine_strategy id why d).1 in
        ((health_entry (load_state d') id).status ≡ rung n)
        × ((is_quarantined id d' ≡ ltb n 2) × IsCleared n d')
  unfolding is_quarantined
  recovery_ladder why reason n d =
      let h = ladder-Stands why reason n d in
      (h.0, (ap is_quarantined_status h.0 ∙ rung-quarantined n, h.2))
