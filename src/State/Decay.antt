-- ===== src/State/Decay.antt =====
-- What the rolling decay does, and what of it reaches the file.
use crypto_trader_ver_9_alph.Prelude.{
  ℕ, zero, suc, ◌≡◌, refl, false, some, [], ◌∷◌, ◌++◌, String, arith, subst, sym, or_else, eq_refl,
  ◌∙◌,
}
use crypto_trader_ver_9_alph.Prelude.Dict.{Dict, lookup-insert}
use crypto_trader_ver_9_alph.Prelude.Float.{FloatOps}
use crypto_trader_ver_9_alph.State.{
  HealthEntry, Cycle, Disk, load_state, retired, default_state, health_entry, recover_strategy,
}
use crypto_trader_ver_9_alph.State.Rolling.{
  decay_all, must_retire, age, apply_rolling_decay, append_cycle,
}

module _ {F J : Type 0} ⦃o : FloatOps F⦄ where
  -- In the file, appending a cycle adds the cycle and leaves every health entry, retirement notice
  -- and the rest of the file as they were, whatever its portfolio: the decay that it runs is
  -- overwritten by the state loaded before.
  pub append_cycle_lem :
      (cycle : Cycle J) (d : Disk F J)
      → (append_cycle cycle d).file
        ≡ some (record (load_state d) { cycles = (load_state d).cycles ++ cycle ∷ [] })
  unfolding append_cycle apply_rolling_decay
  append_cycle_lem cycle d = ground arith

-- no entry would be retired by one more inactive cycle
abbrev pub NoneDue : {F : Type 0} ⦃o : FloatOps F⦄ → Dict (HealthEntry F) → Type 0
NoneDue [] = Unit
NoneDue ((id, e) ∷ d) = (must_retire (age e) ≡ false) × NoneDue d

decay_all-unchanged :
    {F : Type 0} ⦃o : FloatOps F⦄ (d : Dict (HealthEntry F))
    → NoneDue d
    → (decay_all [] d).changed ≡ false
unfolding decay_all
decay_all-unchanged [] h = refl
decay_all-unchanged ((id, e) ∷ d) h = ground (arith, decay_all-unchanged d h.1)

module _ {F J : Type 0} ⦃o : FloatOps F⦄ where
  apply_rolling_decay-unchanged :
      (d : Disk F J)
      → NoneDue (load_state d).strategy_health
      → (apply_rolling_decay [] d).1.file ≡ d.file
  unfolding apply_rolling_decay
  apply_rolling_decay-unchanged d h =
      ground (arith, decay_all-unchanged (load_state d).strategy_health h)

  abbrev pub decay_times : ℕ → Disk F J → Disk F J
  decay_times zero d = d
  decay_times (suc n) d = (apply_rolling_decay [] (decay_times n d)).1

  -- Where one more inactive cycle would retire no strategy, any number of decay passes with no
  -- active strategy leaves the file as it was: the scores do not add up over passes.
  pub decay_times_lem :
      (n : ℕ) (d : Disk F J)
      → NoneDue (load_state d).strategy_health
      → (decay_times n d).file ≡ d.file
  decay_times_lem zero d h = refl
  decay_times_lem (suc n) d h =
      let ih = decay_times_lem n d h in
      apply_rolling_decay-unchanged (decay_times n d)
        (subst (λ f. NoneDue (or_else f default_state).strategy_health) (sym ih) h)
      ∙ ih

  -- A recovery of a retired strategy clears its retirement flag and reason and leaves its status
  -- retired.
  recover_retired :
      (id reason : String) (d : Disk F J)
      → (health_entry (load_state d) id).status ≡ retired
      → let e = health_entry (load_state (recover_strategy id reason d).1) id in
        (e.status ≡ retired) × (e.is_retired ≡ false) × (e.retirement_reason ≡ "")
  unfolding recover_strategy
  recover_retired id reason d h = simp (lookup-insert, eq_refl) (ground arith)
