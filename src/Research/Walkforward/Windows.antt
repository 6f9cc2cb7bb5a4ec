-- ===== src/Research/Walkforward/Windows.antt =====
-- The windows that the validation makes, and that it ends.
use crypto_trader_ver_9_alph.Prelude.{
  ℕ, zero, suc, ◌+◌, ◌-◌, ◌≤◌, ◌<◌, ◌≡◌, ◌⊎◌, refl, ap, ◌∙◌, sym, subst, ◌*◌, true, false, Option,
  none, some, List, [], ◌∷◌, length, take, drop, leb, arith, Bool-cases, Option-cases, inl, inr,
}
use crypto_trader_ver_9_alph.Research.Walkforward.{
  WalkForwardWindow, WalkForwardResult, WalkForwardValidator, Outcome, returned, raised,
  out_of_fuel, window_at, test_frame, validate_from, validate,
}

-- A window at a cursor: `train_size` rows that end at the cursor (as many as there are before it),
-- and the `test_size` rows from it on, all of them in a frame of `rows` rows.
pub record IsWindow (validator : WalkForwardValidator) (rows cursor : ℕ) (w : WalkForwardWindow)
    : Type 0 where
  pub train : w.train_end ≡ cursor
  pub train_rows : w.train_start ≡ cursor - validator.train_size
  pub follows : w.test_start ≡ w.train_end
  pub test_rows : w.test_end ≡ w.test_start + validator.test_size
  pub inside : w.test_end ≤ rows

-- Windows from a cursor on, one step apart, until the test part no longer fits.
abbrev pub Rolls : WalkForwardValidator → ℕ → ℕ → List WalkForwardWindow → Type 0
Rolls validator rows cursor [] = rows < cursor + validator.test_size
Rolls validator rows cursor (w ∷ ws) =
    IsWindow validator rows cursor w × Rolls validator rows (cursor + validator.step_size) ws

module _ {Row B : Type 0} (run : List Row → Option B) (validator : WalkForwardValidator) where
  -- The backtest of the rows of the window's test part.
  abbrev pub backtest : List Row → WalkForwardWindow → Option B
  backtest frame w = run (take validator.test_size (drop w.test_start frame))

  -- Each result is what the backtest of its window returns.
  abbrev pub AreResults : List Row → List WalkForwardWindow → List B → Type 0
  AreResults frame [] [] = Unit
  AreResults frame [] (b ∷ bs) = ⊥
  AreResults frame (w ∷ ws) [] = ⊥
  AreResults frame (w ∷ ws) (b ∷ bs) = (backtest frame w ≡ some b) × AreResults frame ws bs

  -- It returns such windows with their results, or it raises, and so does the backtest of a window
  -- that starts a whole number of steps after the cursor.
  abbrev pub Validates : List Row → ℕ → Outcome B → Type 0
  Validates frame cursor o =
      ((r : WalkForwardResult B) × (o ≡ returned r)
        × Rolls validator (length frame) cursor r.windows
        × AreResults frame r.windows r.test_results)
      ⊎ ((o ≡ raised)
          × ((n : ℕ) × (w : WalkForwardWindow) × IsWindow validator (length frame)
                (cursor + n * validator.step_size) w
              × (backtest frame w ≡ none)))

  window_at-IsWindow :
      (rows cursor : ℕ)
      → cursor + validator.test_size ≤ rows
      → IsWindow validator rows cursor (window_at validator cursor)
  window_at-IsWindow rows cursor h = record {
    train = refl;
    train_rows = refl;
    follows = refl;
    test_rows = refl;
    inside = h;
  }

  backtest-test_frame :
      (frame : List Row) (cursor : ℕ)
      → backtest frame (window_at validator cursor)
        ≡ run (test_frame frame (window_at validator cursor))
  backtest-test_frame frame cursor =
      let e : validator.test_size ≡ (cursor + validator.test_size) - cursor = omega arith in
      ap (λ n. run (take n (drop cursor frame))) e

  -- an exception, whose window is `n` steps after the cursor
  raised_at :
      (frame : List Row) (cursor later n : ℕ) (w : WalkForwardWindow) (o : Outcome B)
      → o ≡ raised
      → later ≡ cursor + n * validator.step_size
      → IsWindow validator (length frame) later w
      → backtest frame w ≡ none
      → Validates frame cursor o
  raised_at frame cursor later n w o p e i b =
      inr (p, (n, w, subst (λ c. IsWindow validator (length frame) c w) e i, b))

  validate_from-Validates :
      (fuel cursor : ℕ) (frame : List Row)
      → 1 ≤ validator.step_size
      → length frame < cursor + fuel
      → Validates frame cursor (validate_from run validator (suc fuel) cursor frame)
  unfolding validate_from
  validate_from-Validates zero cursor frame h f =
      let e : leb (cursor + validator.test_size) (length frame) ≡ false = ground arith in
      rw (e, validate_from)
        (inl (record { windows = []; test_results = [] }, refl, ground arith, tt))
  validate_from-Validates (suc fuel) cursor frame h f =
      let w = window_at validator cursor in
      elim (Bool-cases (leb (cursor + validator.test_size) (length frame))) [
        | inr e ↦
            rw (e, validate_from)
              (inl (record { windows = []; test_results = [] }, refl, ground arith, tt))
        | inl e ↦
            let fits = window_at-IsWindow (length frame) cursor (ground arith) in
            elim (Option-cases (run (test_frame frame w))) [
              | inl b ↦
                  rw (e, validate_from, b)
                    (raised_at frame cursor cursor 0 w raised refl (omega arith) fits
                      (backtest-test_frame frame cursor ∙ b))
              | inr (x, b) ↦
                  elim (validate_from-Validates fuel (cursor + validator.step_size) frame h
                    (omega arith)) [
                      | inl (r, p, q, rs) ↦
                          rw (e, validate_from, b, p)
                            (inl (
                              record { windows = w ∷ r.windows; test_results = x ∷ r.test_results },
                              refl,
                              (fits, q),
                              (backtest-test_frame frame cursor ∙ b, rs),
                            ))
                      | inr (p, (n, later, i, none_of)) ↦
                          rw (e, validate_from, b, p)
                            (raised_at frame cursor
                              (cursor + validator.step_size + n * validator.step_size) (suc n) later
                              raised refl (omega arith) i none_of)
                    ]
            ]
      ]

  -- With a positive step and at least two more steps of fuel than the frame has rows, the
  -- validation ends. It returns windows whose test parts start at the training size and then one
  -- step apart, each with the `test_size` rows that follow its training part (the `train_size` rows
  -- before it) and inside the frame, until no further one fits, each with what the backtest of its
  -- test rows returns; or it raises, and then the backtest of some such window does.
  pub validate_lem :
      (fuel : ℕ) (frame : List Row)
      → 1 ≤ validator.step_size
      → length frame + 1 < fuel
      → Validates frame validator.train_size (validate run validator fuel frame)
  unfolding validate
  validate_lem zero frame h f = absurd (omega arith)
  validate_lem (suc fuel) frame h f =
      validate_from-Validates fuel validator.train_size frame h (omega arith)

  -- No outcome but running out of fuel, or an exception that the backtest of the rows from the
  -- cursor on raises.
  abbrev pub NeverReturns : List Row → ℕ → Outcome B → Type 0
  NeverReturns frame cursor o =
      (o ≡ out_of_fuel)
      ⊎ ((o ≡ raised) × (run (take validator.test_size (drop cursor frame)) ≡ none))

  endless :
      (fuel cursor : ℕ) (frame : List Row)
      → validator.step_size ≡ 0
      → cursor + validator.test_size ≤ length frame
      → NeverReturns frame cursor (validate_from run validator fuel cursor frame)
  unfolding validate_from
  endless zero cursor frame h f = inl refl
  endless (suc fuel) cursor frame h f =
      let e : leb (cursor + validator.test_size) (length frame) ≡ true = ground arith in
      let here : cursor + validator.step_size ≡ cursor = omega arith in
      let w = window_at validator cursor in
      elim (Option-cases (run (test_frame frame w))) [
        | inl b ↦ rw (e, validate_from, b) (inr (refl, backtest-test_frame frame cursor ∙ b))
        | inr (x, b) ↦ elim (endless fuel cursor frame h f) [
          | inl p ↦ rw (e, validate_from, b, here, p) (inl refl)
          | inr (p, n) ↦
              let two = sym b ∙ sym (backtest-test_frame frame cursor) ∙ n in ground (arith, two)
        ]
      ]

  -- With a step of 0 and room for a first window, the validation returns on no amount of fuel: it
  -- goes on as long as there is fuel, or the backtest of the first test rows raises.
  pub validate_endless :
      (fuel : ℕ) (frame : List Row)
      → validator.step_size ≡ 0
      → validator.train_size + validator.test_size ≤ length frame
      → NeverReturns frame validator.train_size (validate run validator fuel frame)
  unfolding validate
  validate_endless fuel frame h f = endless fuel validator.train_size frame h f
