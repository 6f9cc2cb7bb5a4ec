-- ===== src/Research/Walkforward.antt =====
-- ver9/research/validation/walkforward.py: the windows of the walk-forward validation. A frame is
-- the list of its rows; the sizes are naturals. The backtest of a window, which is that of
-- Backtest with its strategy, symbol and time frame, is an argument that gives `none` where it
-- raises. The `while` loop runs on fuel.
pub mod Windows
mod Tests
use crypto_trader_ver_9_alph.Prelude.{
  ℕ, zero, suc, ◌+◌, ◌-◌, Option, none, some, List, [], ◌∷◌, length, take, drop, leb, if◌then◌else◌,
}

pub record WalkForwardWindow : Type 0 where
  pub train_start : ℕ
  pub train_end : ℕ
  pub test_start : ℕ
  pub test_end : ℕ

pub record WalkForwardResult (B : Type 0) : Type 0 where
  pub windows : List WalkForwardWindow
  pub test_results : List B

pub record WalkForwardValidator : Type 0 where
  pub train_size : ℕ
  pub test_size : ℕ
  pub step_size : ℕ

abbrev pub default_validator : WalkForwardValidator
default_validator = record { train_size = 500; test_size = 100; step_size = 100 }

-- the window at a cursor
abbrev pub window_at : WalkForwardValidator → ℕ → WalkForwardWindow
window_at validator cursor = record {
  train_start = cursor - validator.train_size;
  train_end = cursor;
  test_start = cursor;
  test_end = cursor + validator.test_size;
}

-- `frame.iloc[test_start:test_end]`
abbrev pub test_frame : {Row : Type 0} → List Row → WalkForwardWindow → List Row
test_frame frame w = take (w.test_end - w.test_start) (drop w.test_start frame)

-- How the loop ends: with its result, by an exception of a backtest, or not within the fuel.
pub data Outcome (B : Type 0) : Type 0 where
  returned : WalkForwardResult B → Outcome B
  raised : Outcome B
  out_of_fuel : Outcome B

abbrev pub add_window : {B : Type 0} → WalkForwardWindow → B → Outcome B → Outcome B
add_window w b (returned r) =
    returned (record { windows = w ∷ r.windows; test_results = b ∷ r.test_results })
add_window w b raised = raised
add_window w b out_of_fuel = out_of_fuel

-- The round of a window, from its backtest on.
abbrev pub after_backtest : {B : Type 0} → WalkForwardWindow → Option B → Outcome B → Outcome B
after_backtest w none rest = raised
after_backtest w (some b) rest = add_window w b rest

module _ {Row B : Type 0} (run : List Row → Option B) (validator : WalkForwardValidator) where
  unfoldable pub validate_from : ℕ → ℕ → List Row → Outcome B
  validate_from zero cursor frame = out_of_fuel
  validate_from (suc fuel) cursor frame =
      let rest = validate_from fuel (cursor + validator.step_size) frame in
      let w = window_at validator cursor in
      if leb (cursor + validator.test_size) (length frame)
      then after_backtest w (run (test_frame frame w)) rest
      else returned (record { windows = []; test_results = [] })

  unfoldable pub validate : ℕ → List Row → Outcome B
  validate fuel frame = validate_from fuel validator.train_size frame
