-- ===== src/Research/Walkforward/Tests.antt =====
-- A run of the walk-forward validation, and its theorems at concrete inputs.
use crypto_trader_ver_9_alph.Prelude.{ℕ, ◌≡◌, refl, Option, some, List, [], ◌∷◌, length, arith}
use crypto_trader_ver_9_alph.Research.Walkforward.{
  WalkForwardValidator, returned, validate, validate_from,
}
use crypto_trader_ver_9_alph.Research.Walkforward.Windows.{
  Validates, NeverReturns, validate_lem, validate_endless,
}

abbrev validator : WalkForwardValidator
validator = record { train_size = 2; test_size = 2; step_size = 1 }

abbrev frame : List ℕ
frame = 10 ∷ 11 ∷ 12 ∷ 13 ∷ 14 ∷ []

abbrev counted : List ℕ → Option ℕ
counted rows = some (length rows)

-- the backtest is stood for by the number of its rows
two_windows :
    validate {B = ℕ} counted validator 7 frame
    ≡ returned (record {
      windows =
          record { train_start = 0; train_end = 2; test_start = 2; test_end = 4 }
          ∷ record { train_start = 1; train_end = 3; test_start = 3; test_end = 5 }
          ∷ [];
      test_results = 2 ∷ 2 ∷ [];
    })
unfolding validate validate_from
two_windows = refl

validate_lem_example :
    Validates {B = ℕ} counted validator frame 2 (validate counted validator 7 frame)
validate_lem_example = validate_lem counted validator 7 frame (omega arith) (omega arith)

abbrev stuck : WalkForwardValidator
stuck = record validator { step_size = 0 }

validate_endless_example :
    NeverReturns {B = ℕ} counted stuck frame 2 (validate counted stuck 1000 frame)
validate_endless_example = validate_endless counted stuck 1000 frame refl (omega arith)
