-- ===== src/Windows/Examples.antt =====
-- Ten elements, the last two of them held out.
use self_evaluating_trading.Common.{ℕ, ◌≡◌, refl, some, List, [], ◌∷◌}
use self_evaluating_trading.Windows.{WalkForwardConfig, splitter, windows, windows_within, prepend}
use self_evaluating_trading.Windows.Complete.{IsComplete, windows-IsComplete}

abbrev config : WalkForwardConfig
config = record { initial_train = 3; val_size = 2; step = 1; holdout_size = 2 }

four_windows : windows 11 config 10 ≡ some ((3, 5) ∷ (4, 6) ∷ (5, 7) ∷ (6, 8) ∷ [])
unfolding windows windows_within prepend
four_windows = refl

windows-IsComplete_example :
    (ws : List (ℕ × ℕ)) × (windows 11 config 10 ≡ some ws) × IsComplete config 10 3 ws
unfolding splitter
windows-IsComplete_example = windows-IsComplete config 10 refl
