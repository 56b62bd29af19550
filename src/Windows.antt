-- ===== src/Windows.antt =====
-- src/domain/experiments/walk_forward.py: the chronological windows with an expanding training part.
-- The numbers of a configuration are natural numbers; `limit`, which may be negative in the source, is not
-- computed: `x <= n - holdout_size` is `x + holdout_size <= n`.
pub mod Complete
mod Examples
use self_evaluating_trading.Common.{
  ℕ, zero, suc, ◌+◌, ◌||◌, ◌==◌, leb, Option, none, some, List, [], ◌∷◌, if◌then◌else◌,
}

pub record WalkForwardConfig : Type 0 where
  pub initial_train : ℕ
  pub val_size : ℕ
  pub step : ℕ
  pub holdout_size : ℕ

-- `WalkForwardSplitter.__init__`; `none` is its `ValueError`.
unfoldable pub splitter : WalkForwardConfig → Option WalkForwardConfig
splitter c = if leb c.initial_train 0 || leb c.val_size 0 || leb c.step 0 then none else some c

-- A window in front of the others, if the loop ends.
unfoldable pub prepend : ℕ × ℕ → Option (List (ℕ × ℕ)) → Option (List (ℕ × ℕ))
prepend w none = none
prepend w (some ws) = some (w ∷ ws)

-- The `while` loop from `val_start` on, with a bound on its rounds; `none` is a loop that goes on.
unfoldable pub windows_within : ℕ → WalkForwardConfig → ℕ → ℕ → Option (List (ℕ × ℕ))
windows_within zero c n val_start = none
windows_within (suc fuel) c n val_start =
    let rest = windows_within fuel c n (val_start + c.step) in
    if leb (val_start + c.val_size + c.holdout_size) n
    then prepend (val_start, val_start + c.val_size) rest
    else some []

unfoldable pub windows : ℕ → WalkForwardConfig → ℕ → Option (List (ℕ × ℕ))
windows fuel c n = windows_within fuel c n c.initial_train
