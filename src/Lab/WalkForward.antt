-- ===== src/Lab/WalkForward.antt =====
-- src/lab/splits.py and the windows of src/lab/walk_forward.py. A row number and a count of windows are
-- natural numbers; `none` is the `ValueError`.
pub mod Tiling
mod Examples
use self_evaluating_trading.Common.{
  ℕ, zero, suc, ◌+◌, ◌-◌, ◌/◌, ◌%◌, Bool, ◌&&◌, ◌||◌, Option, none, some, List, [], ◌∷◌,
  if◌then◌else◌, ltb, leb,
}

abbrev pub total_rows : ℕ
total_rows = 103680

abbrev pub walk_forward_start : ℕ
walk_forward_start = 62208

abbrev pub walk_forward_end : ℕ
walk_forward_end = 88128

abbrev pub final_holdout_start : ℕ
final_holdout_start = 88128

abbrev pub final_holdout_end : ℕ
final_holdout_end = 103680

unfoldable pub is_holdout_range : ℕ → ℕ → Option Bool
is_holdout_range start end =
    if ltb total_rows end || leb end start
    then none
    else some (ltb start final_holdout_end && ltb final_holdout_start end)

pub record WindowSpec : Type 0 where
  pub index : ℕ
  pub row_start : ℕ
  pub row_end : ℕ

-- The loop over `range(n_windows)`, with the rounds that are left.
unfoldable pub windows_from : ℕ → ℕ → ℕ → ℕ → ℕ → List WindowSpec
windows_from zero base extra index start = []
windows_from (suc rounds) base extra index start =
    let size = base + (if ltb index extra then 1 else 0) in
    record { index = index; row_start = start; row_end = start + size }
    ∷ windows_from rounds base extra (suc index) (start + size)

unfoldable pub walk_forward_windows : ℕ → Option (List WindowSpec)
walk_forward_windows n_windows =
    let total = walk_forward_end - walk_forward_start in
    if ltb n_windows 1 || ltb total n_windows
    then none
    else some (windows_from n_windows (total / n_windows) (total % n_windows) 0 walk_forward_start)
