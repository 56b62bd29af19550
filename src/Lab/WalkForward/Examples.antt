-- ===== src/Lab/WalkForward/Examples.antt =====
-- WALK_FORWARD in seven windows, the first six of them with one row more.
use self_evaluating_trading.Common.{◌+◌, ◌/◌, ◌≤◌, ◌≡◌, arith, some, List, length, All}
use self_evaluating_trading.Lab.WalkForward.{
  WindowSpec, walk_forward_windows, walk_forward_start, walk_forward_end,
}
use self_evaluating_trading.Lab.WalkForward.Tiling.{IsTiling, walk_forward_windows-IsTiling}

walk_forward_windows-IsTiling_example :
    (ws : List WindowSpec) × (walk_forward_windows 7 ≡ some ws)
    × (length ws ≡ 7)
    × IsTiling 0 walk_forward_start ws walk_forward_end
    × All
        (λ w. (w.row_start + 25920 / 7 ≤ w.row_end) × (w.row_end ≤ w.row_start + 25920 / 7 + 1))
        ws
walk_forward_windows-IsTiling_example = walk_forward_windows-IsTiling 7 (omega arith) (omega arith)
