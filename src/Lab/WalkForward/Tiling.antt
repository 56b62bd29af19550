-- ===== src/Lab/WalkForward/Tiling.antt =====
-- The windows cover WALK_FORWARD without gap and overlap (src/lab/walk_forward.py), and so miss the holdout.
use native.Mathlib.Nat.{div-add-mod, le-div_iff_mul-le, mod-lt}
use self_evaluating_trading.Common.{
  ℕ, zero, suc, ◌+◌, ◌-◌, ◌*◌, ◌/◌, ◌%◌, ◌≤◌, ◌<◌, ◌≡◌, refl, subst, false, some, List, [], ◌∷◌,
  if◌then◌else◌, ltb, length, All, arith,
}
use self_evaluating_trading.Lab.WalkForward.{
  WindowSpec, windows_from, walk_forward_windows, is_holdout_range, walk_forward_start,
  walk_forward_end,
}

-- From a row to another, each window begins where the one before it ends, under the next index.
abbrev pub IsTiling : ℕ → ℕ → List WindowSpec → ℕ → Type 0
IsTiling i s [] e = s ≡ e
IsTiling i s (w ∷ ws) e =
    (w.index ≡ i) × (w.row_start ≡ s) × (s < w.row_end) × IsTiling (suc i) w.row_end ws e

windows_from-IsTiling :
    (k base extra i s e : ℕ)
    → 0 < base
    → extra ≤ i + k
    → e ≡ s + k * base + (extra - i)
    → IsTiling i s (windows_from k base extra i s) e
unfolding windows_from
windows_from-IsTiling zero base extra i s e b h q = omega arith
windows_from-IsTiling (suc k) base extra i s e b h q = (
  refl,
  refl,
  ground arith,
  windows_from-IsTiling k base extra (suc i) _ e b (omega arith) (ground arith),
)

-- The sizes of two windows differ by one row at most.
windows_from-size :
    (k base extra i s : ℕ)
    → All
        (λ w. (w.row_start + base ≤ w.row_end) × (w.row_end ≤ w.row_start + base + 1))
        (windows_from k base extra i s)
unfolding windows_from
windows_from-size zero base extra i s = tt
windows_from-size (suc k) base extra i s =
    ((ground arith, ground arith), windows_from-size k base extra (suc i) _)

length-windows_from : (k base extra i s : ℕ) → length (windows_from k base extra i s) ≡ k
unfolding windows_from
length-windows_from zero base extra i s = refl
length-windows_from (suc k) base extra i s =
    omega (
      arith,
      length-windows_from k base extra (suc i) (s + (base + (if ltb i extra then 1 else 0))),
    )

-- Every admissible number of windows is given: they stand in order under the indices from zero, the first
-- begins at the first row of WALK_FORWARD, each one begins where the one before ends and is not empty, the
-- last ends at the last row, and their sizes are the quotient or one more.
pub walk_forward_windows-IsTiling :
    (n : ℕ)
    → 0 < n
    → n ≤ 25920
    → (ws : List WindowSpec) × (walk_forward_windows n ≡ some ws)
      × (length ws ≡ n)
      × IsTiling 0 walk_forward_start ws walk_forward_end
      × All
          (λ w. (w.row_start + 25920 / n ≤ w.row_end) × (w.row_end ≤ w.row_start + 25920 / n + 1))
          ws
unfolding walk_forward_windows
walk_forward_windows-IsTiling n p h =
    let ws = windows_from n (25920 / n) (25920 % n) 0 walk_forward_start in
    let whole : walk_forward_end ≡ walk_forward_start + n * (25920 / n) + (25920 % n - 0) =
      omega (arith, div-add-mod 25920 n) in
    let full : 1 ≤ 25920 / n = (le-div_iff_mul-le p).1 (omega arith) in
    let tiles =
      windows_from-IsTiling n (25920 / n) (25920 % n) 0 walk_forward_start walk_forward_end full
        (omega (arith, mod-lt 25920 p)) whole in
    (ws, ground arith, length-windows_from n _ _ _ _, tiles, windows_from-size n _ _ _ _)

IsTiling-le : (i s e : ℕ) (ws : List WindowSpec) → IsTiling i s ws e → s ≤ e
IsTiling-le i s e [] t = omega arith
IsTiling-le i s e (w ∷ ws) (a, b, c, t) = omega (arith, IsTiling-le (suc i) w.row_end e ws t)

-- No window of a tiling that ends with WALK_FORWARD reaches the holdout.
pub IsTiling-is_holdout_range :
    (i s : ℕ) (ws : List WindowSpec)
    → IsTiling i s ws walk_forward_end
    → All (λ w. is_holdout_range w.row_start w.row_end ≡ some false) ws
unfolding is_holdout_range
IsTiling-is_holdout_range i s [] t = tt
IsTiling-is_holdout_range i s (w ∷ ws) (a, b, c, t) =
    let below = IsTiling-le (suc i) w.row_end walk_forward_end ws t in
    (ground arith, IsTiling-is_holdout_range (suc i) w.row_end ws t)

-- Research on the walk-forward windows never reads the holdout: however many windows are given, the range of
-- each is a valid range of rows that does not meet FINAL_HOLDOUT.
pub walk_forward_windows-is_holdout_range :
    (n : ℕ) (ws : List WindowSpec)
    → walk_forward_windows n ≡ some ws
    → All (λ w. is_holdout_range w.row_start w.row_end ≡ some false) ws
unfolding walk_forward_windows
walk_forward_windows-is_holdout_range n ws e =
    let (vs, q, l, t, z) = walk_forward_windows-IsTiling n (ground arith) (ground arith) in
    let same : vs ≡ ws = cc in
    IsTiling-is_holdout_range 0 walk_forward_start ws
      (subst (λ x. IsTiling 0 walk_forward_start x walk_forward_end) same t)
