-- ===== src/Windows/Complete.antt =====
-- The loop of the splitter ends and gives every window (src/domain/experiments/walk_forward.py).
use self_evaluating_trading.Common.{
  inl, inr, ℕ, zero, suc, ◌+◌, ◌*◌, ◌<◌, ◌≡◌, refl, true, false, leb, Option, none, some, List, [],
  ◌∷◌, if◌then◌else◌, arith, get_elem?, Bool-cases,
}
use self_evaluating_trading.Windows.{WalkForwardConfig, splitter, prepend, windows_within, windows}

-- The window that begins at a row, where the limit leaves room for it.
abbrev pub window_at : WalkForwardConfig → ℕ → ℕ → Option (ℕ × ℕ)
window_at c n s = if leb (s + c.val_size + c.holdout_size) n then some (s, s + c.val_size) else none

-- The windows of a list are those that begin at s, s + step, s + 2 * step and so on, while there is room.
abbrev pub IsComplete : WalkForwardConfig → ℕ → ℕ → List (ℕ × ℕ) → Type 0
IsComplete c n s ws = (k : ℕ) → get_elem? ws k ≡ window_at c n (s + k * c.step)

next-IsComplete :
    (c : WalkForwardConfig) (n s : ℕ) (ws : List (ℕ × ℕ))
    → leb (s + c.val_size + c.holdout_size) n ≡ true
    → IsComplete c n (s + c.step) ws
    → IsComplete c n s ((s, s + c.val_size) ∷ ws)
next-IsComplete c n s ws room i zero = let q : s + 0 * c.step ≡ s = omega arith in rw (q, room) refl
next-IsComplete c n s ws room i (suc k) =
    let q : s + suc k * c.step ≡ s + c.step + k * c.step = omega arith in rw q (i k)

last-IsComplete :
    (c : WalkForwardConfig) (n s : ℕ)
    → leb (s + c.val_size + c.holdout_size) n ≡ false
    → IsComplete c n s []
last-IsComplete c n s full k =
    let more : leb (s + k * c.step + c.val_size + c.holdout_size) n ≡ false = ground arith in
    rw more refl

windows_within-IsComplete :
    (fuel : ℕ) (c : WalkForwardConfig) (n s : ℕ)
    → 0 < c.step
    → 0 < c.val_size
    → 0 < fuel
    → n < s + fuel
    → (ws : List (ℕ × ℕ)) × (windows_within fuel c n s ≡ some ws) × IsComplete c n s ws
unfolding windows_within prepend
windows_within-IsComplete zero c n s p v f h = absurd (omega arith)
windows_within-IsComplete (suc fuel) c n s p v f h =
    elim (Bool-cases (leb (s + c.val_size + c.holdout_size) n)) [
      | inl room ↦
          let (ws, e, i) =
            windows_within-IsComplete fuel c n (s + c.step) p v (ground arith) (omega arith) in
          ((s, s + c.val_size) ∷ ws, rw (room, e) refl, next-IsComplete c n s ws room i)
      | inr full ↦ ([], rw full refl, last-IsComplete c n s full)
    ]

-- The loop ends: for every configuration that the constructor accepts and every n, n + 1 rounds are enough,
-- and the list that is returned has as its k-th element the window that begins at
-- initial_train + k * step wherever that window ends before the last holdout_size elements, and no
-- other: no window is left out and none reaches the holdout.
pub windows-IsComplete :
    (c : WalkForwardConfig) (n : ℕ)
    → splitter c ≡ some c
    → (ws : List (ℕ × ℕ)) × (windows (n + 1) c n ≡ some ws) × IsComplete c n c.initial_train ws
unfolding windows splitter
windows-IsComplete c n h =
    windows_within-IsComplete (n + 1) c n c.initial_train (ground arith) (ground arith)
      (omega arith) (ground arith)
