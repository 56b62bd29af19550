-- ===== src/Medallion/Capacity/Retention.antt =====
-- Which logs the retention removes (src/infrastructure/medallion/capacity_guards.py).
use mathlib.Core.List.{Perm, perm_middle}
use mathlib.Core.List.Perm
use self_evaluating_trading.Common.{
  ℕ, ◌≡◌, refl, true, false, some, List, [], ◌∷◌, All, Bool-cases, inl, inr, ◌++◌,
}
use self_evaluating_trading.Medallion.Capacity.{
  LogFile, is_expired, expired, remaining, apply_runtime_log_retention,
}

module _ (now_ns days : ℕ) where
  -- What is gone is expired, what is kept is not, and together they are what was there.
  abbrev pub IsPartition : List LogFile → List LogFile → List LogFile → Type 0
  IsPartition fs gone kept =
      All (λ f. is_expired now_ns days f ≡ true) gone
      × All (λ f. is_expired now_ns days f ≡ false) kept
      × Perm (gone ++ kept) fs

  expired-IsPartition :
      (fs : List LogFile) → IsPartition fs (expired now_ns days fs) (remaining now_ns days fs)
  unfolding expired remaining
  expired-IsPartition [] = (tt, tt, Perm.refl [])
  expired-IsPartition (f ∷ fs) =
      let (gone, kept, perm) = expired-IsPartition fs in
      elim (Bool-cases (is_expired now_ns days f)) [
        | inl old ↦ rw old ((old, gone), kept, Perm.cons f perm)
        | inr new ↦ rw new (gone, (new, kept), Perm.trans (perm_middle _ _) (Perm.cons f perm))
      ]

  -- A run removes exactly the files that were last changed before the cutoff and returns them, and keeps every
  -- other entry; a dry run returns the same files and removes none.
  pub apply_runtime_log_retention-IsPartition :
      (fs : List LogFile)
      → (gone kept : List LogFile) × (apply_runtime_log_retention now_ns days false (some fs)
          ≡ (gone, some kept))
        × (apply_runtime_log_retention now_ns days true (some fs) ≡ (gone, some fs))
        × IsPartition fs gone kept
  unfolding apply_runtime_log_retention
  apply_runtime_log_retention-IsPartition fs =
      (expired now_ns days fs, remaining now_ns days fs, refl, refl, expired-IsPartition fs)
