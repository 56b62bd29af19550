-- ===== src/Medallion/Capacity/Preflight.antt =====
-- What a passed preflight shows, and when the purge is not enough (src/infrastructure/medallion/capacity_guards.py).
use self_evaluating_trading.Common.{
  ℕ, ◌*◌, ◌≤◌, ◌<◌, ◌≡◌, refl, ◌∙◌, ◌⊎◌, inl, inr, Bool, true, false, leb, List, [], ◌++◌, arith,
  Bool-cases, Option-cases,
}
use self_evaluating_trading.Medallion.Capacity.{
  gib, CacheFile, Surroundings, CapacityGuardConfig, CapacityGuardResult, GuardError, Verdict,
  passed, failed, require_data_volume, purge_candidates, purge, finish, check_space, after_volume,
  run_capacity_preflight,
}
use self_evaluating_trading.Medallion.Capacity.Purge.{
  left, IsNeeded, IsPurge, purge-IsPurge, none-IsPurge,
}
use self_evaluating_trading.Medallion.Capacity.Volume.{
  is_early, IsIdentified, require_data_volume-IsIdentified, require_data_volume-is_early,
}

-- What holds of a result.
pub record IsReady (config : CapacityGuardConfig) (w : Surroundings) (allow_purge : Bool)
    (r : CapacityGuardResult) : Type 0 where
  pub identified : IsIdentified config w
  pub free_enough : config.min_free_gb * gib ≤ w.free
  pub small_enough : left w.cache_bytes r.purged ≤ config.cache_max_gb * gib
  pub first : (rest : List CacheFile) × (r.purged ++ rest ≡ purge_candidates config w)
  pub needed : IsNeeded (config.cache_max_gb * gib) w.cache_bytes r.purged
  pub permitted : (allow_purge ≡ true) ⊎ (r.purged ≡ [])

-- What led to the last step of a preflight that came so far.
record Reaches (config : CapacityGuardConfig) (w : Surroundings) (allow_purge : Bool) (v : Verdict)
    (p : List CacheFile × ℕ) : Type 0 where
  enough : config.min_free_gb * gib ≤ w.free
  purges : IsPurge (config.cache_max_gb * gib) w.cache_bytes (purge_candidates config w) p
  may : (allow_purge ≡ true) ⊎ (p.0 ≡ [])
  ends : finish config w p ≡ v

check_space-Reaches :
    (config : CapacityGuardConfig) (w : Surroundings) (allow_purge : Bool) (v : Verdict)
    → is_early v ≡ false
    → check_space config w allow_purge ≡ v
    → (p : List CacheFile × ℕ) × Reaches config w allow_purge v p
unfolding check_space
check_space-Reaches config w allow_purge v h e =
    let m = config.cache_max_gb * gib in
    elim (Bool-cases (leb w.cache_bytes m)) [
      | inl small ↦ (
        ([], w.cache_bytes),
        record {
          enough = ground arith;
          purges = none-IsPurge m w.cache_bytes (purge_candidates config w) small;
          may = inr refl;
          ends = ground arith;
        },
      )
      | inr large ↦ (
        purge m w.cache_bytes (purge_candidates config w),
        record {
          enough = ground arith;
          purges = purge-IsPurge m w.cache_bytes (purge_candidates config w);
          may = inl (ground arith);
          ends = ground arith;
        },
      )
    ]

finish_passed :
    (config : CapacityGuardConfig) (w : Surroundings) (p : List CacheFile × ℕ)
    (r : CapacityGuardResult)
    → finish config w p ≡ passed r
    → (p.1 ≤ config.cache_max_gb * gib) × (r.purged ≡ p.0)
unfolding finish
finish_passed config w (ps, b) r e = ground arith

finish_failed :
    (config : CapacityGuardConfig) (w : Surroundings) (p : List CacheFile × ℕ) (g : GuardError)
    (qs : List CacheFile)
    → finish config w p ≡ failed g qs
    → (config.cache_max_gb * gib < p.1) × (qs ≡ p.0)
unfolding finish
finish_failed config w (ps, b) g qs e = ground arith

run-Reaches :
    (config : CapacityGuardConfig) (w : Surroundings) (allow_purge : Bool) (v : Verdict)
    → is_early v ≡ false
    → run_capacity_preflight config w allow_purge ≡ v
    → IsIdentified config w × ((p : List CacheFile × ℕ) × Reaches config w allow_purge v p)
unfolding run_capacity_preflight after_volume
run-Reaches config w allow_purge v h e = elim (Option-cases (require_data_volume config w)) [
  | inl q ↦ (
    require_data_volume-IsIdentified config w q,
    check_space-Reaches config w allow_purge v h (ground arith),
  )
  | inr (g, q) ↦ absurd (ground (arith, require_data_volume-is_early config w g q))
]

-- A preflight that passes shows that the mounted volume is the one that the configuration names, by its marker
-- and by its identity, that the space asked for is free, and that the cache is within its maximum once what was
-- purged is subtracted. What was purged are the first of the disposable files in their order, each one removed
-- while the cache was above the maximum, and nothing was purged if that is not allowed.
pub run_capacity_preflight-IsReady :
    (config : CapacityGuardConfig) (w : Surroundings) (allow_purge : Bool) (r : CapacityGuardResult)
    → run_capacity_preflight config w allow_purge ≡ passed r
    → IsReady config w allow_purge r
run_capacity_preflight-IsReady config w allow_purge r e =
    let (identified, (p, reached)) = run-Reaches config w allow_purge (passed r) refl e in
    let (small, same) = finish_passed config w p r reached.ends in
    record {
      identified = identified;
      free_enough = reached.enough;
      small_enough = rw (same, ← reached.purges.counted) small;
      first = rw same reached.purges.first;
      needed = rw same reached.purges.needed;
      permitted = rw same reached.may;
    }

-- A preflight that fails after the purge has removed every disposable file, and the cache is still above its
-- maximum without them.
pub run_capacity_preflight-exhausted :
    (config : CapacityGuardConfig) (w : Surroundings) (allow_purge : Bool) (purged : List CacheFile)
    → run_capacity_preflight config w allow_purge ≡ failed GuardError.cache_max_after_purge purged
    → (purged ≡ purge_candidates config w)
      × (config.cache_max_gb * gib < left w.cache_bytes (purge_candidates config w))
run_capacity_preflight-exhausted config w allow_purge purged e =
    let (identified, (p, reached)) =
      run-Reaches config w allow_purge (failed GuardError.cache_max_after_purge purged) refl e in
    let (large, same) = finish_failed config w p _ purged reached.ends in
    let all : p.0 ≡ purge_candidates config w = elim reached.purges.exhausted [
      | inl h ↦ absurd (omega arith)
      | inr q ↦ q
    ] in
    (same ∙ all, rw (← all, ← reached.purges.counted) large)
