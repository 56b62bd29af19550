-- ===== src/Medallion/Examples.antt =====
-- Days at the borders of the split, and a refresh that has to purge.
use self_evaluating_trading.Common.{
  ℕ, ◌*◌, ◌≤◌, ◌<◌, ◌≡◌, refl, arith, true, some, List, [], ◌∷◌, String, strip, lstrip, rstrip,
  is_blank, is_space, first_line,
}
use self_evaluating_trading.Lab.WalkForward.{final_holdout_end}
use self_evaluating_trading.Medallion.SplitGuard.{
  date, IngestScope, IngestClass, classify_ingest_day, allowed, ensure_ingest_allowed,
}
use self_evaluating_trading.Medallion.SplitGuard.Rows.{ensure_ingest_allowed-rows}
use self_evaluating_trading.Medallion.Capacity.{
  gib, Json, CacheFile, LogFile, Surroundings, CapacityGuardConfig, CapacityGuardResult, GuardError,
  Verdict, marker_of, marker_identity, check_marker, require_data_volume, purge_candidates,
  purge_round, purge, is_expired, expired, apply_runtime_log_retention, finish, check_space,
  after_volume, run_capacity_preflight,
}
use self_evaluating_trading.Medallion.Capacity.Purge.{left}
use self_evaluating_trading.Medallion.Capacity.Preflight.{
  IsReady, run_capacity_preflight-IsReady, run_capacity_preflight-exhausted,
}

-- The first day of the future collection, and its first minute.
ensure_ingest_allowed-rows_example : final_holdout_end ≤ 103705
unfolding date ensure_ingest_allowed classify_ingest_day allowed
ensure_ingest_allowed-rows_example =
    ensure_ingest_allowed-rows (date 2026 8 24) 103705 IngestScope.development_and_future_collection
      IngestClass.future_collection refl (omega arith) (omega arith, omega arith)

abbrev config : CapacityGuardConfig
config = record {
  expected_label = "LENOVO_DATA";
  expected_uuid = "10fff707";
  min_free_gb = 50;
  cache_max_gb = 1;
  disposable_subdirs = "tmp" ∷ "cache" ∷ [];
  has_runtime_log_dir = true;
  runtime_log_retention_days = 30;
}

abbrev below : String → List CacheFile
below name = record { name = name; size = gib } ∷ []

abbrev logs : List LogFile
logs =
    record { name = "a.log"; is_file = true; mtime_ns = 0 }
    ∷ record { name = "b.log"; is_file = true; mtime_ns = 3_000_000_000_000_000 }
    ∷ []

-- The cache with so many gibibytes.
abbrev surroundings : ℕ → Surroundings
surroundings n = record {
  is_mount = true;
  marker_text = some " LENOVO_DATA ";
  volume_identity = record { label = "LENOVO_DATA"; uuid = "10fff707" };
  free = 50 * gib;
  cache_bytes = n * gib;
  files_below = below;
  logs = some logs;
  now_ns = 3_000_000_000_000_000;
  loads = λ s. Json.no_json;
}

abbrev result : CapacityGuardResult
result = record {
  free_gb = 50;
  cache_gb = 1;
  purged = below "cache";
  retained_logs_removed = record { name = "a.log"; is_file = true; mtime_ns = 0 } ∷ [];
}

purged_once : run_capacity_preflight config (surroundings 2) true ≡ Verdict.passed result
unfolding run_capacity_preflight after_volume check_space finish purge purge_round
    require_data_volume check_marker marker_identity marker_of apply_runtime_log_retention expired
    is_expired purge_candidates strip lstrip rstrip is_blank is_space first_line
purged_once = refl

run_capacity_preflight-IsReady_example : IsReady config (surroundings 2) true result
run_capacity_preflight-IsReady_example =
    run_capacity_preflight-IsReady config (surroundings 2) true result purged_once

not_enough :
    run_capacity_preflight config (surroundings 4) true
    ≡ Verdict.failed GuardError.cache_max_after_purge (purge_candidates config (surroundings 4))
unfolding run_capacity_preflight after_volume check_space finish purge purge_round
    require_data_volume check_marker marker_identity marker_of apply_runtime_log_retention expired
    is_expired purge_candidates strip lstrip rstrip is_blank is_space first_line
not_enough = refl

run_capacity_preflight-exhausted_example :
    (purge_candidates config (surroundings 4) ≡ purge_candidates config (surroundings 4))
    × (config.cache_max_gb * gib < left (4 * gib) (purge_candidates config (surroundings 4)))
run_capacity_preflight-exhausted_example =
    run_capacity_preflight-exhausted config (surroundings 4) true
      (purge_candidates config (surroundings 4)) not_enough
