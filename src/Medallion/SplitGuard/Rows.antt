-- ===== src/Medallion/SplitGuard/Rows.antt =====
-- The guard by days (src/infrastructure/medallion/split_guard.py) agrees with the split by rows
-- (src/lab/splits.py).
use self_evaluating_trading.Common.{ℕ, ◌+◌, ◌*◌, ◌≤◌, ◌<◌, ◌≡◌, ◌↔◌, true, some, arith}
use self_evaluating_trading.Lab.WalkForward.{walk_forward_start, final_holdout_end}
use self_evaluating_trading.Medallion.SplitGuard.{
  date, IngestClass, IngestScope, classify_ingest_day, is_development_day, allowed,
  ensure_ingest_allowed,
}

-- The minute at which a row of the data set begins: the first row is that of 2023-09-08T17:45, and a row
-- lasts a quarter of an hour.
abbrev pub minute_of_row : ℕ → ℕ
minute_of_row row = date 2023 9 8 * 1440 + 17 * 60 + 45 + 15 * row

abbrev pub IsWithin : ℕ → ℕ → Type 0
IsWithin row day = (day * 1440 ≤ minute_of_row row) × (minute_of_row row < day * 1440 + 1440)

-- What is ingested holds nothing that is kept back: under every scope, a day that is allowed has no row of
-- WALK_FORWARD or FINAL_HOLDOUT.
pub ensure_ingest_allowed-rows :
    (day row : ℕ) (scope : IngestScope) (c : IngestClass)
    → ensure_ingest_allowed day scope ≡ some c
    → walk_forward_start ≤ row
    → IsWithin row day
    → final_holdout_end ≤ row
unfolding ensure_ingest_allowed classify_ingest_day allowed date
ensure_ingest_allowed-rows day row scope c e a (b, d) = ground arith

-- A day is a development day exactly when all its minutes lie in the rows of DEVELOPMENT.
pub is_development_day_iff :
    (day : ℕ)
    → (is_development_day day ≡ true)
      ↔ ((minute_of_row 0 ≤ day * 1440) × (day * 1440 + 1440 ≤ minute_of_row walk_forward_start))
unfolding is_development_day classify_ingest_day date
is_development_day_iff day = ground arith
