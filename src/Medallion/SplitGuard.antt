-- ===== src/Medallion/SplitGuard.antt =====
-- src/infrastructure/medallion/split_guard.py. A day is the ordinal of Python's `datetime.date`, whose order
-- is that of the dates; `none` is the `SplitGuardError`.
pub mod Rows
use self_evaluating_trading.Common.{
  ℕ, ◌+◌, ◌-◌, ◌*◌, ◌/◌, ◌%◌, Bool, true, false, not, ◌&&◌, ◌||◌, ◌==◌, ltb, leb, Option, none,
  some, List, [], ◌∷◌, foldl, take, if◌then◌else◌,
}

abbrev is_leap : ℕ → Bool
is_leap year = (year % 4 == 0) && (not (year % 100 == 0) || (year % 400 == 0))

abbrev month_lengths : List ℕ
month_lengths = 31 ∷ 28 ∷ 31 ∷ 30 ∷ 31 ∷ 30 ∷ 31 ∷ 31 ∷ 30 ∷ 31 ∷ 30 ∷ 31 ∷ []

abbrev days_before_month : ℕ → ℕ
days_before_month month = foldl ◌+◌ 0 (take (month - 1) month_lengths)

-- `date(year, month, day).toordinal()`
unfoldable pub date : ℕ → ℕ → ℕ → ℕ
date year month day =
    let y = year - 1 in
    (y * 365 + y / 4 - y / 100 + y / 400)
    + (days_before_month month + (if ltb 2 month && is_leap year then 1 else 0))
    + day

abbrev pub development_first_day : ℕ
development_first_day = date 2023 9 9

abbrev pub development_last_day : ℕ
development_last_day = date 2025 6 16

abbrev pub walk_forward_first_day : ℕ
walk_forward_first_day = date 2025 6 17

abbrev pub final_holdout_first_day : ℕ
final_holdout_first_day = date 2026 3 14

abbrev pub final_holdout_last_day : ℕ
final_holdout_last_day = date 2026 8 23

abbrev pub future_collection_first_day : ℕ
future_collection_first_day = date 2026 8 24

pub data IngestClass : Type 0 where
  development walk_forward final_holdout future_collection out_of_range : IngestClass

pub data IngestScope : Type 0 where
  development_only development_and_future_collection : IngestScope

unfoldable pub classify_ingest_day : ℕ → IngestClass
classify_ingest_day day =
    if leb development_first_day day && leb day development_last_day
    then IngestClass.development
    else if leb walk_forward_first_day day && ltb day final_holdout_first_day
    then IngestClass.walk_forward
    else if leb final_holdout_first_day day && leb day final_holdout_last_day
    then IngestClass.final_holdout
    else if leb future_collection_first_day day
    then IngestClass.future_collection
    else IngestClass.out_of_range

abbrev pub is_development : IngestClass → Bool
is_development IngestClass.development = true
is_development _ = false

unfoldable pub is_development_day : ℕ → Bool
is_development_day day = is_development (classify_ingest_day day)

abbrev allows_future : IngestScope → Bool
allows_future IngestScope.development_only = false
allows_future IngestScope.development_and_future_collection = true

-- The decision on the class of the day.
unfoldable pub allowed : IngestClass → IngestScope → Option IngestClass
allowed IngestClass.development scope = some IngestClass.development
allowed IngestClass.future_collection scope =
    if allows_future scope then some IngestClass.future_collection else none
allowed _ scope = none

unfoldable pub ensure_ingest_allowed : ℕ → IngestScope → Option IngestClass
ensure_ingest_allowed day scope = allowed (classify_ingest_day day) scope

unfoldable pub ensure_development_day : ℕ → Option IngestClass
ensure_development_day day = ensure_ingest_allowed day IngestScope.development_only
