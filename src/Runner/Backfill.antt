-- ===== src/Runner/Backfill.antt =====
-- src/application/services/backfill.py: the closed candles that a recovered session has missed. What the candle
-- repository and the client of the exchange answer is a parameter. The exceptions of `handle_candle` are values.
use self_evaluating_trading.Common.{
  ℕ, suc, ◌+◌, ◌*◌, ltb, Option, none, some, List, [], ◌∷◌, String, if◌then◌else◌,
}
use self_evaluating_trading.Floating.{Floating}
use self_evaluating_trading.Market.Candle.{Timeframe, minutes, Candle}
use self_evaluating_trading.Runner.{Runner, RunnerError, Processed}
use self_evaluating_trading.Runner.Handler.{handle_candle}

pub record BackfillResult : Type 0 where
  pub recovered : ℕ
  pub skipped_partial : ℕ

-- How a backfill ends: with its result, or with the exception of a candle, and the runner.
pub data Backfilled (F : Type 0) : Type 0 where
  filled : BackfillResult → Runner F → Backfilled F
  stopped : RunnerError → Runner F → Backfilled F

unfoldable pub candle_close_ms : ℕ → Timeframe → ℕ
candle_close_ms ts tf = ts + minutes tf * 60_000

module _ {F : Type 0} ⦃fl : Floating F⦄ where
  -- What follows a call of the runner.
  unfoldable pub after_handled :
      (Runner F → Backfilled F) → Option (Processed F) × Runner F → Backfilled F
  after_handled go (some (Processed.failed e), r) = stopped e r
  after_handled go (some (Processed.event e), r) = go r
  after_handled go (none, r) = go r

  -- The loop over the candles.
  unfoldable pub backfill_over :
      String → Timeframe → ℕ → List (Candle F) → BackfillResult → Runner F → Backfilled F
  backfill_over symbol tf cutoff [] b r = filled b r
  backfill_over symbol tf cutoff (c ∷ cs) b r =
      let skip =
        backfill_over symbol tf cutoff cs (record b { skipped_partial = suc b.skipped_partial })
          r in
      let handled =
        after_handled (backfill_over symbol tf cutoff cs (record b { recovered = suc b.recovered }))
          (handle_candle symbol tf c r) in
      if ltb cutoff (candle_close_ms c.timestamp_ms tf) then skip else handled

  -- `backfill`, with the last timestamp that is persisted
  unfoldable pub backfill :
      (String → Timeframe → ℕ → ℕ → List (Candle F))
      → String
      → Timeframe
      → ℕ
      → Option ℕ
      → Runner F
      → Backfilled F
  backfill fetch symbol tf cutoff none r = filled (record { recovered = 0; skipped_partial = 0 }) r
  backfill fetch symbol tf cutoff (some last) r =
      backfill_over symbol tf cutoff (fetch symbol tf (last + minutes tf * 60_000) cutoff)
        (record { recovered = 0; skipped_partial = 0 }) r
