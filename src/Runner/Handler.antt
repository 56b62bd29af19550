-- ===== src/Runner/Handler.antt =====
-- `handle_candle` of src/application/services/paper_runner.py: the guard against candles that were seen
-- before, and the processing of a new one.
use self_evaluating_trading.Common.{
  ◌==◌, ltb, Bool, ◌&&◌, Option, none, some, String, if◌then◌else◌,
}
use self_evaluating_trading.Floating.{Floating}
use self_evaluating_trading.Market.Candle.{Candle, Timeframe, label}
use self_evaluating_trading.Runner.{Runner, RunnerError, Processed, process, set_last}

-- What the guard of `handle_candle` says of a candle.
pub data Admission : Type 0 where
  fresh duplicate : Admission
  refused : RunnerError → Admission

module _ {F : Type 0} ⦃fl : Floating F⦄ where
  -- `candle == previous`
  unfoldable pub same_candle : Candle F → Candle F → Bool
  same_candle a b =
      (a.timestamp_ms == b.timestamp_ms)
      && fl.eq a.open_price b.open_price
      && fl.eq a.high b.high
      && fl.eq a.low b.low
      && fl.eq a.close b.close
      && fl.eq a.volume b.volume
      && fl.eq a.turnover b.turnover

  -- The guard of `handle_candle` against the last candle of the same symbol and timeframe.
  unfoldable pub admit : Candle F → Option (Candle F) → Admission
  unfolding same_candle
  admit c none = Admission.fresh
  admit c (some previous) =
      if ltb c.timestamp_ms previous.timestamp_ms
      then Admission.refused RunnerError.out_of_order
      else if c.timestamp_ms == previous.timestamp_ms
      then (if same_candle c previous
          then Admission.duplicate
          else Admission.refused RunnerError.duplicate_candle)
      else Admission.fresh

  -- `none` is the no-op of a duplicate.
  unfoldable pub handle_admitted :
      Admission → String → String → Candle F → Runner F → Option (Processed F) × Runner F
  handle_admitted Admission.fresh symbol tf c r =
      let r' = record r { last_candle = set_last symbol tf c r.last_candle } in
      let (p, s) = process symbol tf c r' in (some p, s)
  handle_admitted Admission.duplicate symbol tf c r = (none, r)
  handle_admitted (Admission.refused e) symbol tf c r = (some (Processed.failed e), r)

  -- `handle_candle`
  unfoldable pub handle_candle :
      String → Timeframe → Candle F → Runner F → Option (Processed F) × Runner F
  handle_candle symbol tf c r =
      let l = label tf in handle_admitted (admit c (r.last_candle symbol l)) symbol l c r
