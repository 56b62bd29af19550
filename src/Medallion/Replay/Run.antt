-- ===== src/Medallion/Replay/Run.antt =====
-- The loop of the replay over the trades (src/infrastructure/medallion/replay.py: `run`).
use self_evaluating_trading.Common.{
  ℕ, suc, ◌+◌, ◌^◌, leb, Option, none, some, List, [], ◌∷◌, length, if◌then◌else◌,
}
use self_evaluating_trading.Floating.{Floating, max}
use self_evaluating_trading.Market.Candle.{Candle, new_candle}
use self_evaluating_trading.Market.Indicators.{atr}
use self_evaluating_trading.Risk.Stops.{update_trailing}
use self_evaluating_trading.Medallion.Replay.{
  CandleRow, Decision, DecisionProvider, ReplayTrade, ReplayScenario, Position, ExitReason,
  PendingExit, EngineError, EngineState, Step, running, broken,
}
use self_evaluating_trading.Medallion.Replay.Engine.{is_dynamic, advance}
use self_evaluating_trading.Medallion.Replay.Trades.{finish, take_decision, update_path}

-- How a run ends: the records and the counters, or the exception.
pub data ReplayResult (F : Type 0) : Type 0 where
  completed : EngineState F → ReplayResult F
  failed : EngineError → ReplayResult F

module _ {F : Type 0} where
  -- What follows is only done where nothing was raised.
  unfoldable pub then_step : (EngineState F → Step F) → Step F → Step F
  then_step f (running s) = f s
  then_step f (broken e) = broken e

module _ {F : Type 0} ⦃fl : Floating F⦄ (scenario : ReplayScenario F)
    (provider : DecisionProvider F) (ctx_1h ctx_4h : List (CandleRow F)) where
  open fl use {lit, lt, le}

  -- `_fill_pending_exit`, by the pending exit and the position
  unfoldable pub fill_pending :
      ReplayTrade F → ℕ → EngineState F → Option (PendingExit F) → Option (Position F) → Step F
  fill_pending t index s none position = running s
  fill_pending t index s (some p) none = broken EngineError.pending_without_position
  fill_pending t index s (some p) (some pos) = running (finish scenario pos p t.ts index t.price s)

  unfoldable pub drain_over : List (Decision F) → ReplayTrade F → ℕ → EngineState F → Step F
  drain_over [] t index s = running (record s { queue = [] })
  drain_over (d ∷ ds) t index s =
      then_step (drain_over ds t index) (take_decision scenario d t index s)

  -- The stop that protects, and the exits of `_risk_eval`.
  abbrev pub pending_at : ExitReason → ReplayTrade F → ℕ → F → PendingExit F
  pending_at reason t index reference = record {
    reason = reason;
    trigger_ts = t.ts;
    trigger_trade_index = some index;
    trigger_price = t.price;
    reference_price = reference;
  }

  unfoldable pub raise_trailing : Position F → Position F
  raise_trailing pos =
      let a = if is_dynamic scenario.sizing_mode then pos.current_atr else pos.atr in
      let new_stop = update_trailing pos.trailing pos.highest a scenario.risk in
      if lt pos.trailing new_stop
      then record pos { trailing = new_stop; trailing_updates = suc pos.trailing_updates }
      else pos

  -- `_risk_eval`, by the position
  unfoldable pub risk_eval : ReplayTrade F → ℕ → EngineState F → Option (Position F) → EngineState F
  risk_eval t index s none = s
  risk_eval t index s (some old) =
      let pos = update_path scenario t.price old in
      let protective = max pos.initial_stop pos.trailing in
      let reason =
        if lt pos.entry_execution_price protective
        then ExitReason.trailing_stop
        else ExitReason.stop_loss in
      if leb t.ts old.entry_fill_ts
      then s
      else if le t.price protective
      then record s { position = some pos; pending = some (pending_at reason t index protective) }
      else if le pos.initial_target t.price
      then record s {
        position = some pos;
        pending = some (pending_at ExitReason.take_profit t index pos.initial_target);
      }
      else record s { position = some (raise_trailing pos) }

  -- One round of the loop of `run`.
  unfoldable pub on_trade : ReplayTrade F → ℕ → EngineState F → Step F
  on_trade t index s =
      let a = advance scenario provider ctx_1h ctx_4h t.ts s in
      then_step (λ r. running (risk_eval t index r r.position))
        (then_step (λ f. drain_over f.queue t index f)
          (fill_pending t index a a.pending a.position))

  -- `_fill_pending_edge`, by the pending exit, its index and the position
  unfoldable pub fill_edge_at : EngineState F → PendingExit F → Position F → Option ℕ → Step F
  fill_edge_at s p pos none = broken EngineError.pending_without_index
  fill_edge_at s p pos (some index) =
      running (finish scenario pos p p.trigger_ts index p.trigger_price s)

  unfoldable pub fill_edge : EngineState F → Option (PendingExit F) → Option (Position F) → Step F
  fill_edge s none position = running s
  fill_edge s (some p) none = broken EngineError.pending_without_position
  fill_edge s (some p) (some pos) = fill_edge_at s p pos p.trigger_trade_index

  -- The position that is open at the end, with the last trade and its index.
  unfoldable pub close_last :
      Option (ReplayTrade F × ℕ) → EngineState F → Option (Position F) → Step F
  close_last last s none = running s
  close_last none s (some pos) = broken EngineError.position_without_trades
  close_last (some (t, index)) s (some pos) = running (
      finish scenario pos (pending_at ExitReason.end_of_dataset t index t.price) t.ts index t.price
        s)

  -- After the last trade: the candles that are left, the decisions that found no trade, and the exits.
  unfoldable pub wind_up : Option (ReplayTrade F × ℕ) → EngineState F → Step F
  wind_up last s =
      let a = advance scenario provider ctx_1h ctx_4h (2 ^ 62) s in
      let unfilled = record a {
        stats = record (a.stats) {
          decisions_unfilled = (a.stats).decisions_unfilled + length a.queue;
        };
        queue = [];
      } in
      then_step (λ r. close_last last r r.position)
        (fill_edge unfilled unfilled.pending unfilled.position)

  -- The loop over the trades from an index on.
  unfoldable pub run_trades :
      List (ReplayTrade F) → ℕ → Option (ReplayTrade F × ℕ) → EngineState F → Step F
  run_trades [] index last s = wind_up last s
  run_trades (t ∷ ts) index last s =
      then_step (run_trades ts (suc index) (some (t, index))) (on_trade t index s)

  -- The domain's candles, where all are well formed.
  unfoldable pub domain_candles : List (CandleRow F) → Option (List (Candle F))
  domain_candles [] = some []
  domain_candles (c ∷ cs) =
      both
        (new_candle (record {
          timestamp_ms = c.open_time;
          open_price = c.open_price;
          high = c.high;
          low = c.low;
          close = c.close;
          volume = c.volume;
          turnover = lit 0 0;
        }))
        (domain_candles cs)
    where
      both : Option (Candle F) → Option (List (Candle F)) → Option (List (Candle F))
      both (some x) (some xs) = some (x ∷ xs)
      both _ _ = none

  abbrev pub zip_atr : List (CandleRow F) → List (Option F) → List (CandleRow F × Option F)
  zip_atr (c ∷ cs) (a ∷ atrs) = (c, a) ∷ zip_atr cs atrs
  zip_atr _ _ = []

  abbrev pub atr_of : Option (List (Candle F)) → Option (List (Option F))
  atr_of none = none
  atr_of (some cs) = atr cs scenario.atr_period

  -- `__init__`
  unfoldable pub new_engine : List (CandleRow F × Option F) → EngineState F
  new_engine ahead = record {
    ahead = ahead;
    candle_i = 0;
    queue = [];
    position = none;
    pending = none;
    records = [];
    stats = record {
      decisions_total = 0;
      decisions_filled = 0;
      decisions_dropped = 0;
      decisions_unfilled = 0;
      decisions_rejected = 0;
      closed_trades = 0;
    };
    rejected_reasons = [];
    realized_total = lit 0 0;
    realized_today = lit 0 0;
    day = none;
    peak_equity = (scenario.risk).capital;
  }

  abbrev pub result_of : Step F → ReplayResult F
  result_of (running s) = completed s
  result_of (broken e) = failed e

  unfoldable pub run_from :
      List (CandleRow F) → List (ReplayTrade F) → Option (List (Option F)) → ReplayResult F
  run_from candles trades none = failed EngineError.bad_candles
  run_from candles trades (some atrs) =
      result_of (run_trades trades 0 none (new_engine (zip_atr candles atrs)))

  -- `run`
  unfoldable pub run : List (CandleRow F) → List (ReplayTrade F) → ReplayResult F
  run candles trades = run_from candles trades (atr_of (domain_candles candles))
