-- ===== src/Medallion/Replay/Trades.antt =====
-- The position in the replay (src/infrastructure/medallion/replay.py): its opening, its closing, the decisions that
-- wait for a trade, and the risk of an open position.
use self_evaluating_trading.Common.{
  ℕ, suc, ◌/◌, Bool, true, false, ◌==◌, not, Option, none, some, [], ◌∷◌, ◌++◌, String, str_eq,
  lookup, insert, if◌then◌else◌,
}
use self_evaluating_trading.Floating.{Floating, max, min}
use self_evaluating_trading.Trading.{Action}
use self_evaluating_trading.Risk.Guards.{initial_state}
use self_evaluating_trading.Risk.Sizing.{PositionSize}
use self_evaluating_trading.Risk.Stops.{initial_stop, take_profit}
use self_evaluating_trading.Risk.Engine.{RiskVerdict, evaluate}
use self_evaluating_trading.Medallion.Replay.{
  Decision, ReplayTrade, SizingMode, ReplayScenario, Position, ExitReason, PendingExit, TradeRecord,
  EngineError, EngineState, Step, running, broken,
}
use self_evaluating_trading.Medallion.Replay.Engine.{reason_text, or_nothing, is_dynamic}

module _ {F : Type 0} where
  -- The counters that a decision or a closing raises.
  abbrev pub count_dropped : EngineState F → EngineState F
  count_dropped s = record s {
    stats = record (s.stats) { decisions_dropped = suc (s.stats).decisions_dropped };
  }

  abbrev pub count_filled : EngineState F → EngineState F
  count_filled s = record s {
    stats = record (s.stats) { decisions_filled = suc (s.stats).decisions_filled };
  }

  abbrev pub count_rejected : String → EngineState F → EngineState F
  count_rejected reason s = record s {
    stats = record (s.stats) { decisions_rejected = suc (s.stats).decisions_rejected };
    rejected_reasons =
        insert reason (suc (or_nothing (lookup reason s.rejected_reasons))) s.rejected_reasons;
  }

  -- `_roll_day`
  abbrev today_after : Option ℕ → ℕ → F → F → F
  today_after none day zero_f today = today
  today_after (some d) day zero_f today = if d == day then today else zero_f

module _ {F : Type 0} ⦃fl : Floating F⦄ (scenario : ReplayScenario F) where
  open fl use {lit, add, sub, mul, div, lt, le}

  unfoldable pub roll_day : ℕ → EngineState F → EngineState F
  roll_day ts_ms s =
      let day = ts_ms / 86_400_000 in
      record s { day = some day; realized_today = today_after s.day day (lit 0 0) s.realized_today }

  unfoldable pub slip : F
  slip = div scenario.slippage_bps (lit 10_000 0)

  -- The account of the dynamic mode after a closing.
  unfoldable pub settle : Bool → ℕ → F → EngineState F → EngineState F
  settle false fill_ts net s = s
  settle true fill_ts net s =
      let r = roll_day fill_ts s in
      let realized = add r.realized_total net in
      let equity = add (scenario.risk).capital realized in
      record r {
        realized_total = realized;
        realized_today = add r.realized_today net;
        peak_equity = if lt r.peak_equity equity then equity else r.peak_equity;
      }

  -- `_finish`
  unfoldable pub finish : Position F → PendingExit F → ℕ → ℕ → F → EngineState F → EngineState F
  finish pos pending fill_ts fill_index fill_price s =
      let exit_execution = mul fill_price (sub (lit 1 0) slip) in
      let gross = mul (sub fill_price pos.entry_trade_price) pos.quantity in
      let slippage = mul (mul slip (add pos.entry_trade_price fill_price)) pos.quantity in
      let fees =
        mul (mul scenario.fee_rate (add pos.entry_execution_price exit_execution)) pos.quantity in
      let net = sub (sub gross slippage) fees in
      let closed : TradeRecord F = record {
        position = pos;
        mfe = max (sub pos.highest pos.entry_execution_price) (lit 0 0);
        mae = max (sub pos.entry_execution_price pos.lowest) (lit 0 0);
        exit_trigger_timestamp = pending.trigger_ts;
        exit_fill_timestamp = fill_ts;
        exit_trigger_trade_index = pending.trigger_trade_index;
        exit_fill_trade_index = fill_index;
        exit_reason = pending.reason;
        exit_reference_price = pending.reference_price;
        exit_execution_price = exit_execution;
        exit_trade_price = fill_price;
        fees = fees;
        slippage = slippage;
        gross_pnl = gross;
        net_pnl = net;
      } in
      let booked = record s {
        records = s.records ++ (closed ∷ []);
        stats = record (s.stats) { closed_trades = suc (s.stats).closed_trades };
      } in
      record (settle (is_dynamic scenario.sizing_mode) fill_ts net booked) {
        position = none;
        pending = none;
      }

  -- `_open_position`, with the quantity, the stop and the target that the mode gives
  unfoldable pub open_position :
      Decision F → F → ReplayTrade F → ℕ → F → F → F → EngineState F → EngineState F
  open_position d atr_value t index quantity stop target s =
      let entry_execution = mul t.price (add (lit 1 0) slip) in
      record s {
        position = some (record {
          quantity = quantity;
          entry_signal_ts = d.signal_ts;
          entry_trigger_ts = d.signal_ts;
          entry_fill_ts = t.ts;
          entry_reference_price = d.reference_price;
          entry_execution_price = entry_execution;
          entry_trade_price = t.price;
          entry_candle_index = d.candle_index;
          entry_fill_trade_index = index;
          atr = atr_value;
          initial_stop = stop;
          initial_target = target;
          trailing = stop;
          highest = entry_execution;
          lowest = entry_execution;
          current_atr = atr_value;
          trailing_updates = 0;
        });
      }

  -- The mode with the fixed quantity.
  unfoldable pub open_fixed : Decision F → F → ReplayTrade F → ℕ → EngineState F → EngineState F
  open_fixed d a t index s =
      let entry = mul t.price (add (lit 1 0) slip) in
      let stop = initial_stop entry a scenario.risk in
      open_position d a t index scenario.quantity stop (take_profit entry stop scenario.risk) s

  -- `_evaluate_risk` after the day has been rolled
  unfoldable pub evaluate_risk : Decision F → EngineState F → RiskVerdict F
  evaluate_risk d s =
      evaluate scenario.risk
        (record {
          action = Action.buy;
          intensity = scenario.intensity;
          price = d.reference_price;
          atr = d.atr;
          timestamp_ms = d.signal_ts;
        })
        (record {
          open_positions = 0;
          realized_pnl_today = s.realized_today;
          peak_equity = s.peak_equity;
          equity = add (scenario.risk).capital s.realized_total;
          kill_switch = initial_state;
        })

  -- What the verdict's size, stop and target are needed for.
  unfoldable pub open_verdict :
      Decision F
      → F
      → ReplayTrade F
      → ℕ
      → EngineState F
      → Option (PositionSize F)
      → Option F
      → Option F
      → Step F
  open_verdict d a t index s (some size) (some stop) (some target) =
      running (count_filled (open_position d a t index size.quantity stop target s))
  open_verdict d a t index s _ _ _ = broken EngineError.approved_without_stop

  unfoldable pub open_judged :
      Decision F → F → ReplayTrade F → ℕ → EngineState F → RiskVerdict F → Step F
  open_judged d a t index s v =
      if not v.approved
      then running (count_rejected (reason_text v.reason) s)
      else open_verdict d a t index s v.size v.stop_loss v.take_profit

  unfoldable pub open_by_mode :
      SizingMode → Decision F → F → ReplayTrade F → ℕ → EngineState F → Step F
  open_by_mode SizingMode.fixed d a t index s = running (count_filled (open_fixed d a t index s))
  open_by_mode SizingMode.risk_engine d a t index s =
      let r = roll_day t.ts s in open_judged d a t index r (evaluate_risk d r)

  unfoldable pub take_buy :
      Decision F → ReplayTrade F → ℕ → EngineState F → Option (Position F) → Option F → Step F
  take_buy d t index s none (some a) = open_by_mode scenario.sizing_mode d a t index s
  take_buy d t index s _ _ = running (count_dropped s)

  -- `_update_path`
  unfoldable pub update_path : F → Position F → Position F
  update_path price pos = record pos {
    highest = max pos.highest price;
    lowest = min pos.lowest price;
  }

  unfoldable pub take_sell :
      Decision F → ReplayTrade F → ℕ → EngineState F → Option (Position F) → Step F
  take_sell d t index s none = running (count_dropped s)
  take_sell d t index s (some pos) = running (
      count_filled (
        finish (update_path t.price pos)
          (record {
            reason = ExitReason.strategy_exit;
            trigger_ts = d.signal_ts;
            trigger_trade_index = none;
            trigger_price = t.price;
            reference_price = d.reference_price;
          })
          t.ts index t.price s))

  unfoldable pub take_decision : Decision F → ReplayTrade F → ℕ → EngineState F → Step F
  take_decision d t index s =
      if str_eq d.action "buy"
      then take_buy d t index s s.position d.atr
      else if str_eq d.action "sell"
      then take_sell d t index s s.position
      else broken EngineError.unknown_action
