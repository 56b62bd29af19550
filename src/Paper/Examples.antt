-- ===== src/Paper/Examples.antt =====
-- A concrete session of the paper engine, on fixed-point numbers.
use self_evaluating_trading.Common.{
  inl, ℕ, ◌≡◌, refl, arith, true, false, none, some, List, [], ◌∷◌,
}
use self_evaluating_trading.Floating.Fixed.{Fixed, fixed_floating, Fixed-IsOrdered}
use self_evaluating_trading.Trading.{
  Action, Intensity, TradingDecision, slippage_rate, fee_of, taker_rate,
}
use self_evaluating_trading.Risk.Config.{RiskConfig, default_config, risk_budget_pct}
use self_evaluating_trading.Risk.Guards.{daily_loss_exceeded, drawdown_exceeded}
use self_evaluating_trading.Risk.Sizing.{max_notional, compute_position_size, drawdown_scale}
use self_evaluating_trading.Risk.Stops.{initial_stop, take_profit, update_trailing}
use self_evaluating_trading.Risk.Engine.{evaluate, evaluate_buy, evaluate_sized, current_drawdown}
use self_evaluating_trading.Portfolio.{Portfolio, new_portfolio, apply_buy, equity_at}
use self_evaluating_trading.Paper.{
  Setup, Engine, Tick, PaperPosition, utc_day_index, new_engine, mark, opening_fill,
  divides_by_zero, booked_position, finish_open, open_position,
}
use self_evaluating_trading.Paper.Handling.{
  on_price, after_exits, check_position, decide, verdict_of, carry_out, buy_sized, start_tick,
}
use self_evaluating_trading.Paper.Clock.{run, Advances, run-Advances}
use self_evaluating_trading.Paper.Emergency.{run-frozen, IsReduced, IsUntouched, OnlySells}
use self_evaluating_trading.Paper.Stops.{
  IsAtExit, IsExitFor, exit_reason_at, on_price_exit, on_price-IsRatcheted, IsRatcheted,
}
use self_evaluating_trading.Paper.Books.{view-run, emitted, replay_fills, IsPlainRun}
use self_evaluating_trading.Accounting.Replica.{view}

abbrev num : ℕ → Fixed
num n = fixed_floating.lit n 0

abbrev cfg : RiskConfig Fixed
cfg = default_config

abbrev setup : Setup Fixed
setup = record {
  config = cfg;
  fees = record { taker_bps = num 10; maker_bps = num 2 };
  slippage = record { bps = num 5 };
  day_key = utc_day_index;
}

abbrev intend : Action → ℕ → TradingDecision Fixed
intend a ts = record {
  timestamp_ms = ts;
  action = a;
  confidence = num 1;
  intensity = Intensity.medium;
  rationale_summary = "";
  fallback_reason = none;
}

abbrev tick : Action → ℕ → ℕ → Tick Fixed
tick a price ts = record {
  decision = intend a ts;
  price = num price;
  atr = some (num 2);
  timestamp_ms = ts;
}

-- A purchase, a price that holds, a late tick, and a price that hits the stop.
abbrev session : List (Tick Fixed)
session =
    tick Action.buy 100 1000
    ∷ tick Action.hold 101 2000
    ∷ tick Action.sell 102 1500
    ∷ tick Action.buy 90 3000
    ∷ []

abbrev fresh : Engine Fixed
fresh = new_engine cfg

abbrev lot : PaperPosition Fixed
lot = record {
  quantity = num 1;
  entry_price = num 100;
  stop_loss = num 96;
  take_profit = some (num 108);
  highest_price = num 100;
  entry_ts = 1000;
}

abbrev account : Portfolio Fixed
account = record {
  initial_cash = num 1000;
  cash = num 900;
  position = num 1;
  avg_entry = some (num 100);
  entry_ts = some 1000;
  realized_pnl = num 0;
  total_fees = num 0;
  total_slippage = num 0;
  entry_fees = num 0;
  entry_slippage = num 0;
  trades = [];
}

abbrev held : Engine Fixed
held = record {
  portfolio = account;
  kill_switch = record { active = false; reason = ""; activated_at_ms = 0 };
  position = some lot;
  realized_pnl_today = num 3;
  day = some 0;
  last_timestamp_ms = some 1000;
  peak_equity = num 1000;
  last_price = some (num 100);
  last_atr = num 2;
  orders_rejected = 0;
  daily_loss_triggered = 0;
  daily_loss_active_cycles = 0;
}

abbrev stopped : Engine Fixed
stopped = record held {
  kill_switch = record { active = true; reason = "manual"; activated_at_ms = 900 };
}

run-Advances_example : Advances held (run setup session held)
run-Advances_example = run-Advances setup session held

run-frozen_example :
    IsReduced stopped.position (run setup session stopped).position
    × IsUntouched stopped.position stopped.portfolio (run setup session stopped).portfolio
    × OnlySells (on_price setup (tick Action.buy 95 4000) (run setup session stopped)).0
run-frozen_example = run-frozen setup session (tick Action.buy 95 4000) stopped refl

abbrev crash : Tick Fixed
crash = tick Action.buy 90 2000

crash_exits : IsAtExit setup crash lot
unfolding update_trailing
crash_exits = inl refl

on_price_exit_example :
    (on_price setup crash held
      ≡ on_price setup (record crash { decision = intend Action.hold 7 }) held)
    × ((on_price setup crash held).1.position ≡ none)
    × IsExitFor setup (exit_reason_at setup crash lot) (on_price setup crash held).0
on_price_exit_example = on_price_exit setup crash held (intend Action.hold 7) refl refl crash_exits

on_price-IsRatcheted_example :
    IsRatcheted setup Fixed-IsOrdered
      (omega arith)
      lot
      (on_price setup (tick Action.buy 104 2000) held).1.position
on_price-IsRatcheted_example =
    on_price-IsRatcheted setup Fixed-IsOrdered (omega arith) (tick Action.buy 104 2000) held lot
      refl refl

abbrev trades : List (Tick Fixed)
trades = tick Action.buy 100 1000 ∷ tick Action.sell 103 2000 ∷ []

trades_plain : IsPlainRun setup trades fresh
unfolding new_engine new_portfolio on_price after_exits check_position decide verdict_of evaluate
    evaluate_buy evaluate_sized compute_position_size drawdown_scale max_notional current_drawdown
    daily_loss_exceeded drawdown_exceeded risk_budget_pct initial_stop take_profit carry_out
    buy_sized open_position opening_fill divides_by_zero booked_position finish_open apply_buy mark
    equity_at start_tick fee_of taker_rate slippage_rate
trades_plain = (refl, (refl, tt))

view-run_example :
    view (run setup trades fresh).portfolio
    ≡ replay_fills setup (emitted setup trades fresh) (view fresh.portfolio)
view-run_example = view-run setup trades fresh trades_plain
