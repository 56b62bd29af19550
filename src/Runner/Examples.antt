-- ===== src/Runner/Examples.antt =====
-- A concrete session of the runner, on fixed-point numbers.
use self_evaluating_trading.Common.{
  ℕ, ◌+◌, ◌-◌, ◌≡◌, ◌<◌, ◌↔◌, refl, arith, true, false, Option, none, some, List, [], ◌∷◌, map,
  String, length, str_eq, All, if◌then◌else◌,
}
use self_evaluating_trading.Floating.Fixed.{Fixed, fixed_floating, Fixed-IsOrdered}
use self_evaluating_trading.Risk.Guards.{daily_loss_exceeded, drawdown_exceeded}
use self_evaluating_trading.Risk.Engine.{evaluate}
use self_evaluating_trading.Portfolio.{new_portfolio, equity_at}
use self_evaluating_trading.Paper.Handling.{
  on_price, start_tick, check_position, after_exits, decide, verdict_of, carry_out, count_hold,
  daily_loss_active,
}
use self_evaluating_trading.Risk.Config.{default_config}
use self_evaluating_trading.Market.Candle.{Candle, Timeframe, label}
use self_evaluating_trading.Market.Indicators.{new_atr_tracker, atr_update, update_atr}
use self_evaluating_trading.Market.Regime.{default_regime, classify}
use self_evaluating_trading.Confirmation.{Tracker, new_tracker, observe, reset_pending}
use self_evaluating_trading.Strategy.{
  new_baseline, default_ema_rsi, new_ema, new_rsi, on_candle, ema_update, update_ema, rsi_update,
  update_rsi, cross_signal, reason_text,
}
use self_evaluating_trading.Paper.{utc_day_index, new_engine, mark}
use self_evaluating_trading.Events.{PaperTradeEvent}
use self_evaluating_trading.Runner.{
  Runner, RunnerError, Processed, process, process_regime, process_atr, finish, event_of,
}
use self_evaluating_trading.Runner.Handler.{
  Admission, admit, handle_candle, handle_admitted, same_candle,
}
use self_evaluating_trading.Runner.Replay.{
  Store, Input, replay, events_equivalent, same_action, same_reason, same_exit, floats_close,
  close_enough, contexts_equivalent, values_agree, same_optional, check_processed, check_event,
  remember, or_stop,
}
use self_evaluating_trading.Runner.Recovery.{
  Arrival, session, is_persisted, input_of, replay-session,
}
use self_evaluating_trading.Runner.Backfill.{backfill}
use self_evaluating_trading.Runner.Closed.{closed, IsBackfill, missing, backfill-IsBackfill}
use self_evaluating_trading.Runner.Restore.{
  Build, restore, replay_into, runner_with, validate_safe, new_runner, keyed, switch_of,
}
use self_evaluating_trading.Runner.Restore.Switch.{IsFlagged, restore-IsFlagged}
use self_evaluating_trading.Runner.Guard.{handle_candle_stale, handle_candle_again}

abbrev num : ℕ → Fixed
num n = fixed_floating.lit n 0

abbrev candle : ℕ → ℕ → Candle Fixed
candle ts close = record {
  timestamp_ms = ts;
  open_price = num close;
  high = num (close + 2);
  low = num (close - 1);
  close = num close;
  volume = num 10;
  turnover = num 1000;
}

abbrev tracker : Tracker
tracker = record {
  confirmation_candles = 3;
  pending_name = none;
  pending_first_seen_at_ms = none;
  pending_count = 0;
  evidence = [];
  rejected_candidates = 0;
}

-- The first session of one symbol.
abbrev start : Runner Fixed
start = record {
  identity = record {
    session_id = "s";
    strategy_version = "baseline-v1";
    strategy_hash = "h";
    decision_source = "baseline";
  };
  setup = record {
    config = default_config;
    fees = record { taker_bps = num 10; maker_bps = num 2 };
    slippage = record { bps = num 5 };
    day_key = utc_day_index;
  };
  regimes = default_regime;
  strategy = new_baseline default_ema_rsi;
  engine = new_engine default_config;
  candles_by_symbol = λ symbol. [];
  atr_trackers = λ symbol. if str_eq symbol "BTCUSDT" then some (new_atr_tracker 14) else none;
  regime_trackers = λ symbol. if str_eq symbol "BTCUSDT" then some tracker else none;
  last_candle = λ symbol tf. none;
}

abbrev arrivals : List (Arrival Fixed)
arrivals =
    ("BTCUSDT", Timeframe.h1, candle 1000 100) ∷ ("BTCUSDT", Timeframe.h1, candle 1000 100) ∷ []

-- What the first candle is processed to, and a store that keeps it.
abbrev event : Option (PaperTradeEvent Fixed)
event = elim (process "BTCUSDT" "1h" (candle 1000 100) start).0 [
  | Processed.event e ↦ some e
  | Processed.failed e ↦ none
]

abbrev store : Store Fixed
store symbol tf ts = event

All-persisted : All (λ e. is_persisted store e ≡ true) (session arrivals start).0
unfolding session handle_candle handle_admitted admit same_candle process process_regime process_atr
    finish event_of is_persisted label atr_update update_atr observe reset_pending new_baseline
    new_ema new_rsi on_candle ema_update update_ema rsi_update update_rsi cross_signal classify
    on_price start_tick check_position after_exits decide verdict_of evaluate carry_out count_hold
    mark equity_at daily_loss_active daily_loss_exceeded drawdown_exceeded new_engine new_portfolio
    utc_day_index new_atr_tracker events_equivalent same_action same_reason same_exit floats_close
    close_enough contexts_equivalent values_agree same_optional reason_text
All-persisted = (refl, tt)

replay-session_example :
    replay (map input_of (session arrivals start).0) store start
    ≡ (none, (session arrivals start).1)
replay-session_example = replay-session store arrivals start All-persisted

abbrev stored : List (Input Fixed)
stored = ("BTCUSDT", "1h", candle 1000 100) ∷ []

replayed : (replay stored store start).0 ≡ none
unfolding replay check_processed check_event remember or_stop process process_regime process_atr
    finish event_of atr_update update_atr observe reset_pending new_baseline new_ema new_rsi
    on_candle ema_update update_ema rsi_update update_rsi cross_signal classify on_price start_tick
    check_position after_exits decide verdict_of evaluate carry_out count_hold mark equity_at
    daily_loss_active daily_loss_exceeded drawdown_exceeded new_engine new_portfolio utc_day_index
    new_atr_tracker events_equivalent same_action same_reason same_exit floats_close close_enough
    contexts_equivalent values_agree same_optional reason_text
replayed = refl

abbrev seen : Runner Fixed
seen = record start { last_candle = λ symbol tf. some (candle 1000 100) }

handle_candle_stale_example :
    let c : Candle Fixed = candle 900 100 in
    ((handle_candle "BTCUSDT" Timeframe.h1 c seen).1 ≡ seen)
    × (((handle_candle "BTCUSDT" Timeframe.h1 c seen).0 ≡ none)
        ↔ ((c.timestamp_ms ≡ 1000) × (same_candle c (candle 1000 100) ≡ true)))
    × (((handle_candle "BTCUSDT" Timeframe.h1 c seen).0
          ≡ some (Processed.failed RunnerError.out_of_order))
        ↔ (c.timestamp_ms < 1000))
    × (((handle_candle "BTCUSDT" Timeframe.h1 c seen).0
          ≡ some (Processed.failed RunnerError.duplicate_candle))
        ↔ ((c.timestamp_ms ≡ 1000) × (same_candle c (candle 1000 100) ≡ false)))
handle_candle_stale_example =
    handle_candle_stale "BTCUSDT" Timeframe.h1 (candle 900 100) (candle 1000 100) seen refl
      (omega arith)

first_is_fresh :
    admit (candle 1000 100) (start.last_candle "BTCUSDT" (label Timeframe.h1)) ≡ Admission.fresh
unfolding admit
first_is_fresh = refl

handle_candle_again_example :
    ((handle_candle "BTCUSDT" Timeframe.h1 (candle 1000 100) start).1.last_candle "BTCUSDT" "1h"
      ≡ some (candle 1000 100))
    × (handle_candle "BTCUSDT" Timeframe.h1
          (candle 1000 100)
          (handle_candle "BTCUSDT" Timeframe.h1 (candle 1000 100) start).1
        ≡ (none, (handle_candle "BTCUSDT" Timeframe.h1 (candle 1000 100) start).1))
unfolding label
handle_candle_again_example =
    handle_candle_again Fixed-IsOrdered "BTCUSDT" Timeframe.h1 (candle 1000 100) start
      (refl, refl, refl, refl, refl, refl) first_is_fresh

abbrev build : Build Fixed
build = record {
  identity = start.identity;
  setup = start.setup;
  regimes = default_regime;
  averages = default_ema_rsi;
  symbols = "BTCUSDT" ∷ [];
  trading_mode = "paper";
  live_trading_enabled = false;
}

abbrev events : List (PaperTradeEvent Fixed)
events = elim event [ none ↦ [] | some e ↦ e ∷ [] ]

restored : (restore build none "BTCUSDT" Timeframe.h1 (candle 1000 100 ∷ []) events).0 ≡ none
unfolding replay check_processed check_event remember or_stop process process_regime process_atr
    finish event_of atr_update update_atr observe reset_pending new_baseline new_ema new_rsi
    on_candle ema_update update_ema rsi_update update_rsi cross_signal classify on_price start_tick
    check_position after_exits decide verdict_of evaluate carry_out count_hold mark equity_at
    daily_loss_active daily_loss_exceeded drawdown_exceeded new_engine new_portfolio utc_day_index
    new_atr_tracker events_equivalent same_action same_reason same_exit floats_close close_enough
    contexts_equivalent values_agree same_optional reason_text restore replay_into runner_with
    validate_safe new_runner keyed switch_of label new_tracker
restored = refl

restore-IsFlagged_example :
    All
      (λ c.
        IsFlagged
          (switch_of none).active
          (keyed events "BTCUSDT" (label Timeframe.h1) c.timestamp_ms))
      (candle 1000 100 ∷ [])
restore-IsFlagged_example =
    restore-IsFlagged build none "BTCUSDT" Timeframe.h1 (candle 1000 100 ∷ []) events restored

-- The first of the two candles is closed at the cutoff.
abbrev fetched : String → Timeframe → ℕ → ℕ → List (Candle Fixed)
fetched symbol tf since cutoff = candle 3_601_000 100 ∷ candle 7_201_000 101 ∷ []

backfill-IsBackfill_example :
    let cs = missing fetched "BTCUSDT" Timeframe.h1 7_201_000 (some 1000) in
    IsBackfill
      (closed "BTCUSDT" Timeframe.h1 7_201_000 cs)
      (length cs)
      (record { recovered = 0; skipped_partial = 0 })
      start
      (backfill fetched "BTCUSDT" Timeframe.h1 7_201_000 (some 1000) start)
backfill-IsBackfill_example =
    backfill-IsBackfill fetched "BTCUSDT" Timeframe.h1 7_201_000 (some 1000) start
