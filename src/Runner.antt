-- ===== src/Runner.antt =====
-- src/application/services/paper_runner.py: from a confirmed candle to its event, and the
-- replay that restores a session. The dictionaries that are only read and written by key are
-- functions. What the two repositories store is returned; that they fail is not modelled. The hash of
-- the strategy is text that the runner is given.
pub mod Handler
pub mod Replay
pub mod Recovery
pub mod Guard
pub mod Soundness
pub mod Restore
pub mod Backfill
pub mod Closed
mod Examples
use self_evaluating_trading.Common.{
  ℕ, ◌+◌, ◌-◌, ◌==◌, Bool, true, false, ◌&&◌, ◌||◌, Option, none, some, List, [], ◌∷◌, ◌++◌, String,
  str_eq, if◌then◌else◌, length, drop,
}
use self_evaluating_trading.Floating.{Floating}
use self_evaluating_trading.Trading.{Intensity, Fill}
use self_evaluating_trading.Market.Candle.{Candle}
use self_evaluating_trading.Market.Indicators.{AtrTracker, atr_update}
use self_evaluating_trading.Market.Regime.{MarketRegime, RegimeConfig, classify}
use self_evaluating_trading.Confirmation.{Tracker, observe}
use self_evaluating_trading.Strategy.{Baseline, Signal, reason_text, on_candle}
use self_evaluating_trading.Paper.{
  Engine, Setup, Tick, Outcome, done, raised, Failure, PaperEvent, mark,
}
use self_evaluating_trading.Paper.Handling.{on_price}
use self_evaluating_trading.Portfolio.{equity_at}
use self_evaluating_trading.Events.{PaperTradeEvent}

pub record Identity : Type 0 where
  pub session_id : String
  pub strategy_version : String
  pub strategy_hash : String
  pub decision_source : String

pub record Runner (F : Type 0) : Type 0 where
  pub identity : Identity
  pub setup : Setup F
  pub regimes : RegimeConfig F
  pub strategy : Baseline F
  pub engine : Engine F
  pub candles_by_symbol : String → List (Candle F)
  pub atr_trackers : String → Option (AtrTracker F)
  pub regime_trackers : String → Option Tracker
  pub last_candle : String → String → Option (Candle F)

-- The exceptions of the module; `unknown_symbol` is the `KeyError` of a symbol that is not configured.
pub data RunnerError : Type 0 where
  engine_failure : Failure → RunnerError
  unknown_symbol out_of_order duplicate_candle recovery_gap recovery_divergence unsafe_paper_mode :
      RunnerError

pub data Processed (F : Type 0) : Type 0 where
  event : PaperTradeEvent F → Processed F
  failed : RunnerError → Processed F

abbrev pub is_event : {F : Type 0} → Processed F → Bool
is_event (Processed.event e) = true
is_event (Processed.failed e) = false

-- `d[k] = v`
abbrev pub set_key : {A : Type 0} → String → A → (String → A) → String → A
set_key k v d j = if str_eq k j then v else d j

-- `deque(maxlen=100)`
abbrev pub push_candle : {F : Type 0} → Candle F → List (Candle F) → List (Candle F)
push_candle c cs = let all = cs ++ (c ∷ []) in drop (length all - 100) all

abbrev pub set_last :
    {F : Type 0}
    → String
    → String
    → Candle F
    → (String → String → Option (Candle F))
    → String
    → String
    → Option (Candle F)
set_last symbol tf c d s l = if str_eq symbol s && str_eq tf l then some c else d s l

-- A fill's field, where the event has a fill.
abbrev pub field_of : {F A : Type 0} → (Fill F → A) → Option (Fill F) → Option A
field_of f none = none
field_of f (some x) = some (f x)

abbrev pub field_or : {F A : Type 0} → (Fill F → A) → A → Option (Fill F) → A
field_or f d none = d
field_or f d (some x) = f x

module _ {F : Type 0} ⦃fl : Floating F⦄ where
  open fl use {lit, sub, mul, abs, le}

  -- The event of a candle that the engine has processed.
  unfoldable pub event_of :
      Identity
      → String
      → String
      → Candle F
      → Signal
      → Option F
      → Option MarketRegime
      → Baseline F
      → PaperEvent F
      → Engine F
      → PaperTradeEvent F
  event_of who symbol tf c sig atr regime strat e eng = record {
    session_id = who.session_id;
    strategy_version = who.strategy_version;
    strategy_hash = who.strategy_hash;
    decision_source = who.decision_source;
    symbol = symbol;
    timeframe = tf;
    timestamp_ms = c.timestamp_ms;
    action = e.action;
    filled = e.filled;
    risk_reason = e.risk_reason;
    exit_reason = e.exit_reason;
    exec_price = field_of (λ f. f.exec_price) e.fill;
    quantity = field_of (λ f. f.quantity) e.fill;
    fee = field_or (λ f. f.fee) (lit 0 0) e.fill;
    slippage_cost = field_or (λ f. f.slippage_cost) (lit 0 0) e.fill;
    equity = equity_at c.close eng.portfolio;
    kill_switch_active = eng.kill_switch.active;
    decision_context = some (record {
      schema_version = 1;
      signal_reason = sig.reason;
      atr = atr;
      ema_fast = strat.fast.current;
      ema_slow = strat.slow.current;
      rsi = strat.rsi.current;
      regime = regime;
    });
  }

  -- The engine's part of `_process`. `mark_to_market` is called once more for the event's equity.
  unfoldable pub finish :
      String
      → String
      → Candle F
      → Signal
      → Option F
      → Option MarketRegime
      → Runner F
      → Outcome F × Engine F
      → Processed F × Runner F
  finish symbol tf c sig atr regime r (raised f, eng) =
      (Processed.failed (RunnerError.engine_failure f), record r { engine = eng })
  finish symbol tf c sig atr regime r (done e, eng) =
      let eng' = mark c.close eng in
      (
        Processed.event (event_of r.identity symbol tf c sig atr regime r.strategy e eng'),
        record r { engine = eng' },
      )

  -- `_process`, once the regime and the signal are known: the ATR, the decision and the engine.
  unfoldable pub process_atr :
      String
      → String
      → Candle F
      → Signal
      → Option MarketRegime
      → Runner F
      → Option (AtrTracker F)
      → Processed F × Runner F
  process_atr symbol tf c sig regime r none = (Processed.failed RunnerError.unknown_symbol, r)
  process_atr symbol tf c sig regime r (some tracker) =
      let (tracker', atr) = atr_update c tracker in
      let r' = record r { atr_trackers = set_key symbol (some tracker') r.atr_trackers } in
      let tick : Tick F = record {
        decision = record {
          timestamp_ms = c.timestamp_ms;
          action = sig.action;
          confidence = lit 1 0;
          intensity = Intensity.medium;
          rationale_summary = reason_text sig.reason;
          fallback_reason = none;
        };
        price = c.close;
        atr = atr;
        timestamp_ms = c.timestamp_ms;
      } in
      finish symbol tf c sig atr regime r' (on_price r.setup tick r.engine)

  unfoldable pub process_regime :
      String
      → String
      → Candle F
      → Option MarketRegime
      → Runner F
      → Option Tracker
      → Processed F × Runner F
  process_regime symbol tf c regime r none = (Processed.failed RunnerError.unknown_symbol, r)
  process_regime symbol tf c regime r (some tracker) =
      let seen = observe regime c.timestamp_ms tracker in
      let (sig, strat) = on_candle c r.strategy in
      let r' = record r {
        regime_trackers = set_key symbol (some seen) r.regime_trackers;
        strategy = strat;
      } in
      process_atr symbol tf c sig regime r' (r.atr_trackers symbol)

  -- `_process`; the candles of a symbol are in a `defaultdict`.
  unfoldable pub process : String → String → Candle F → Runner F → Processed F × Runner F
  process symbol tf c r =
      let candles = push_candle c (r.candles_by_symbol symbol) in
      let r' = record r { candles_by_symbol = set_key symbol candles r.candles_by_symbol } in
      process_regime symbol tf c (classify r.regimes candles) r' (r.regime_trackers symbol)
