-- ===== src/Strategy.antt =====
-- src/domain/trading/strategy.py: the baseline strategy, with its incremental EMA and RSI, and the
-- strategy that repeats a list of actions.
pub mod Averages
mod Examples
use self_evaluating_trading.Common.{
  ℕ, ◌+◌, ◌-◌, ◌==◌, ◌&&◌, ◌||◌, Option, none, some, List, [], ◌∷◌, ◌++◌, map, String,
  if◌then◌else◌, length, get_elem?,
}
use self_evaluating_trading.Floating.{Floating, max}
use self_evaluating_trading.Trading.{Action, Intensity}
use self_evaluating_trading.Market.Candle.{Candle}
use self_evaluating_trading.Market.Indicators.{mean_of, ema_step, wilder_step}

-- The texts that the baseline gives as its reason.
pub data SignalReason : Type 0 where
  nothing warmup ema_cross_up ema_cross_down_or_rsi_exit : SignalReason

unfoldable pub reason_text : SignalReason → String
reason_text SignalReason.nothing = ""
reason_text SignalReason.warmup = "warmup"
reason_text SignalReason.ema_cross_up = "ema_cross_up"
reason_text SignalReason.ema_cross_down_or_rsi_exit = "ema_cross_down_or_rsi_exit"

pub record Signal : Type 0 where
  pub timestamp_ms : ℕ
  pub action : Action
  pub intensity : Intensity
  pub reason : SignalReason

pub record EmaTracker (F : Type 0) : Type 0 where
  pub period : ℕ
  pub buffer : List F
  pub prev : Option F
  pub current : Option F

pub record RsiTracker (F : Type 0) : Type 0 where
  pub period : ℕ
  pub changes : List (F × F)
  pub prev_close : Option F
  pub avg_gain : Option F
  pub avg_loss : Option F
  pub prev : Option F
  pub current : Option F

pub record EmaRsiConfig (F : Type 0) : Type 0 where
  pub ema_fast : ℕ
  pub ema_slow : ℕ
  pub rsi_period : ℕ
  pub rsi_exit : F

pub record Baseline (F : Type 0) : Type 0 where
  pub config : EmaRsiConfig F
  pub fast : EmaTracker F
  pub slow : EmaTracker F
  pub rsi : RsiTracker F

abbrev pub signal : ℕ → Action → SignalReason → Signal
signal ts a r = record { timestamp_ms = ts; action = a; intensity = Intensity.medium; reason = r }

module _ {F : Type 0} ⦃fl : Floating F⦄ where
  open fl use {lit, add, sub, mul, div, neg, lt, le, eq}

  unfoldable pub new_ema : ℕ → EmaTracker F
  new_ema p = record { period = p; buffer = []; prev = none; current = none }

  unfoldable pub update_ema : F → EmaTracker F → Option F → EmaTracker F
  update_ema x s none =
      let all = s.buffer ++ (x ∷ []) in
      record s {
        buffer = all;
        current = if length all == s.period then some (mean_of s.period all) else none;
      }
  update_ema x s (some v) = record s { prev = some v; current = some (ema_step s.period v x) }

  unfoldable pub ema_update : F → EmaTracker F → EmaTracker F
  unfolding update_ema
  ema_update x s = update_ema x s s.current

  unfoldable pub rsi_value : F → F → F
  rsi_value avg_gain avg_loss =
      if eq avg_loss (lit 0 0)
      then (if lt (lit 0 0) avg_gain then lit 100 0 else lit 50 0)
      else sub (lit 100 0) (div (lit 100 0) (add (lit 1 0) (div avg_gain avg_loss)))

  unfoldable pub new_rsi : ℕ → RsiTracker F
  new_rsi p = record {
    period = p;
    changes = [];
    prev_close = none;
    avg_gain = none;
    avg_loss = none;
    prev = none;
    current = none;
  }

  -- The step of an average, once both are set, and before.
  unfoldable pub update_averages : F → F → RsiTracker F → Option F → Option F → RsiTracker F
  update_averages gain loss s (some g) (some l) =
      let g' = wilder_step s.period g gain in
      let l' = wilder_step s.period l loss in
      record s {
        prev = s.current;
        avg_gain = some g';
        avg_loss = some l';
        current = some (rsi_value g' l');
      }
  update_averages gain loss s _ _ =
      let all = s.changes ++ ((gain, loss) ∷ []) in
      let g = mean_of s.period (map (λ c. c.0) all) in
      let l = mean_of s.period (map (λ c. c.1) all) in
      if length all == s.period
      then record s {
        changes = all;
        avg_gain = some g;
        avg_loss = some l;
        current = some (rsi_value g l);
      }
      else record s { changes = all }

  unfoldable pub update_rsi : F → RsiTracker F → Option F → RsiTracker F
  unfolding update_averages
  update_rsi close s none = record s { prev_close = some close }
  update_rsi close s (some before) =
      let change = sub close before in
      update_averages (max change (lit 0 0)) (max (neg change) (lit 0 0))
        (record s { prev_close = some close }) s.avg_gain s.avg_loss

  unfoldable pub rsi_update : F → RsiTracker F → RsiTracker F
  unfolding update_rsi
  rsi_update close s = update_rsi close s s.prev_close

  abbrev pub default_ema_rsi : EmaRsiConfig F
  default_ema_rsi = record { ema_fast = 20; ema_slow = 50; rsi_period = 14; rsi_exit = lit 80 0 }

  unfoldable pub new_baseline : EmaRsiConfig F → Baseline F
  unfolding new_ema new_rsi
  new_baseline c = record {
    config = c;
    fast = new_ema c.ema_fast;
    slow = new_ema c.ema_slow;
    rsi = new_rsi c.rsi_period;
  }

  -- The decision on the previous and current averages and the current RSI.
  unfoldable pub cross_signal :
      F → ℕ → Option F → Option F → Option F → Option F → Option F → Signal
  cross_signal rsi_exit ts (some f_prev) (some f_cur) (some s_prev) (some s_cur) (some rsi) =
      if le f_prev s_prev && lt s_cur f_cur
      then signal ts Action.buy SignalReason.ema_cross_up
      else if (le s_prev f_prev && lt f_cur s_cur) || lt rsi_exit rsi
      then signal ts Action.sell SignalReason.ema_cross_down_or_rsi_exit
      else signal ts Action.hold SignalReason.nothing
  cross_signal rsi_exit ts _ _ _ _ _ = signal ts Action.hold SignalReason.warmup

  unfoldable pub on_candle : Candle F → Baseline F → Signal × Baseline F
  on_candle c s =
      let fast = ema_update c.close s.fast in
      let slow = ema_update c.close s.slow in
      let rsi = rsi_update c.close s.rsi in
      (
        cross_signal s.config.rsi_exit c.timestamp_ms fast.prev fast.current slow.prev slow.current
            rsi.current,
        record s { fast = fast; slow = slow; rsi = rsi },
      )

-- `PrecomputedStrategy`
pub record Precomputed : Type 0 where
  pub actions : List Action
  pub index : ℕ

abbrev action_or_hold : Option Action → Action
action_or_hold none = Action.hold
action_or_hold (some a) = a

unfoldable pub next_action : Precomputed → Action × Precomputed
next_action s = (action_or_hold (get_elem? s.actions s.index), record s { index = s.index + 1 })
