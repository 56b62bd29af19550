-- ===== src/Runner/Restore.antt =====
-- src/application/services/recovery.py: `restore_runner`, on what the repositories have returned, and
-- the construction of a runner in src/application/services/paper_runner.py.
pub mod Switch
use self_evaluating_trading.Common.{
  ℕ, ◌==◌, Bool, true, false, not, ◌&&◌, ◌||◌, Option, none, some, List, [], ◌∷◌, map, String,
  str_eq, if◌then◌else◌,
}
use self_evaluating_trading.Floating.{Floating}
use self_evaluating_trading.Market.Candle.{Candle, Timeframe, label}
use self_evaluating_trading.Market.Indicators.{new_atr_tracker}
use self_evaluating_trading.Market.Regime.{RegimeConfig}
use self_evaluating_trading.Confirmation.{new_tracker}
use self_evaluating_trading.Strategy.{EmaRsiConfig, new_baseline}
use self_evaluating_trading.Risk.Guards.{KillSwitchState, StateDict, initial_state, from_dict}
use self_evaluating_trading.Paper.{Setup, new_engine}
use self_evaluating_trading.Events.{PaperTradeEvent}
use self_evaluating_trading.Runner.{Runner, RunnerError, Identity}
use self_evaluating_trading.Runner.Replay.{Store, Input, replay}

-- What a runner is built with.
pub record Build (F : Type 0) : Type 0 where
  pub identity : Identity
  pub setup : Setup F
  pub regimes : RegimeConfig F
  pub averages : EmaRsiConfig F
  pub symbols : List String
  pub trading_mode : String
  pub live_trading_enabled : Bool

abbrev pub is_listed : String → List String → Bool
is_listed s [] = false
is_listed s (t ∷ ts) = str_eq s t || is_listed s ts

abbrev pub is_empty : List String → Bool
is_empty [] = true
is_empty (s ∷ ss) = false

-- `validate_safe`, which raises where this is false
unfoldable pub validate_safe : {F : Type 0} → Build F → Bool
validate_safe b =
    str_eq b.trading_mode "paper"
    && not b.live_trading_enabled
    && str_eq (b.identity).decision_source "baseline"
    && not (is_empty b.symbols)

-- The persisted state of the kill switch, or a new one.
unfoldable pub switch_of : Option StateDict → KillSwitchState
switch_of none = initial_state
switch_of (some d) = from_dict d

abbrev or_else {ℓ} : {A : Type ℓ} → Option A → Option A → Option A
or_else none b = b
or_else (some a) b = some a

-- The dictionary of the events by symbol, timeframe and timestamp: a later event replaces an earlier.
unfoldable pub keyed : {F : Type 0} → List (PaperTradeEvent F) → Store F
keyed [] symbol tf ts = none
keyed (e ∷ es) symbol tf ts = or_else (keyed es symbol tf ts) (
    if str_eq e.symbol symbol && str_eq e.timeframe tf && (e.timestamp_ms == ts)
    then some e
    else none)

module _ {F : Type 0} ⦃fl : Floating F⦄ where
  -- The fields that `PaperRunner.__init__` sets, with an attached kill switch
  unfoldable pub runner_with : Build F → KillSwitchState → Runner F
  runner_with b k = record {
    identity = b.identity;
    setup = b.setup;
    regimes = b.regimes;
    strategy = new_baseline b.averages;
    engine = record (new_engine b.setup.config) { kill_switch = k };
    candles_by_symbol = λ s. [];
    atr_trackers = λ s. if is_listed s b.symbols then some (new_atr_tracker 14) else none;
    regime_trackers = λ s. if is_listed s b.symbols then new_tracker 3 else none;
    last_candle = λ s tf. none;
  }

  -- `PaperRunner.__init__`; `none` is the `UnsafePaperModeError`
  unfoldable pub new_runner : Build F → KillSwitchState → Option (Runner F)
  new_runner b k = if validate_safe b then some (runner_with b k) else none

  -- The replay of what is persisted, with the runner if there is one.
  unfoldable pub replay_into :
      List (Input F) → Store F → Option (Runner F) → Option RunnerError × Option (Runner F)
  replay_into inputs persisted none = (some RunnerError.unsafe_paper_mode, none)
  replay_into inputs persisted (some r) =
      let (e, final) = replay inputs persisted r in (e, some final)

  -- `restore_runner`
  unfoldable pub restore :
      Build F
      → Option StateDict
      → String
      → Timeframe
      → List (Candle F)
      → List (PaperTradeEvent F)
      → Option RunnerError × Option (Runner F)
  restore b ks_data symbol tf candles events =
      replay_into (map (λ c. (symbol, label tf, c)) candles) (keyed events)
        (new_runner b (switch_of ks_data))
