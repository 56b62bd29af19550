-- ===== src/Medallion/Replay.antt =====
-- src/infrastructure/medallion/replay.py: the data of the replay of trades. The engine stands in
-- Medallion.Replay.Engine, its loop in Medallion.Replay.Run. Files, manifests and the ledger's text are not modelled.
pub mod Engine
pub mod Trades
pub mod Run
pub mod Accounted
pub mod Waiting
pub mod Complete
pub mod Context
pub mod Timely
pub mod Rounds
pub mod Entered
pub mod Scripted
mod Examples
use self_evaluating_trading.Common.{ℕ, Option, List, String, Dict}
use self_evaluating_trading.Trading.{Intensity}
use self_evaluating_trading.Risk.Config.{RiskConfig}

pub record CandleRow (F : Type 0) : Type 0 where
  pub open_time : ℕ
  pub close_time : ℕ
  pub open_price : F
  pub high : F
  pub low : F
  pub close : F
  pub volume : F
  pub trade_count : ℕ

pub record ContextSnapshot (F : Type 0) : Type 0 where
  pub decision_ts : ℕ
  pub h1 : Option (CandleRow F)
  pub h4 : Option (CandleRow F)

pub record Decision (F : Type 0) : Type 0 where
  pub action : String
  pub signal_ts : ℕ
  pub reference_price : F
  pub candle_index : ℕ
  pub atr : Option F

-- A decision provider is asked once for every candle, in order, so that what it answers is a function of the
-- candle's index and of what it is given.
pub record DecisionProvider (F : Type 0) : Type 0 where
  pub decide : ℕ → ℕ → F → Option F → ContextSnapshot F → Option (Decision F)

pub record ReplayTrade (F : Type 0) : Type 0 where
  pub ts : ℕ
  pub price : F
  pub quantity : F

-- The two modes that `__post_init__` lets through.
pub data SizingMode : Type 0 where
  fixed risk_engine : SizingMode

pub record ReplayScenario (F : Type 0) : Type 0 where
  pub risk : RiskConfig F
  pub quantity : F
  pub fee_rate : F
  pub slippage_bps : F
  pub atr_period : ℕ
  pub sizing_mode : SizingMode
  pub intensity : Intensity

pub record Position (F : Type 0) : Type 0 where
  pub quantity : F
  pub entry_signal_ts : ℕ
  pub entry_trigger_ts : ℕ
  pub entry_fill_ts : ℕ
  pub entry_reference_price : F
  pub entry_execution_price : F
  pub entry_trade_price : F
  pub entry_candle_index : ℕ
  pub entry_fill_trade_index : ℕ
  pub atr : F
  pub initial_stop : F
  pub initial_target : F
  pub trailing : F
  pub highest : F
  pub lowest : F
  pub current_atr : F
  pub trailing_updates : ℕ

pub data ExitReason : Type 0 where
  stop_loss take_profit trailing_stop strategy_exit end_of_dataset : ExitReason

pub record PendingExit (F : Type 0) : Type 0 where
  pub reason : ExitReason
  pub trigger_ts : ℕ
  pub trigger_trade_index : Option ℕ
  pub trigger_price : F
  pub reference_price : F

-- The record of a closed trade. The constant texts of the run (versions, the identity of the dataset) and
-- `holding_ms`, the difference of two fields, are left out.
pub record TradeRecord (F : Type 0) : Type 0 where
  pub position : Position F
  pub mfe : F
  pub mae : F
  pub exit_trigger_timestamp : ℕ
  pub exit_fill_timestamp : ℕ
  pub exit_trigger_trade_index : Option ℕ
  pub exit_fill_trade_index : ℕ
  pub exit_reason : ExitReason
  pub exit_reference_price : F
  pub exit_execution_price : F
  pub exit_trade_price : F
  pub fees : F
  pub slippage : F
  pub gross_pnl : F
  pub net_pnl : F

pub record Stats : Type 0 where
  pub decisions_total : ℕ
  pub decisions_filled : ℕ
  pub decisions_dropped : ℕ
  pub decisions_unfilled : ℕ
  pub decisions_rejected : ℕ
  pub closed_trades : ℕ

-- The messages of `ReplayError` that the engine raises; the last one is the `ValueError` of a candle that
-- `Candle` or `atr` refuses.
pub data EngineError : Type 0 where
  pending_without_position pending_without_index position_without_trades : EngineError
  approved_without_stop unknown_action bad_candles : EngineError

-- What `__init__` sets. `ahead` is the candles from `_candle_i` on, each with its ATR.
pub record EngineState (F : Type 0) : Type 0 where
  pub ahead : List (CandleRow F × Option F)
  pub candle_i : ℕ
  pub queue : List (Decision F)
  pub position : Option (Position F)
  pub pending : Option (PendingExit F)
  pub records : List (TradeRecord F)
  pub stats : Stats
  pub rejected_reasons : Dict ℕ
  pub realized_total : F
  pub realized_today : F
  pub day : Option ℕ
  pub peak_equity : F

pub data Step (F : Type 0) : Type 0 where
  running : EngineState F → Step F
  broken : EngineError → Step F
