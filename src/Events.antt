-- ===== src/Events.antt =====
-- The persisted record of one processed candle, `PaperTradeEvent` of
-- src/application/ports/paper_trading.py, and the snapshot that it carries, `DecisionContext` of
-- src/application/services/decision_context.py. The action and the reasons, which the runner writes as
-- text by their names, are the constructors of the engine's types.
use self_evaluating_trading.Common.{ℕ, Bool, Option, String}
use self_evaluating_trading.Market.Regime.{MarketRegime}
use self_evaluating_trading.Trading.{Action}
use self_evaluating_trading.Risk.Engine.{Reason}
use self_evaluating_trading.Strategy.{SignalReason}
use self_evaluating_trading.Paper.{ExitReason}

pub record DecisionContext (F : Type 0) : Type 0 where
  pub schema_version : ℕ
  pub signal_reason : SignalReason
  pub atr : Option F
  pub ema_fast : Option F
  pub ema_slow : Option F
  pub rsi : Option F
  pub regime : Option MarketRegime

pub record PaperTradeEvent (F : Type 0) : Type 0 where
  pub session_id : String
  pub strategy_version : String
  pub strategy_hash : String
  pub decision_source : String
  pub symbol : String
  pub timeframe : String
  pub timestamp_ms : ℕ
  pub action : Action
  pub filled : Bool
  pub risk_reason : Reason
  pub exit_reason : ExitReason
  pub exec_price : Option F
  pub quantity : Option F
  pub fee : F
  pub slippage_cost : F
  pub equity : F
  pub kill_switch_active : Bool
  pub decision_context : Option (DecisionContext F)
