-- ===== src/Lib.antt =====
-- Verification library of the self-evaluating trading agent: the deterministic core of its paper
-- trading, from a confirmed candle to a persisted event, with the risk engine, the account, the
-- recovery by replay and the accounting reconciliation.
--
-- The parts and their files. A candle (src/domain/market/candle.py: Market.Candle) reaches the paper
-- runner (src/application/services/paper_runner.py: Runner, with `_process` as `process`, and
-- Runner.Handler for `handle_candle`). The runner classifies the regime (src/domain/market/regime.py:
-- Market.Regime, on src/domain/market/indicators.py: Market.Indicators), lets the confirmation tracker
-- observe it (src/application/services/regime_confirmation.py: Confirmation), asks the strategy for a
-- signal (src/domain/trading/strategy.py: Strategy) and hands the decision to the paper engine
-- (src/application/services/paper_engine.py: Paper for the state, the opening and the closing,
-- Paper.Handling for `on_price`). The engine asks the risk engine (src/domain/risk/: Risk, a child for
-- each file) and books fills (src/domain/trading/: Trading) on the account
-- (src/domain/portfolio/portfolio.py: Portfolio). The event is the record of
-- src/application/ports/paper_trading.py with the snapshot of
-- src/application/services/decision_context.py: Events. Persisted candles are replayed against
-- persisted events (`replay`, `events_equivalent`: Runner.Replay; `restore_runner` of
-- src/application/services/recovery.py: Runner.Restore), the candles that were missed are filled in
-- (src/application/services/backfill.py: Runner.Backfill; their quality is checked by
-- src/application/services/validation.py: Market.Validation), and the account is rebuilt from the
-- events alone (src/application/services/accounting_reconciliation.py: Accounting,
-- Accounting.Reconcile). The same account and fills run in the backtest
-- (src/application/services/backtest_engine.py: Backtest, for any strategy). Beside them stand the
-- register of improvement proposals (src/domain/experiments/improvement.py,
-- src/application/services/approval_workflow.py: Improvements), the budgets of the language models
-- (src/domain/llm/budget.py, src/application/services/cost_monitor.py: Costs), the guards of the memory
-- (src/domain/memory/: Memory), the tracked order (src/domain/trading/order.py: Orders) and the local
-- order book (src/domain/market/orderbook.py: OrderBook). A strategy reaches paper trading by the lab:
-- its promotion with the sealed file (src/lab/promote.py: Lab.Promotion, the file's object in Lab.Sealed), the split of the data by rows and the
-- windows of the walk-forward (src/lab/splits.py, src/lab/walk_forward.py: Lab.WalkForward), and the
-- splitter of experiments (src/domain/experiments/walk_forward.py: Windows). The data lake is guarded by days
-- and by storage (src/infrastructure/medallion/split_guard.py, capacity_guards.py: Medallion), and makes candles of
-- trades (src/infrastructure/medallion/candles.py: Medallion.Candles), which are replayed with the trades under the
-- risk engine (src/infrastructure/medallion/replay.py: Medallion.Replay). The
-- exchange's session is opened by the supervisor
-- (src/application/services/connection_supervisor.py: Connection). Common holds the shared names, Floating
-- the interface of numbers.
--
-- Conventions. An object with mutable fields is a record, and a method returns the new record; an
-- exception is a value, with the state that it leaves behind. Texts that the program compares with
-- literals only, such as actions and reasons, are data types. Loops are structural recursions over
-- candles, events, calls, rounds or files, so no fuel is needed, except for the `while` loop of
-- Windows, whose fuel is n + 1 rounds for n elements, which is proved to be enough, and for `bisect_right` in
-- Medallion.Replay, which halves its interval and has as many rounds as the list has elements; the trackers' windows and the runner's window of a
-- hundred candles are those of the source. Numbers of Python's `float` are an interface with the
-- documented laws of comparison (IEEE 754, NaN included); arithmetic has no laws, so what is proved of
-- prices and profits is proved to the last bit, rounding included. `Decimal` is an interface with the
-- documented exactness of its conversions. Floating.Fixed is a concrete instance of the numbers, at
-- which the examples run.
--
-- Not modelled: the asynchronous repositories and their failures, reports and other files, the clients
-- of the exchange, the databases and the language models, the command lines and the HTTP API, the
-- indicators that neither the regime nor the runner reads, the metrics of a backtest, the
-- evaluation, the sessions and the registry of the strategy lab, the retrieval of memory and the layers of
-- the data lake. What the file system, `json` and `hashlib` answer is a parameter. The text form of an
-- accounting book and of a decision context is not modelled: a checkpoint is taken as it has been read.
pub mod Common
pub mod Floating
pub mod Market
pub mod Trading
pub mod Risk
pub mod Portfolio
pub mod Paper
pub mod Strategy
pub mod Confirmation
pub mod Events
pub mod Accounting
pub mod Runner
pub mod Backtest
pub mod Improvements
pub mod Costs
pub mod Memory
pub mod Orders
pub mod OrderBook
pub mod Lab
pub mod Medallion
pub mod Connection
pub mod Windows
