-- ===== src/Backtest/Examples.antt =====
-- A concrete backtest of a precomputed strategy, on fixed-point numbers.
use self_evaluating_trading.Common.{ℕ, ◌+◌, ◌≡◌, refl, length, List, [], ◌∷◌, ◌++◌}
use self_evaluating_trading.Floating.Fixed.{Fixed, fixed_floating, Fixed-IsOrdered}
use self_evaluating_trading.Trading.{Action}
use self_evaluating_trading.Market.Candle.{Candle}
use self_evaluating_trading.Strategy.{Precomputed, next_action, signal, SignalReason}
use self_evaluating_trading.Backtest.{start, Plan, run_loop}
use self_evaluating_trading.Backtest.Causality.{account_of, run_loop_causal}
use self_evaluating_trading.Backtest.Counts.{IsEnded, run_loop-Counted}

abbrev num : ℕ → Fixed
num n = fixed_floating.lit n 0

abbrev candle : ℕ → ℕ → ℕ → Candle Fixed
candle ts open_price close = record {
  timestamp_ms = ts;
  open_price = num open_price;
  high = num (open_price + close);
  low = num 1;
  close = num close;
  volume = num 10;
  turnover = num 1000;
}

-- `PrecomputedStrategy`: a purchase, a wait and a sale.
abbrev plan : Plan Fixed Precomputed
plan = record {
  fees = record { taker_bps = num 10; maker_bps = num 2 };
  slippage = record { bps = num 5 };
  initial_cash = num 1000;
  strategy = record { actions = Action.buy ∷ Action.hold ∷ Action.sell ∷ []; index = 0 };
  on_candle =
      λ c s. let (a, s') = next_action s in (signal c.timestamp_ms a SignalReason.nothing, s');
}

abbrev series : List (Candle Fixed)
series = candle 1 100 101 ∷ candle 2 102 103 ∷ candle 3 104 99 ∷ []

-- The last close is 50 or 500, and the account the same.
run_loop_causal_example :
    account_of plan (run_loop plan (series ++ (candle 4 100 50 ∷ [])))
    ≡ account_of plan (run_loop plan (series ++ (candle 4 100 500 ∷ [])))
run_loop_causal_example = run_loop_causal plan series (candle 4 100 50) (candle 4 100 500) refl refl

run_loop-Counted_example :
    IsEnded Fixed-IsOrdered plan (length series) series (start plan) (run_loop plan series)
run_loop-Counted_example = run_loop-Counted Fixed-IsOrdered plan series
