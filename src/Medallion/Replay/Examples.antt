-- ===== src/Medallion/Replay/Examples.antt =====
-- A run over three candles and four trades with the scripted purchase of the first candle.
use self_evaluating_trading.Common.{ℕ, zero, suc, ◌≡◌, ap, arith, Option, none, some, List, [], ◌∷◌}
use mathlib.Core.Option.{some-injective}
use self_evaluating_trading.Floating.Fixed.{Fixed, fixed_floating}
use self_evaluating_trading.Trading.{Intensity}
use self_evaluating_trading.Risk.Config.{default_config}
use self_evaluating_trading.Medallion.Replay.{
  CandleRow, ContextSnapshot, Decision, DecisionProvider, ReplayTrade, SizingMode, ReplayScenario,
}
use self_evaluating_trading.Medallion.Replay.Run.{run}
use self_evaluating_trading.Medallion.Replay.Engine.{context_at}
use self_evaluating_trading.Medallion.Replay.Context.{latest, context_at-eq-latest}
use self_evaluating_trading.Medallion.Replay.Timely.{IsEntered}
use self_evaluating_trading.Medallion.Replay.Rounds.{IsPrompt}
use self_evaluating_trading.Medallion.Replay.Entered.{AllRecords, run-AllRecords}
use self_evaluating_trading.Medallion.Replay.Complete.{IsAccounted, run-IsAccounted}

abbrev num : ℕ → Fixed
num n = fixed_floating.lit n 0

abbrev row : ℕ → CandleRow Fixed
row i = record {
  open_time = i;
  close_time = suc i;
  open_price = num 100;
  high = num 110;
  low = num 90;
  close = num 100;
  volume = num 1;
  trade_count = 1;
}

abbrev buy_first : ℕ → ℕ → Fixed → Option Fixed → ContextSnapshot Fixed → Option (Decision Fixed)
buy_first zero ts price a context = some (record {
  action = "buy";
  signal_ts = ts;
  reference_price = price;
  candle_index = 0;
  atr = some (num 5);
})
buy_first (suc n) ts price a context = none

abbrev provider : DecisionProvider Fixed
provider = record { decide = buy_first }

abbrev scenario : ReplayScenario Fixed
scenario = record {
  risk = default_config;
  quantity = num 1;
  fee_rate = fixed_floating.lit 1 3;
  slippage_bps = num 5;
  atr_period = 2;
  sizing_mode = SizingMode.risk_engine;
  intensity = Intensity.medium;
}

abbrev at_price : ℕ → ℕ → ReplayTrade Fixed
at_price ts price = record { ts = ts; price = num price; quantity = num 1 }

abbrev tape : List (ReplayTrade Fixed)
tape = at_price 1 100 ∷ at_price 2 104 ∷ at_price 3 80 ∷ at_price 4 81 ∷ []

run-IsAccounted_example :
    IsAccounted scenario provider [] []
      (run scenario provider [] [] (row 0 ∷ row 1 ∷ row 2 ∷ []) tape)
run-IsAccounted_example = run-IsAccounted scenario provider [] [] (row 0 ∷ row 1 ∷ row 2 ∷ []) tape

-- The rows close at 1, 2 and 3.
context_at-eq-latest_example :
    context_at (row 0 ∷ row 1 ∷ row 2 ∷ []) 2 ≡ latest (row 0 ∷ row 1 ∷ row 2 ∷ []) 2
context_at-eq-latest_example =
    context_at-eq-latest (row 0 ∷ row 1 ∷ row 2 ∷ []) 2
      ((ground arith, (ground arith, tt)), ((ground arith, tt), (tt, tt)))

buy_first-IsPrompt : IsPrompt provider
buy_first-IsPrompt zero ts price a x d e =
    let p = ap Decision.signal_ts (some-injective _ _ e) in omega (arith, p)
buy_first-IsPrompt (suc n) ts price a x d e = absurd (cc)

run-AllRecords_example :
    AllRecords scenario provider [] []
      (λ r. IsEntered r.position)
      (run scenario provider [] [] (row 0 ∷ row 1 ∷ row 2 ∷ []) tape)
run-AllRecords_example =
    run-AllRecords scenario provider [] [] buy_first-IsPrompt (row 0 ∷ row 1 ∷ row 2 ∷ []) tape
