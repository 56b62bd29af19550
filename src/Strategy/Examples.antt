-- ===== src/Strategy/Examples.antt =====
-- A concrete series of closing prices, on fixed-point numbers.
use self_evaluating_trading.Common.{ℕ, ◌≡◌, arith, some, List, [], ◌∷◌}
use self_evaluating_trading.Floating.Fixed.{Fixed, fixed_floating}
use self_evaluating_trading.Market.Indicators.{ema}
use self_evaluating_trading.Strategy.{new_ema}
use self_evaluating_trading.Strategy.Averages.{currents, currents-eq-ema}

abbrev num : ℕ → Fixed
num n = fixed_floating.lit n 0

abbrev closes : List Fixed
closes = num 100 ∷ num 103 ∷ num 99 ∷ num 101 ∷ []

currents-eq-ema_example : ema closes 2 ≡ some (currents closes (new_ema 2))
currents-eq-ema_example = currents-eq-ema 2 closes (omega arith)
