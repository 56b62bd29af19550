-- ===== src/Portfolio/Examples.antt =====
-- A concrete round trip of the account, on fixed-point numbers.
use self_evaluating_trading.Common.{ℕ, List, [], ◌∷◌}
use self_evaluating_trading.Floating.Fixed.{Fixed, fixed_floating, Fixed-IsOrdered}
use self_evaluating_trading.Trading.{Fill, FeeModel, SlippageModel, fill_buy, fill_sell}
use self_evaluating_trading.Portfolio.{new_portfolio}
use self_evaluating_trading.Portfolio.Ledger.{new_portfolio-IsBooked, IsBooked, apply_fills}

abbrev num : ℕ → Fixed
num n = fixed_floating.lit n 0

abbrev fees : FeeModel Fixed
fees = record { taker_bps = num 10; maker_bps = num 2 }

abbrev slippage : SlippageModel Fixed
slippage = record { bps = num 5 }

-- Two purchases, a sale of a part, and one of more than is left.
abbrev round_trip : List (Fill Fixed)
round_trip =
    fill_buy fees slippage 1 (num 100) (num 2)
    ∷ fill_buy fees slippage 2 (num 110) (num 1)
    ∷ fill_sell fees slippage 3 (num 120) (num 1)
    ∷ fill_sell fees slippage 4 (num 130) (num 5)
    ∷ []

new_portfolio-IsBooked_example : IsBooked (apply_fills round_trip (new_portfolio (num 1000)))
new_portfolio-IsBooked_example = new_portfolio-IsBooked Fixed-IsOrdered (num 1000) round_trip
