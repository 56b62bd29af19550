-- ===== src/OrderBook/Examples.antt =====
-- A small book, on fixed-point numbers.
use self_evaluating_trading.Common.{ℕ, some, List, [], ◌∷◌}
use self_evaluating_trading.Floating.Fixed.{Fixed, fixed_floating, Fixed-IsOrdered}
use self_evaluating_trading.OrderBook.{OrderBook, OrderBookLevel, Delta, apply_snapshot}
use self_evaluating_trading.OrderBook.Sequence.{apply_deltas, IsFilled, apply_snapshot-IsFilled}

abbrev level : ℕ → ℕ → OrderBookLevel Fixed
level p s = record { price = fixed_floating.lit p 0; size = fixed_floating.lit s 0 }

abbrev book : OrderBook Fixed
book = record {
  symbol = "BTCUSDT";
  bids = (fixed_floating.lit 99 0, fixed_floating.lit 2 0) ∷ [];
  asks = [];
  update_id = some 7;
}

-- The next delta, one that is late, and one after a gap.
abbrev deltas : List (Delta Fixed)
deltas =
    record { bids = level 99 0 ∷ level 98 3 ∷ []; asks = level 101 1 ∷ []; update_id = 8 }
    ∷ record { bids = level 97 1 ∷ []; asks = []; update_id = 6 }
    ∷ record { bids = level 90 1 ∷ []; asks = []; update_id = 20 }
    ∷ []

abbrev next : Delta Fixed
next = record { bids = level 99 0 ∷ []; asks = []; update_id = 8 }

apply_snapshot-IsFilled_example :
    IsFilled
      (apply_deltas deltas
        (apply_snapshot (level 99 2 ∷ level 98 0 ∷ []) (level 101 4 ∷ []) 7 book)).bids
    × IsFilled
        (apply_deltas deltas
          (apply_snapshot (level 99 2 ∷ level 98 0 ∷ []) (level 101 4 ∷ []) 7 book)).asks
apply_snapshot-IsFilled_example =
    apply_snapshot-IsFilled Fixed-IsOrdered (level 99 2 ∷ level 98 0 ∷ []) (level 101 4 ∷ []) 7 book
      deltas
