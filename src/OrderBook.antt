-- ===== src/OrderBook.antt =====
-- src/domain/market/orderbook.py: the local order book. A dictionary of sizes by price is a list of pairs
-- in insertion order; prices are taken to be numbers. The exception of a gap leaves the book as it
-- was.
pub mod Sequence
mod Examples
use self_evaluating_trading.Common.{
  String, ℕ, ◌+◌, ltb, leb, Bool, false, ◌&&◌, ◌||◌, Option, none, some, List, [], ◌∷◌, is_some,
  if◌then◌else◌,
}
use self_evaluating_trading.Floating.{Floating, max, min}

pub record OrderBookLevel (F : Type 0) : Type 0 where
  pub price : F
  pub size : F

abbrev pub Side : Type 0 → Type 0
Side F = List (F × F)

pub record OrderBook (F : Type 0) : Type 0 where
  pub symbol : String
  pub bids : Side F
  pub asks : Side F
  pub update_id : Option ℕ

pub record Delta (F : Type 0) : Type 0 where
  pub bids : List (OrderBookLevel F)
  pub asks : List (OrderBookLevel F)
  pub update_id : ℕ

-- How the sequence number of a delta stands to the book's.
abbrev pub is_gap : Option ℕ → ℕ → Bool
is_gap none i = false
is_gap (some u) i = ltb (u + 1) i

abbrev pub is_stale : Option ℕ → ℕ → Bool
is_stale none i = false
is_stale (some u) i = leb i u

module _ {F : Type 0} ⦃fl : Floating F⦄ where
  open fl use {lit, add, sub, div, lt, le, eq, sum}

  -- `book[price] = size`
  unfoldable pub set_level : F → F → Side F → Side F
  set_level price size [] = (price, size) ∷ []
  set_level price size ((p, s) ∷ rest) =
      if eq p price then (p, size) ∷ rest else (p, s) ∷ set_level price size rest

  -- `book.pop(price, None)`
  unfoldable pub pop_level : F → Side F → Side F
  pop_level price [] = []
  pop_level price ((p, s) ∷ rest) = if eq p price then rest else (p, s) ∷ pop_level price rest

  -- The comprehension of a snapshot.
  unfoldable pub snapshot_from : Side F → List (OrderBookLevel F) → Side F
  snapshot_from side [] = side
  snapshot_from side (l ∷ ls) =
      snapshot_from (if lt (lit 0 0) l.size then set_level l.price l.size side else side) ls

  unfoldable pub apply_snapshot :
      List (OrderBookLevel F) → List (OrderBookLevel F) → ℕ → OrderBook F → OrderBook F
  apply_snapshot bids asks i b = record b {
    bids = snapshot_from [] bids;
    asks = snapshot_from [] asks;
    update_id = some i;
  }

  -- `_apply_levels`
  unfoldable pub apply_levels : List (OrderBookLevel F) → Side F → Side F
  apply_levels [] side = side
  apply_levels (l ∷ ls) side =
      apply_levels ls
        (if eq l.size (lit 0 0) then pop_level l.price side else set_level l.price l.size side)

  -- `none` is `OrderBookDesync`.
  unfoldable pub apply_delta : Delta F → OrderBook F → Option (OrderBook F)
  apply_delta d b =
      if is_gap b.update_id d.update_id
      then none
      else if is_stale b.update_id d.update_id
      then some b
      else some (record b {
        bids = apply_levels d.bids b.bids;
        asks = apply_levels d.asks b.asks;
        update_id = some d.update_id;
      })

  -- The extreme of the prices of a side, by `max` or `min`.
  unfoldable pub extreme : (F → F → F) → Side F → Option F
  extreme f [] = none
  extreme f ((p, s) ∷ []) = some p
  extreme f ((p, s) ∷ (q, t) ∷ rest) = extreme f ((f p q, t) ∷ rest)

  unfoldable pub best_bid : OrderBook F → Option F
  best_bid b = extreme max b.bids

  unfoldable pub best_ask : OrderBook F → Option F
  best_ask b = extreme min b.asks

  abbrev pub both_sides : (F → F → F) → Option F → Option F → Option F
  both_sides f (some bid) (some ask) = some (f bid ask)
  both_sides f _ _ = none

  unfoldable pub mid : OrderBook F → Option F
  mid b = both_sides (λ bid ask. div (add bid ask) (lit 2 0)) (best_bid b) (best_ask b)

  unfoldable pub spread : OrderBook F → Option F
  spread b = both_sides (λ bid ask. sub ask bid) (best_bid b) (best_ask b)

  abbrev pub share : Option F → Option F → Option F
  share (some m) (some s) = if eq m (lit 0 0) then none else some (div s m)
  share _ _ = none

  unfoldable pub spread_pct : OrderBook F → Option F
  spread_pct b = share (mid b) (spread b)

  unfoldable pub is_healthy : OrderBook F → Bool
  is_healthy b = is_some (best_bid b) && is_some (best_ask b)
