-- ===== src/OrderBook/Sequence.antt =====
-- The sequence of deltas and the levels of src/domain/market/orderbook.py.
use self_evaluating_trading.Common.{
  ℕ, ◌+◌, ◌≤◌, ◌<◌, ◌≡◌, ◌↔◌, arith, true, false, Option, none, some, List, [], ◌∷◌, All,
  Bool-cases, inl, inr,
}
use self_evaluating_trading.Floating.{Floating, IsOrdered}
use self_evaluating_trading.OrderBook.{
  OrderBookLevel, Side, OrderBook, Delta, set_level, pop_level, snapshot_from, apply_snapshot,
  apply_levels, apply_delta,
}

module _ {F : Type 0} ⦃fl : Floating F⦄ where
  open fl use {lit, lt, le, eq}

  abbrev pub id_of : Option (OrderBook F) → Option ℕ
  id_of none = none
  id_of (some b) = b.update_id

  -- With the book at sequence number `u`, a delta raises `OrderBookDesync` exactly when its number is above
  -- `u + 1`, leaves the book as it is exactly when its number is not above `u`, and moves the book
  -- to `u + 1` exactly when that is its number.
  pub apply_delta_ids :
      (d : Delta F) (b : OrderBook F) (u : ℕ)
      → b.update_id ≡ some u
      → ((apply_delta d b ≡ none) ↔ (u + 1 < d.update_id))
        × ((apply_delta d b ≡ some b) ↔ (d.update_id ≤ u))
        × ((id_of (apply_delta d b) ≡ some (u + 1)) ↔ (d.update_id ≡ u + 1))
  unfolding apply_delta
  apply_delta_ids d b u h = ground (arith, h)

  -- No level of a side has the size zero.
  abbrev pub IsFilled : Side F → Type 0
  IsFilled = All (λ l. eq l.1 (lit 0 0) ≡ false)

  set_level-IsFilled :
      (price size : F) (side : Side F)
      → eq size (lit 0 0) ≡ false
      → IsFilled side
      → IsFilled (set_level price size side)
  unfolding set_level
  set_level-IsFilled price size [] h hs = (h, tt)
  set_level-IsFilled price size ((p, s) ∷ rest) h (k, ks) =
      ground (arith, set_level-IsFilled price size rest h ks)

  pop_level-IsFilled : (price : F) (side : Side F) → IsFilled side → IsFilled (pop_level price side)
  unfolding pop_level
  pop_level-IsFilled price [] hs = tt
  pop_level-IsFilled price ((p, s) ∷ rest) (k, ks) =
      ground (arith, pop_level-IsFilled price rest ks)

  apply_levels-IsFilled :
      (ls : List (OrderBookLevel F)) (side : Side F)
      → IsFilled side
      → IsFilled (apply_levels ls side)
  unfolding apply_levels
  apply_levels-IsFilled [] side h = h
  apply_levels-IsFilled (l ∷ ls) side h = elim (Bool-cases (eq l.size (lit 0 0))) [
    | inl zero ↦
        rw zero
          (apply_levels-IsFilled ls (pop_level l.price side) (pop_level-IsFilled l.price side h))
    | inr filled ↦ rw filled (
        apply_levels-IsFilled ls (set_level l.price l.size side)
          (set_level-IsFilled l.price l.size side filled h))
  ]

  positive-not_zero : (laws : IsOrdered F) (a : F) → lt (lit 0 0) a ≡ true → eq a (lit 0 0) ≡ false
  positive-not_zero laws a h =
      ground (arith, laws.not_le_of_lt (lit 0 0) a, laws.le_of_eq a (lit 0 0))

  snapshot_from-IsFilled :
      (laws : IsOrdered F) (ls : List (OrderBookLevel F)) (side : Side F)
      → IsFilled side
      → IsFilled (snapshot_from side ls)
  unfolding snapshot_from
  snapshot_from-IsFilled laws [] side h = h
  snapshot_from-IsFilled laws (l ∷ ls) side h = elim (Bool-cases (lt (lit 0 0) l.size)) [
    | inl up ↦ rw up (
        snapshot_from-IsFilled laws ls (set_level l.price l.size side)
          (set_level-IsFilled l.price l.size side (positive-not_zero laws l.size up) h))
    | inr down ↦ rw down (snapshot_from-IsFilled laws ls side h)
  ]

  -- A desynchronisation leaves the book as it is.
  abbrev or_book : OrderBook F → Option (OrderBook F) → OrderBook F
  or_book b none = b
  or_book b (some n) = n

  -- A delta after the other.
  unfoldable pub apply_deltas : List (Delta F) → OrderBook F → OrderBook F
  apply_deltas [] b = b
  apply_deltas (d ∷ ds) b = apply_deltas ds (or_book b (apply_delta d b))

  apply_delta-IsFilled :
      (d : Delta F) (b : OrderBook F)
      → IsFilled b.bids
      → IsFilled b.asks
      → IsFilled (or_book b (apply_delta d b)).bids × IsFilled (or_book b (apply_delta d b)).asks
  unfolding apply_delta
  apply_delta-IsFilled d b h k =
      ground (arith, apply_levels-IsFilled d.bids b.bids h, apply_levels-IsFilled d.asks b.asks k)

  apply_deltas-IsFilled :
      (ds : List (Delta F)) (b : OrderBook F)
      → IsFilled b.bids
      → IsFilled b.asks
      → IsFilled (apply_deltas ds b).bids × IsFilled (apply_deltas ds b).asks
  unfolding apply_deltas
  apply_deltas-IsFilled [] b h k = (h, k)
  apply_deltas-IsFilled (d ∷ ds) b h k =
      let (h', k') = apply_delta-IsFilled d b h k in apply_deltas-IsFilled ds _ h' k'

  -- After a snapshot and any sequence of deltas, gaps and stale ones included, no level of either side of
  -- the book has the size zero.
  pub apply_snapshot-IsFilled :
      (laws : IsOrdered F) (bids asks : List (OrderBookLevel F)) (i : ℕ) (b : OrderBook F)
      (ds : List (Delta F))
      → let n = apply_deltas ds (apply_snapshot bids asks i b) in IsFilled n.bids × IsFilled n.asks
  unfolding apply_snapshot
  apply_snapshot-IsFilled laws bids asks i b ds =
      apply_deltas-IsFilled ds _ (snapshot_from-IsFilled laws bids [] tt)
        (snapshot_from-IsFilled laws asks [] tt)
