-- ===== src/Medallion/Candles/Single.antt =====
-- One pass over all trades gives each bucket the candle of its own trades
-- (src/infrastructure/medallion/candles.py).
use self_evaluating_trading.Common.{
  ℕ, ◌≡◌, refl, ◌∙◌, ◌==◌, ==_iff, Option, some, List, [], ◌∷◌, if◌then◌else◌, arith, Bool-cases,
  inl, inr,
}
use self_evaluating_trading.Medallion.Candles.{
  Decimals, Row, Agg, Buckets, bucket_of, get, set, absorb, add_row, fill,
}

-- The trades of a bucket.
abbrev pub rows_of : ℕ → ℕ → List Row → List Row
rows_of duration k [] = []
rows_of duration k (r ∷ rs) =
    if bucket_of duration r == k then r ∷ rows_of duration k rs else rows_of duration k rs

module _ {D : Type 0} ⦃dec : Decimals D⦄ where
  pub get-set :
      (k j : ℕ) (a : Agg D) (d : Buckets D)
      → get j (set k a d) ≡ (if k == j then some a else get j d)
  get-set k j a [] = refl
  get-set k j a ((i, b) ∷ d) = ground (arith, ==_iff k j, ==_iff i k, ==_iff i j, get-set k j a d)

  -- What trades make of an aggregate, one after the other.
  abbrev pub absorb_all : Option (Agg D) → List Row → Option (Agg D)
  absorb_all o [] = o
  absorb_all o (r ∷ rs) = absorb_all (some (absorb o r)) rs

  pub get-fill :
      (duration k : ℕ) (d : Buckets D) (rs : List Row)
      → get k (fill duration d rs) ≡ absorb_all (get k d) (rows_of duration k rs)
  unfolding fill add_row
  get-fill duration k d [] = refl
  get-fill duration k d (r ∷ rs) =
      let b = bucket_of duration r in
      let step = get-set b k (absorb (get b d) r) d in
      let rest = get-fill duration k (set b (absorb (get b d) r) d) rs in
      elim (Bool-cases (b == k)) [
        | inl same ↦ let e : b ≡ k = ground (arith, ==_iff b k) in rest ∙ rw (step, same, e) refl
        | inr other ↦ rest ∙ rw (step, other) refl
      ]
