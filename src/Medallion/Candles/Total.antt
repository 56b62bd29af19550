-- ===== src/Medallion/Candles/Total.antt =====
-- No trade is lost or counted twice (src/infrastructure/medallion/candles.py).
use self_evaluating_trading.Common.{
  ℕ, suc, ◌+◌, ◌≡◌, refl, ap, ◌∙◌, Bool, true, false, Option, none, some, List, [], ◌∷◌, String,
  if◌then◌else◌, arith, length,
}
use self_evaluating_trading.Medallion.Candles.{
  Decimals, Row, Agg, Buckets, Candle, Timeframe, duration_ms, bucket_of, get, set, absorb, add_row,
  fill, insert_bucket, sort_buckets, prepend, emit, aggregate,
}

module _ {D : Type 0} ⦃dec : Decimals D⦄ where
  abbrev total : Buckets D → ℕ
  total [] = 0
  total ((k, a) ∷ d) = a.count + total d

  abbrev pub candle_total : List (Candle D) → ℕ
  candle_total [] = 0
  candle_total (c ∷ cs) = c.agg.count + candle_total cs

  abbrev count_of : Option (Agg D) → ℕ
  count_of none = 0
  count_of (some a) = a.count

  total-set :
      (k : ℕ) (a : Agg D) (d : Buckets D)
      → total (set k a d) + count_of (get k d) ≡ total d + a.count
  total-set k a [] = omega arith
  total-set k a ((j, b) ∷ d) = ground (arith, total-set k a d)

  count-absorb : (o : Option (Agg D)) (r : Row) → (absorb o r).count ≡ suc (count_of o)
  unfolding absorb
  count-absorb none r = refl
  count-absorb (some a) r = refl

  total-fill :
      (duration : ℕ) (d : Buckets D) (rs : List Row)
      → total (fill duration d rs) ≡ total d + length rs
  unfolding fill add_row
  total-fill duration d [] = omega arith
  total-fill duration d (r ∷ rs) =
      let k = bucket_of duration r in
      omega (
        arith,
        total-fill duration (add_row duration d r) rs,
        total-set k (absorb (get k d) r) d,
        count-absorb (get k d) r,
      )

  total-insert_bucket :
      (k : ℕ) (a : Agg D) (d : Buckets D) → total (insert_bucket k a d) ≡ a.count + total d
  unfolding insert_bucket
  total-insert_bucket k a [] = refl
  total-insert_bucket k a ((j, b) ∷ d) = ground (arith, total-insert_bucket k a d)

  total-sort_buckets : (d : Buckets D) → total (sort_buckets d) ≡ total d
  unfolding sort_buckets
  total-sort_buckets [] = refl
  total-sort_buckets ((k, a) ∷ d) =
      omega (arith, total-insert_bucket k a (sort_buckets d), total-sort_buckets d)

  prepended :
      (b : Bool) (c : Candle D) (o : Option (List (Candle D))) (cs : List (Candle D))
      → (if b then none else prepend c o) ≡ some cs
      → (ds : List (Candle D)) × (o ≡ some ds) × (cs ≡ c ∷ ds)
  unfolding prepend
  prepended true c o cs e = absurd (ground arith)
  prepended false c none cs e = absurd (ground arith)
  prepended false c (some ds) cs e = (ds, refl, cc)

  candle_total-emit :
      (symbol : String) (tf : Timeframe) (from until : ℕ) (d : Buckets D) (cs : List (Candle D))
      → emit symbol tf from until d ≡ some cs
      → candle_total cs ≡ total d
  unfolding emit
  candle_total-emit symbol tf from until [] cs e = ground arith
  candle_total-emit symbol tf from until ((k, a) ∷ d) cs e =
      let c : Candle D = record {
        open_time = k;
        close_time = k + duration_ms tf;
        symbol = symbol;
        timeframe = tf;
        agg = a;
      } in
      let (ds, q, r) = prepended _ c (emit symbol tf from until d) cs e in
      let rest = candle_total-emit symbol tf from until d ds q in ap candle_total r ∙ rw rest refl

  -- Every trade is in one candle: the counts of the candles that `_aggregate` returns add up to the number
  -- of trades, for every timeframe.
  pub candle_total-aggregate :
      (rows : List Row) (symbol : String) (tf : Timeframe) (from until : ℕ) (cs : List (Candle D))
      → aggregate rows symbol tf from until ≡ some cs
      → candle_total cs ≡ length rows
  unfolding aggregate
  candle_total-aggregate rows symbol tf from until cs e =
      let d : Buckets D = fill (duration_ms tf) [] rows in
      omega (
        arith,
        candle_total-emit symbol tf from until (sort_buckets d) cs e,
        total-sort_buckets d,
        total-fill (duration_ms tf) [] rows,
      )
