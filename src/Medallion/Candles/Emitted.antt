-- ===== src/Medallion/Candles/Emitted.antt =====
-- Which candles a day gets (src/infrastructure/medallion/candles.py): `_aggregate` never fails on the trades of a
-- day, and writes one candle for each bucket that has a trade, in the order of time.
use self_evaluating_trading.Common.{
  ℕ, ◌+◌, ◌*◌, ◌/◌, ◌≤◌, ◌<◌, ◌≡◌, refl, sym, subst, ◌∙◌, false, ◌||◌, ◌==◌, ltb, Option, none,
  some, List, [], ◌∷◌, String, All, if◌then◌else◌, arith,
}
use self_evaluating_trading.Medallion.Candles.{
  Decimals, IsOrdered, Row, Agg, Buckets, Candle, Timeframe, duration_ms, day_ms, bucket_of, get,
  add_row, fill, sort_buckets, prepend, emit, aggregate,
}
use self_evaluating_trading.Medallion.Candles.Single.{rows_of}
use self_evaluating_trading.Medallion.Candles.Summary.{Describes, fill-Describes}
use self_evaluating_trading.Medallion.Candles.Sorting.{
  get-sort_buckets, IsDistinct, HasKeys, set-IsDistinct, set-HasKeys, HasKeys-map, HasKeys-both,
  sort_buckets-HasKeys, IsAscending, sort_buckets-IsAscending,
}

-- The trade is one of the day.
abbrev pub IsInDay : ℕ → Row → Type 0
IsInDay day_start r = (day_start ≤ r.timestamp) × (r.timestamp < day_start + day_ms)

-- The key is that of a candle inside the day.
abbrev IsSlot : Timeframe → ℕ → ℕ → Type 0
IsSlot tf day_start k =
    (day_start ≤ k)
    × (k + duration_ms tf ≤ day_start + day_ms)
    × (k ≡ k / duration_ms tf * duration_ms tf)

bucket_of-IsSlot :
    (tf : Timeframe) (n : ℕ) (r : Row)
    → IsInDay (n * day_ms) r
    → IsSlot tf (n * day_ms) (bucket_of (duration_ms tf) r)
unfolding bucket_of duration_ms
bucket_of-IsSlot Timeframe.m1 n r (h, l) = (omega arith, omega arith, omega arith)
bucket_of-IsSlot Timeframe.m5 n r (h, l) = (omega arith, omega arith, omega arith)
bucket_of-IsSlot Timeframe.m15 n r (h, l) = (omega arith, omega arith, omega arith)
bucket_of-IsSlot Timeframe.m30 n r (h, l) = (omega arith, omega arith, omega arith)
bucket_of-IsSlot Timeframe.h1 n r (h, l) = (omega arith, omega arith, omega arith)
bucket_of-IsSlot Timeframe.h4 n r (h, l) = (omega arith, omega arith, omega arith)
bucket_of-IsSlot Timeframe.d1 n r (h, l) = (omega arith, omega arith, omega arith)

-- Two keys of candles stand a whole candle apart.
slots_apart :
    (tf : Timeframe) (s k j : ℕ) → IsSlot tf s k → IsSlot tf s j → k < j → k + duration_ms tf ≤ j
unfolding duration_ms
slots_apart Timeframe.m1 s k j p q h = omega arith
slots_apart Timeframe.m5 s k j p q h = omega arith
slots_apart Timeframe.m15 s k j p q h = omega arith
slots_apart Timeframe.m30 s k j p q h = omega arith
slots_apart Timeframe.h1 s k j p q h = omega arith
slots_apart Timeframe.h4 s k j p q h = omega arith
slots_apart Timeframe.d1 s k j p q h = omega arith

module _ {D : Type 0} ⦃dec : Decimals D⦄ where
  fill-IsDistinct :
      (duration : ℕ) (d : Buckets D) (rs : List Row)
      → IsDistinct d
      → IsDistinct (fill duration d rs)
  unfolding fill add_row
  fill-IsDistinct duration d [] h = h
  fill-IsDistinct duration d (r ∷ rs) h =
      fill-IsDistinct duration (add_row duration d r) rs
        (set-IsDistinct (bucket_of duration r) _ d h)

  fill-HasKeys :
      (tf : Timeframe) (n : ℕ) (d : Buckets D) (rs : List Row)
      → All (IsInDay (n * day_ms)) rs
      → HasKeys (IsSlot tf (n * day_ms)) d
      → HasKeys (IsSlot tf (n * day_ms)) (fill (duration_ms tf) d rs)
  unfolding fill add_row
  fill-HasKeys tf n d [] a h = h
  fill-HasKeys tf n d (r ∷ rs) (p, a) h = fill-HasKeys tf n (add_row (duration_ms tf) d r) rs a (
      set-HasKeys (IsSlot tf (n * day_ms)) (bucket_of (duration_ms tf) r) _ d
        (bucket_of-IsSlot tf n r p) h)

  -- The candle that opens at a time.
  abbrev pub candle_at : ℕ → List (Candle D) → Option (Agg D)
  candle_at k [] = none
  candle_at k (c ∷ cs) = if c.open_time == k then some c.agg else candle_at k cs

  -- Candles of the timeframe one after the other, from a time on and up to another, that do not overlap.
  abbrev pub IsTrack : String → Timeframe → ℕ → ℕ → List (Candle D) → Type 0
  IsTrack symbol tf from until [] = from ≤ until
  IsTrack symbol tf from until (c ∷ cs) =
      (from ≤ c.open_time)
      × (c.close_time ≡ c.open_time + duration_ms tf)
      × (c.symbol ≡ symbol)
      × (c.timeframe ≡ tf)
      × IsTrack symbol tf c.close_time until cs

  -- What a list of candles has to be for the buckets.
  record IsWritten (symbol : String) (tf : Timeframe) (from until : ℕ) (d : Buckets D)
      (o : Option (List (Candle D))) : Type 0 where
    written :
        (cs : List (Candle D)) × (o ≡ some cs)
        × IsTrack symbol tf from until cs
        × ((k : ℕ) → candle_at k cs ≡ get k d)

  emit-IsWritten :
      (symbol : String) (tf : Timeframe) (start from : ℕ) (d : Buckets D)
      → from ≤ start + day_ms
      → HasKeys (IsSlot tf start) d
      → HasKeys (λ j. from ≤ j) d
      → IsAscending d
      → IsWritten symbol tf from (start + day_ms) d (emit symbol tf start (start + day_ms) d)
  unfolding emit prepend
  emit-IsWritten symbol tf start from [] l s f a = record { written = ([], refl, l, λ k. refl) }
  emit-IsWritten symbol tf start from ((k, a) ∷ d) l (p, s) (q, f) (m, r) =
      let next = k + duration_ms tf in
      let later =
        HasKeys-both (IsSlot tf start) (λ j. k < j) (λ j. next ≤ j) d
          (λ j u v. slots_apart tf start k j p u v) s m in
      let (cs, e, t, g) = (emit-IsWritten symbol tf start next d p.1 s later r).written in
      let inside : (ltb k start || ltb (start + day_ms) next) ≡ false = ground arith in
      let c : Candle D = record {
        open_time = k;
        close_time = next;
        symbol = symbol;
        timeframe = tf;
        agg = a;
      } in
      record {
        written = (c ∷ cs, rw (inside, e) refl, (q, refl, refl, refl, t), λ i. rw (g i) refl);
      }

  -- The candles of a day never fail, and are those of its trades: from trades of one day, `_aggregate` returns
  -- candles of the timeframe in the order of time that do not overlap and lie in the day; at each time the list
  -- has no candle if no trade is in that bucket, and else the candle of that bucket's trades: first and
  -- last price, highest and lowest price, volume added in order, and count.
  pub aggregate-Describes :
      (laws : IsOrdered D) (rows : List Row) (symbol : String) (tf : Timeframe) (n : ℕ)
      → All (IsInDay (n * day_ms)) rows
      → (cs : List (Candle D)) × (aggregate rows symbol tf (n * day_ms) (n * day_ms + day_ms)
          ≡ some cs)
        × IsTrack symbol tf (n * day_ms) (n * day_ms + day_ms) cs
        × ((k : ℕ) → Describes (rows_of (duration_ms tf) k rows) (candle_at k cs))
  unfolding aggregate
  aggregate-Describes laws rows symbol tf n h =
      let d = fill (duration_ms tf) [] rows in
      let slots =
        sort_buckets-HasKeys (IsSlot tf (n * day_ms)) d (fill-HasKeys tf n [] rows h tt) in
      let early = HasKeys-map (IsSlot tf (n * day_ms)) (λ j. n * day_ms ≤ j) _ (λ j p. p.0) slots in
      let order = sort_buckets-IsAscending d (fill-IsDistinct (duration_ms tf) [] rows tt) in
      let w =
        emit-IsWritten symbol tf (n * day_ms) (n * day_ms) (sort_buckets d) (omega arith) slots
          early order in
      let (cs, e, t, g) = w.written in
      (
        cs,
        e,
        t,
        λ k.
            subst (Describes (rows_of (duration_ms tf) k rows)) (sym (g k ∙ get-sort_buckets k d))
              (fill-Describes laws (duration_ms tf) k rows),
      )
