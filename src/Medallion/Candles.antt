-- ===== src/Medallion/Candles.antt =====
-- src/infrastructure/medallion/candles.py: the candles of a day from its trades. Python's `Decimal` is an
-- interface: a number of a text, the order and the sum. A time is a natural number of milliseconds.
pub mod Single
pub mod Summary
pub mod Sorting
pub mod Emitted
pub mod Patterns
pub mod Reading
pub mod Day
mod Examples
pub mod Total
use self_evaluating_trading.Common.{
  ℕ, ◌≡◌, suc, ◌+◌, ◌*◌, ◌/◌, Bool, true, false, ◌||◌, ltb, leb, ◌==◌, Option, none, some, List, [],
  ◌∷◌, String, if◌then◌else◌,
}

pub record Decimals (D : Type 0) : Type 0 where
  -- `Decimal(text)` of a text of digits with at most one point between them
  pub of_text : String → D
  pub lt : D → D → Bool
  pub add : D → D → D

-- The order of `Decimal` on numbers that are not NaN.
pub record IsOrdered (D : Type 0) ⦃dec : Decimals D⦄ : Type 0 where
  pub lt_asym : (x y : D) → dec.lt x y ≡ true → dec.lt y x ≡ false
  pub not_lt_trans : (x y z : D) → dec.lt x y ≡ false → dec.lt y z ≡ false → dec.lt x z ≡ false

pub record Row : Type 0 where
  pub timestamp : ℕ
  pub price : String
  pub quantity : String

pub data Timeframe : Type 0 where
  m1 m5 m15 m30 h1 h4 d1 : Timeframe

unfoldable pub duration_ms : Timeframe → ℕ
duration_ms Timeframe.m1 = 60_000
duration_ms Timeframe.m5 = 300_000
duration_ms Timeframe.m15 = 900_000
duration_ms Timeframe.m30 = 1_800_000
duration_ms Timeframe.h1 = 3_600_000
duration_ms Timeframe.h4 = 14_400_000
duration_ms Timeframe.d1 = 86_400_000

abbrev pub day_ms : ℕ
day_ms = 86_400_000

-- `_Agg`
pub record Agg (D : Type 0) : Type 0 where
  pub open_price : String
  pub high : String
  pub high_d : D
  pub low : String
  pub low_d : D
  pub close : String
  pub volume : D
  pub count : ℕ

-- A line of the output; the texts of its numbers are left to Python.
pub record Candle (D : Type 0) : Type 0 where
  pub open_time : ℕ
  pub close_time : ℕ
  pub symbol : String
  pub timeframe : Timeframe
  pub agg : Agg D

-- A `dict` keyed by numbers, in the order of insertion.
abbrev pub Buckets : Type 0 → Type 0
Buckets D = List (ℕ × Agg D)

unfoldable pub bucket_of : ℕ → Row → ℕ
bucket_of duration r = r.timestamp / duration * duration

module _ {D : Type 0} ⦃dec : Decimals D⦄ where
  abbrev pub get : ℕ → Buckets D → Option (Agg D)
  get k [] = none
  get k ((j, a) ∷ d) = if j == k then some a else get k d

  abbrev pub set : ℕ → Agg D → Buckets D → Buckets D
  set k a [] = (k, a) ∷ []
  set k a ((j, b) ∷ d) = if j == k then (j, a) ∷ d else (j, b) ∷ set k a d

  -- What a row makes of the aggregate of its bucket.
  unfoldable pub absorb : Option (Agg D) → Row → Agg D
  absorb none r = record {
    open_price = r.price;
    high = r.price;
    high_d = dec.of_text r.price;
    low = r.price;
    low_d = dec.of_text r.price;
    close = r.price;
    volume = dec.of_text r.quantity;
    count = 1;
  }
  absorb (some a) r =
      let price_d = dec.of_text r.price in
      record a {
        high = if dec.lt a.high_d price_d then r.price else a.high;
        high_d = if dec.lt a.high_d price_d then price_d else a.high_d;
        low = if dec.lt price_d a.low_d then r.price else a.low;
        low_d = if dec.lt price_d a.low_d then price_d else a.low_d;
        close = r.price;
        volume = dec.add a.volume (dec.of_text r.quantity);
        count = suc a.count;
      }

  unfoldable pub add_row : ℕ → Buckets D → Row → Buckets D
  add_row duration d r = let bucket = bucket_of duration r in set bucket (absorb (get bucket d) r) d

  unfoldable pub fill : ℕ → Buckets D → List Row → Buckets D
  fill duration d [] = d
  fill duration d (r ∷ rs) = fill duration (add_row duration d r) rs

  -- `sorted(buckets)`, with the aggregates
  unfoldable pub insert_bucket : ℕ → Agg D → Buckets D → Buckets D
  insert_bucket k a [] = (k, a) ∷ []
  insert_bucket k a ((j, b) ∷ d) =
      let rest = insert_bucket k a d in if leb k j then (k, a) ∷ (j, b) ∷ d else (j, b) ∷ rest

  unfoldable pub sort_buckets : Buckets D → Buckets D
  sort_buckets [] = []
  sort_buckets ((k, a) ∷ d) = insert_bucket k a (sort_buckets d)

  unfoldable pub prepend : Candle D → Option (List (Candle D)) → Option (List (Candle D))
  prepend c none = none
  prepend c (some cs) = some (c ∷ cs)

  -- The loop that writes the candles; `none` is the `CandleError` of a candle outside the day.
  unfoldable pub emit : String → Timeframe → ℕ → ℕ → Buckets D → Option (List (Candle D))
  emit symbol timeframe day_start day_end [] = some []
  emit symbol timeframe day_start day_end ((k, a) ∷ d) =
      let rest = emit symbol timeframe day_start day_end d in
      let close_ms = k + duration_ms timeframe in
      if ltb k day_start || ltb day_end close_ms
      then none
      else prepend
          (record {
            open_time = k;
            close_time = close_ms;
            symbol = symbol;
            timeframe = timeframe;
            agg = a;
          })
          rest

  -- `_aggregate`
  unfoldable pub aggregate : List Row → String → Timeframe → ℕ → ℕ → Option (List (Candle D))
  aggregate rows symbol timeframe day_start day_end =
      emit symbol timeframe day_start day_end (sort_buckets (fill (duration_ms timeframe) [] rows))
