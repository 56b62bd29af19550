-- ===== src/Medallion/Candles/Examples.antt =====
-- A day of three trades, in minutes and in quarters of an hour, with whole numbers as prices.
use self_evaluating_trading.Common.{ℕ, ◌+◌, ◌*◌, ◌≡◌, refl, arith, ltb, some, List, [], ◌∷◌, String}
use self_evaluating_trading.Medallion.Candles.{
  Decimals, IsOrdered, Row, Candle, Timeframe, day_ms, aggregate, duration_ms,
}
use self_evaluating_trading.Medallion.Candles.Patterns.{
  is_uint, uint_rest, is_decimal, decimal_rest, is_hex, hex_rest, to_number, number_from,
}
use self_evaluating_trading.Medallion.Candles.Single.{rows_of}
use self_evaluating_trading.Medallion.Candles.Summary.{Describes}
use self_evaluating_trading.Medallion.Candles.Emitted.{IsTrack, candle_at, aggregate-Describes}
use self_evaluating_trading.Medallion.Candles.Total.{candle_total}
use self_evaluating_trading.Medallion.Candles.Reading.{
  Source, trades, silver_header, columns_of, check_key, check_columns, check_row, prepend_row,
  read_row, read_rows, check_count, read_trades,
}
use self_evaluating_trading.Medallion.Candles.Day.{read_trades-aggregate}

instance abbrev whole : Decimals ℕ
whole = record { of_text = to_number; lt = ltb; add = ◌+◌ }

whole-IsOrdered : IsOrdered ℕ
whole-IsOrdered = record {
  lt_asym = λ x y h. ground arith;
  not_lt_trans = λ x y z h k. ground arith;
}

abbrev rows : List Row
rows =
    record { timestamp = 86_400_000; price = "100"; quantity = "2" }
    ∷ record { timestamp = 86_400_500; price = "103"; quantity = "1" }
    ∷ record { timestamp = 86_460_000; price = "99"; quantity = "4" }
    ∷ []

aggregate-Describes_example :
    (cs : List (Candle ℕ)) × (aggregate rows "BTCUSDT" Timeframe.m1
        (1 * day_ms)
        (1 * day_ms + day_ms)
      ≡ some cs)
    × IsTrack "BTCUSDT" Timeframe.m1 (1 * day_ms) (1 * day_ms + day_ms) cs
    × ((k : ℕ) → Describes (rows_of (duration_ms Timeframe.m1) k rows) (candle_at k cs))
aggregate-Describes_example =
    aggregate-Describes whole-IsOrdered rows "BTCUSDT" Timeframe.m1 1
      ((omega arith, omega arith), ((omega arith, omega arith), ((omega arith, omega arith), tt)))

abbrev source : Source
source = record {
  file = "BTCUSDT_1970-01-02.csv.gz";
  row_symbol = "BTCUSDT";
  day_start_ms = 86_400_000;
  day_end_ms = 172_800_000;
}

abbrev line : String → String → String → String → List String
line ts p q rn =
    ts ∷ "BTCUSDT" ∷ p ∷ q ∷ "buy" ∷ "7" ∷ "" ∷ "BTCUSDT_1970-01-02.csv.gz" ∷ sha ∷ rn ∷ []
  where
    sha : String
    sha = "00112233445566778899aabbccddeeff00112233445566778899aabbccddeeff"

abbrev lines : List (List String)
lines =
    silver_header
    ∷ line "86400000" "100" "2" "1"
    ∷ line "86400500" "103" "1" "2"
    ∷ line "86460000" "99" "4" "3"
    ∷ []

lines_read : read_trades source 3 lines ≡ trades rows
unfolding read_trades check_count read_rows read_row prepend_row check_row check_columns check_key
    columns_of is_uint uint_rest is_decimal decimal_rest is_hex hex_rest to_number number_from
lines_read = refl

read_trades-aggregate_example :
    (cs : List (Candle ℕ)) × (aggregate rows "BTCUSDT" Timeframe.m15 86_400_000 172_800_000
      ≡ some cs)
    × (candle_total cs ≡ 3)
read_trades-aggregate_example =
    read_trades-aggregate whole-IsOrdered source 1 3 lines rows Timeframe.m15 refl refl lines_read
