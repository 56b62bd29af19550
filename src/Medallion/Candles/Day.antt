-- ===== src/Medallion/Candles/Day.antt =====
-- From the file of a day's trades to its candles (src/infrastructure/medallion/candles.py).
use self_evaluating_trading.Common.{
  ℕ, ◌+◌, ◌*◌, ◌≤◌, ◌<◌, ◌≡◌, refl, sym, subst, ◌∙◌, ==_iff, Option, none, some, List, [], ◌∷◌,
  String, arith, length, All, All-map,
}
use self_evaluating_trading.Medallion.Candles.{
  Decimals, IsOrdered, Row, Candle, Timeframe, day_ms, aggregate,
}
use self_evaluating_trading.Medallion.Candles.Patterns.{to_number}
use self_evaluating_trading.Medallion.Candles.Emitted.{IsInDay, aggregate-Describes}
use self_evaluating_trading.Medallion.Candles.Total.{candle_total, candle_total-aggregate}
use self_evaluating_trading.Medallion.Candles.Reading.{
  Source, Checked, accepted, refused, Reading, trades, failed, Columns, columns_of, check_key,
  check_columns, check_row, prepend_row, read_row, read_rows, check_count, read_trades,
}

abbrev IsWithin : Source → Row → Type 0
IsWithin src r = (src.day_start_ms ≤ r.timestamp) × (r.timestamp < src.day_end_ms)

check_key-IsWithin :
    (src : Source) (prev : Option (ℕ × ℕ)) (r s : Row) (n m : ℕ)
    → check_key src prev r n ≡ accepted s m
    → IsWithin src s
unfolding check_key
check_key-IsWithin src prev r s n m e = ground arith

check_columns-IsWithin :
    (src : Source) (prev : Option (ℕ × ℕ)) (o : Option Columns) (r : Row) (n : ℕ)
    → check_columns src prev o ≡ accepted r n
    → IsWithin src r
unfolding check_columns
check_columns-IsWithin src prev none r n e = absurd (ground arith)
check_columns-IsWithin src prev (some c) r n e = ground (
  arith,
  check_key-IsWithin src prev
      (record { timestamp = to_number c.timestamp; price = c.price; quantity = c.quantity }) r
      (to_number c.src_rn) n,
)

prepend_row-trades :
    (r : Row) (o : Reading) (rs : List Row)
    → prepend_row r o ≡ trades rs
    → (ss : List Row) × (o ≡ trades ss) × (rs ≡ r ∷ ss)
unfolding prepend_row
prepend_row-trades r (failed x) rs e = absurd (ground arith)
prepend_row-trades r (trades ss) rs e = (ss, refl, ground arith)

read_row-IsWithin :
    (src : Source) (prev : Option (ℕ × ℕ)) (l : List String) (next : Option (ℕ × ℕ) → Reading)
    (c : Checked) (rs : List Row)
    → ((p : Option (ℕ × ℕ)) (ss : List Row) → next p ≡ trades ss → All (IsWithin src) ss)
    → check_row src prev l ≡ c
    → read_row c next ≡ trades rs
    → All (IsWithin src) rs
unfolding read_row check_row
read_row-IsWithin src prev l next (refused x) rs later q e = absurd (ground arith)
read_row-IsWithin src prev l next (accepted r n) rs later q e =
    let (ss, f, g) = prepend_row-trades r _ rs e in
    let first = check_columns-IsWithin src prev (columns_of l) r n q in
    subst (All (IsWithin src)) (sym g) (first, later (some (r.timestamp, n)) ss f)

read_rows-IsWithin :
    (src : Source) (prev : Option (ℕ × ℕ)) (ls : List (List String)) (rs : List Row)
    → read_rows src prev ls ≡ trades rs
    → All (IsWithin src) rs
unfolding read_rows
read_rows-IsWithin src prev [] rs e = let q : rs ≡ [] = ground arith in rw q tt
read_rows-IsWithin src prev (l ∷ ls) rs e =
    read_row-IsWithin src prev l (λ p. read_rows src p ls) (check_row src prev l) rs
      (λ p ss f. read_rows-IsWithin src p ls ss f) refl e

check_count-trades :
    (expected : ℕ) (o : Reading) (rs : List Row)
    → check_count expected o ≡ trades rs
    → (o ≡ trades rs) × (length rs ≡ expected)
unfolding check_count
check_count-trades expected (failed x) rs e = absurd (ground arith)
check_count-trades expected (trades []) rs e = absurd (ground arith)
check_count-trades expected (trades (r ∷ ss)) rs e =
    ground (arith, ==_iff (length (r ∷ ss)) expected)

read_trades-IsWithin :
    (src : Source) (expected : ℕ) (ls : List (List String)) (rs : List Row)
    → read_trades src expected ls ≡ trades rs
    → All (IsWithin src) rs × (length rs ≡ expected)
unfolding read_trades
read_trades-IsWithin src expected [] rs e = absurd (ground arith)
read_trades-IsWithin src expected (h ∷ ls) rs e =
    let (f, n) = check_count-trades expected (read_rows src none ls) rs (ground arith) in
    (read_rows-IsWithin src none ls rs f, n)

module _ {D : Type 0} ⦃dec : Decimals D⦄ where
  -- Whatever the file of a day holds, if it is accepted, then each timeframe gets its candles without an error, and
  -- their counts add up to the number of rows that the manifest has.
  pub read_trades-aggregate :
      (laws : IsOrdered D) (src : Source) (n expected : ℕ) (ls : List (List String)) (rs : List Row)
      (tf : Timeframe)
      → src.day_start_ms ≡ n * day_ms
      → src.day_end_ms ≡ n * day_ms + day_ms
      → read_trades src expected ls ≡ trades rs
      → (cs : List (Candle D)) × (aggregate rs src.row_symbol tf src.day_start_ms src.day_end_ms
          ≡ some cs)
        × (candle_total cs ≡ expected)
  read_trades-aggregate laws src n expected ls rs tf p q e =
      let (inside, count) = read_trades-IsWithin src expected ls rs e in
      let day : All (IsInDay (n * day_ms)) rs =
        All-map (IsWithin src) (IsInDay (n * day_ms)) rs (λ r w. ground arith) inside in
      let (cs, f, t, g) = aggregate-Describes laws rs src.row_symbol tf n day in
      let whole = candle_total-aggregate rs src.row_symbol tf _ _ cs f in (cs, cc, whole ∙ count)
