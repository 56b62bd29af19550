-- ===== src/Medallion/Candles/Reading.antt =====
-- src/infrastructure/medallion/candles.py: the reading of a file of trades, with the check of every row. The
-- lines are what `gzip` and `csv` make of the file.
use self_evaluating_trading.Common.{
  ℕ, Bool, true, false, not, ◌&&◌, ◌||◌, ltb, leb, ◌==◌, Option, none, some, List, [], ◌∷◌, String,
  str_eq, if◌then◌else◌, length,
}
use self_evaluating_trading.Medallion.Candles.{Row}
use self_evaluating_trading.Medallion.Candles.Patterns.{is_uint, is_decimal, is_hex, to_number}

-- `InvalidTradeRowError` by what it names; the last one is `HashConflictError`.
pub data ReadError : Type 0 where
  empty_file wrong_header columns timestamp symbol price quantity side trade_id sequence : ReadError
  source_file source_sha row_number outside_day order_violated no_rows row_count : ReadError

-- The file that is read: its name, its symbol and its day.
pub record Source : Type 0 where
  pub file : String
  pub row_symbol : String
  pub day_start_ms : ℕ
  pub day_end_ms : ℕ

-- A row with its key, or the error that it raises.
pub data Checked : Type 0 where
  accepted : Row → ℕ → Checked
  refused : ReadError → Checked

pub data Reading : Type 0 where
  trades : List Row → Reading
  failed : ReadError → Reading

-- `key <= prev_key`
abbrev is_before : Option (ℕ × ℕ) → ℕ → ℕ → Bool
is_before none ts rn = false
is_before (some (t, n)) ts rn = ltb ts t || ((ts == t) && leb rn n)

-- The checks of the day and of the order.
unfoldable pub check_key : Source → Option (ℕ × ℕ) → Row → ℕ → Checked
check_key src prev r rn =
    if not (leb src.day_start_ms r.timestamp && ltb r.timestamp src.day_end_ms)
    then Checked.refused ReadError.outside_day
    else if is_before prev r.timestamp rn
    then Checked.refused ReadError.order_violated
    else Checked.accepted r rn

-- The ten columns of a line.
pub record Columns : Type 0 where
  pub timestamp : String
  pub symbol : String
  pub price : String
  pub quantity : String
  pub taker_side : String
  pub native_id : String
  pub native_seq : String
  pub src_file : String
  pub src_sha : String
  pub src_rn : String

unfoldable pub columns_of : List String → Option Columns
columns_of (ts ∷ sym ∷ p ∷ q ∷ taker ∷ id ∷ seq ∷ file ∷ sha ∷ rn ∷ []) = some (record {
  timestamp = ts;
  symbol = sym;
  price = p;
  quantity = q;
  taker_side = taker;
  native_id = id;
  native_seq = seq;
  src_file = file;
  src_sha = sha;
  src_rn = rn;
})
columns_of _ = none

unfoldable pub check_columns : Source → Option (ℕ × ℕ) → Option Columns → Checked
check_columns src prev none = Checked.refused ReadError.columns
check_columns src prev (some c) =
    if not (is_uint c.timestamp)
    then Checked.refused ReadError.timestamp
    else if not (str_eq c.symbol src.row_symbol)
    then Checked.refused ReadError.symbol
    else if not (is_decimal c.price)
    then Checked.refused ReadError.price
    else if not (is_decimal c.quantity)
    then Checked.refused ReadError.quantity
    else if not (str_eq c.taker_side "buy") && not (str_eq c.taker_side "sell")
    then Checked.refused ReadError.side
    else if not (is_uint c.native_id)
    then Checked.refused ReadError.trade_id
    else if not (str_eq c.native_seq "") && not (is_uint c.native_seq)
    then Checked.refused ReadError.sequence
    else if not (str_eq c.src_file src.file)
    then Checked.refused ReadError.source_file
    else if not (is_hex c.src_sha)
    then Checked.refused ReadError.source_sha
    else if not (is_uint c.src_rn)
    then Checked.refused ReadError.row_number
    else check_key src prev
        (record { timestamp = to_number c.timestamp; price = c.price; quantity = c.quantity })
        (to_number c.src_rn)

unfoldable pub check_row : Source → Option (ℕ × ℕ) → List String → Checked
check_row src prev line = check_columns src prev (columns_of line)

unfoldable pub prepend_row : Row → Reading → Reading
prepend_row r (Reading.trades rs) = Reading.trades (r ∷ rs)
prepend_row r (Reading.failed e) = Reading.failed e

-- One round of the loop, with the rounds after it.
unfoldable pub read_row : Checked → (Option (ℕ × ℕ) → Reading) → Reading
read_row (Checked.refused e) next = Reading.failed e
read_row (Checked.accepted r rn) next = prepend_row r (next (some (r.timestamp, rn)))

unfoldable pub read_rows : Source → Option (ℕ × ℕ) → List (List String) → Reading
read_rows src prev [] = Reading.trades []
read_rows src prev (l ∷ ls) = read_row (check_row src prev l) (λ p. read_rows src p ls)

abbrev pub silver_header : List String
silver_header =
    "event_timestamp" ∷ "symbol" ∷ "price" ∷ "quantity" ∷ "taker_side" ∷ "native_trade_id"
    ∷ "native_sequence" ∷ "source_file" ∷ "source_file_sha256" ∷ "source_row_number" ∷ []

abbrev same_texts : List String → List String → Bool
same_texts [] [] = true
same_texts (s ∷ ss) (t ∷ ts) = str_eq s t && same_texts ss ts
same_texts _ _ = false

-- After the loop: a file without rows, and the count of the manifest.
unfoldable pub check_count : ℕ → Reading → Reading
check_count expected (Reading.failed e) = Reading.failed e
check_count expected (Reading.trades []) = Reading.failed ReadError.no_rows
check_count expected (Reading.trades (r ∷ rs)) =
    if not (length (r ∷ rs) == expected)
    then Reading.failed ReadError.row_count
    else Reading.trades (r ∷ rs)

-- `_read_trades`
unfoldable pub read_trades : Source → ℕ → List (List String) → Reading
read_trades src expected [] = Reading.failed ReadError.empty_file
read_trades src expected (header ∷ ls) =
    if not (same_texts header silver_header)
    then Reading.failed ReadError.wrong_header
    else check_count expected (read_rows src none ls)
