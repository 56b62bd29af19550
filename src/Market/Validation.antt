-- ===== src/Market/Validation.antt =====
-- The quality of a series of candles (src/application/services/validation.py). The texts of the messages are data.
use self_evaluating_trading.Common.{
  ℕ, suc, ◌-◌, ◌*◌, ◌%◌, Bool, true, false, ltb, ◌==◌, Option, none, some, List, [], ◌∷◌, ◌++◌,
  if◌then◌else◌,
}
use self_evaluating_trading.Market.Candle.{Timeframe, minutes, Candle}

-- The messages, with the numbers that stand in them.
pub data Issue : Type 0 where
  misaligned : ℕ → ℕ → Issue
  duplicated : ℕ → Issue
  unordered : ℕ → ℕ → Issue

pub data Gap : Type 0 where
  gap : ℕ → ℕ → ℕ → Gap

pub record ValidationResult : Type 0 where
  pub errors : List Issue
  pub warnings : List Gap

abbrev pub is_valid : ValidationResult → Bool
is_valid r = no_errors r.errors
  where
    no_errors : List Issue → Bool
    no_errors [] = true
    no_errors (e ∷ es) = false

unfoldable pub step_ms : Timeframe → ℕ
step_ms tf = minutes tf * 60_000

unfoldable pub alignment : ℕ → ℕ → ℕ → List Issue
alignment step i ts = if ts % step == 0 then [] else misaligned i ts ∷ []

unfoldable pub ordering : Option ℕ → ℕ → List Issue
ordering none ts = []
ordering (some prev) ts =
    if ts == prev then duplicated ts ∷ [] else if ltb ts prev then unordered ts prev ∷ [] else []

unfoldable pub gaps : ℕ → Option ℕ → ℕ → List Gap
gaps step none ts = []
gaps step (some prev) ts =
    if ts == prev
    then []
    else if ltb ts prev
    then []
    else if ltb step (ts - prev)
    then gap prev ts step ∷ []
    else []

module _ {F : Type 0} where
  -- The loop from an index on, with the timestamp before.
  unfoldable pub validate_from : ℕ → List (Candle F) → ℕ → Option ℕ → ValidationResult
  validate_from step [] i prev = record { errors = []; warnings = [] }
  validate_from step (c ∷ cs) i prev =
      let ts = c.timestamp_ms in
      let rest = validate_from step cs (suc i) (some ts) in
      record {
        errors = alignment step i ts ++ (ordering prev ts ++ rest.errors);
        warnings = gaps step prev ts ++ rest.warnings;
      }

  unfoldable pub validate_candles : List (Candle F) → Timeframe → ValidationResult
  validate_candles candles tf = validate_from (step_ms tf) candles 0 none
