-- ===== src/Medallion/Candles/Patterns.antt =====
-- The regular expressions `^[0-9]+$`, `^[0-9]+(\.[0-9]+)?$` and `^[0-9a-f]{64}$` of
-- src/infrastructure/medallion/candles.py under `match`, where `$` also stands before a last line feed, and `int`.
use Prim.Native.String.{String, [], ◌∷◌}
use Prim.Native.Char.{Char, code}
use self_evaluating_trading.Common.{
  ℕ, zero, suc, ◌+◌, ◌-◌, ◌*◌, Bool, true, false, ◌&&◌, ◌==◌, in_range, if◌then◌else◌,
}
use self_evaluating_trading.Lab.Texts.{is_hex_digit}

abbrev is_digit : Char → Bool
is_digit c = in_range 48 57 (code c)

-- `$`
abbrev at_end : String → Bool
at_end [] = true
at_end (c ∷ []) = code c == 10
at_end (c ∷ d ∷ s) = false

unfoldable pub uint_rest : String → Bool
uint_rest [] = true
uint_rest (c ∷ s) = if is_digit c then uint_rest s else at_end (c ∷ s)

-- `_RX_UINT`
unfoldable pub is_uint : String → Bool
is_uint [] = false
is_uint (c ∷ s) = is_digit c && uint_rest s

unfoldable pub decimal_rest : String → Bool
decimal_rest [] = true
decimal_rest (c ∷ s) =
    if is_digit c then decimal_rest s else if code c == 46 then is_uint s else at_end (c ∷ s)

-- `_RX_DEC`
unfoldable pub is_decimal : String → Bool
is_decimal [] = false
is_decimal (c ∷ s) = is_digit c && decimal_rest s

unfoldable pub hex_rest : ℕ → String → Bool
hex_rest zero s = at_end s
hex_rest (suc n) [] = false
hex_rest (suc n) (c ∷ s) = is_hex_digit (code c) && hex_rest n s

-- `_RX_HEX64`
unfoldable pub is_hex : String → Bool
is_hex s = hex_rest 64 s

unfoldable pub number_from : ℕ → String → ℕ
number_from n [] = n
number_from n (c ∷ s) = number_from (if is_digit c then n * 10 + (code c - 48) else n) s

-- `int` of a text that `_RX_UINT` accepts
unfoldable pub to_number : String → ℕ
to_number s = number_from 0 s
