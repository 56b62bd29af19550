-- ===== src/Lab/Texts.antt =====
-- The regular expression of a hash, `[0-9a-f]{64}` (src/lab/promote.py).
use Prim.Native.String.{String, [], ◌∷◌, count}
use Prim.Native.Char.{code}
use self_evaluating_trading.Common.{ℕ, Bool, true, ◌&&◌, ◌||◌, ◌==◌, in_range}

-- the class `[0-9a-f]`
abbrev pub is_hex_digit : ℕ → Bool
is_hex_digit n = in_range 48 57 n || in_range 97 102 n

unfoldable pub all_hex : String → Bool
all_hex [] = true
all_hex (c ∷ s) = is_hex_digit (code c) && all_hex s

-- `_HEX64_RE.fullmatch`
unfoldable pub is_hex64 : String → Bool
is_hex64 s = (count s == 64) && all_hex s
