-- ===== src/Common/Texts.antt =====
-- What the program uses of Python's `str`: `isspace`, `strip` and the first of the `splitlines`.
use Prim.Native.String.{String, [], ◌∷◌}
use Prim.Native.Char.{code}
use Prim.Native.Nat.{ℕ}
use mathlib.Core.Bool.{Bool, true, ◌&&◌, ◌||◌}
use self_evaluating_trading.Common.Tests.{leb, ◌==◌, if◌then◌else◌}

abbrev pub in_range : ℕ → ℕ → ℕ → Bool
in_range a b n = leb a n && leb n b

-- `str.isspace` of a character, by its number
unfoldable pub is_space : ℕ → Bool
is_space n =
    in_range 9 13 n
    || in_range 28 32 n
    || (n == 133)
    || (n == 160)
    || (n == 5760)
    || in_range 8192 8202 n
    || in_range 8232 8233 n
    || (n == 8239)
    || (n == 8287)
    || (n == 12288)

-- `not s.strip()`: nothing is left once the white space is gone from both ends.
unfoldable pub is_blank : String → Bool
is_blank [] = true
is_blank (c ∷ s) = is_space (code c) && is_blank s

unfoldable pub lstrip : String → String
lstrip [] = []
lstrip (c ∷ s) = if is_space (code c) then lstrip s else c ∷ s

unfoldable pub rstrip : String → String
rstrip [] = []
rstrip (c ∷ s) = if is_blank (c ∷ s) then [] else c ∷ rstrip s

unfoldable pub strip : String → String
strip s = rstrip (lstrip s)

-- the ends of lines that `splitlines` knows
abbrev is_line_end : ℕ → Bool
is_line_end n = in_range 10 13 n || in_range 28 30 n || (n == 133) || in_range 8232 8233 n

unfoldable pub first_line : String → String
first_line [] = []
first_line (c ∷ s) = if is_line_end (code c) then [] else c ∷ first_line s
