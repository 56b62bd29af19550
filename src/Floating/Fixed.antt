-- ===== src/Floating/Fixed.antt =====
-- Fixed-point numbers with twelve decimals: a concrete instance at which the interface's laws hold
-- and the model runs. It has no NaN and rounds towards zero.
mod Int
pub use Int.{ℤ, pos, negsuc}
use native.Mathlib.Nat.{mul-le-mul, le_refl, le_trans, div-mul-le_self, le-div_iff_mul-le}
use self_evaluating_trading.Common.{
  ℕ, zero, suc, ◌+◌, ◌-◌, ◌*◌, ◌/◌, ◌^◌, ◌≤◌, ◌≡◌, Bool, true, not, ◌&&◌, ◌||◌, [], ◌∷◌, arith, leb,
  ◌==◌, if◌then◌else◌, foldl,
}
use self_evaluating_trading.Floating.{Floating, IsOrdered}
use Int.{pos_part, neg_part, is_negative, of_size, ◌+ℤ◌, ◌-ℤ◌, ltb_ℤ, leb_ℤ}

abbrev scale : ℕ
scale = 10 ^ 12

abbrev size : ℤ → ℕ
size a = pos_part a + neg_part a

abbrev differ : ℤ → ℤ → Bool
differ a b = if is_negative a then not (is_negative b) else is_negative b

-- The whole square root, bit by bit.
unfoldable pub root_from : ℕ → ℕ → ℕ → ℕ
root_from zero n r = r
root_from (suc k) n r = root_from k n (if leb ((r + 2 ^ k) * (r + 2 ^ k)) n then r + 2 ^ k else r)

abbrev pub Fixed : Type 0
Fixed = ℤ

instance abbrev pub fixed_floating : Floating Fixed
fixed_floating = record {
  lit = λ m k. pos (m * scale / 10 ^ k);
  add = ◌+ℤ◌;
  sub = ◌-ℤ◌;
  mul = λ a b. of_size (differ a b) (size a * size b / scale);
  div = λ a b. of_size (differ a b) (size a * scale / size b);
  neg = λ a. pos 0 -ℤ a;
  abs = λ a. pos (size a);
  square = λ a. pos (size a * size a / scale);
  root = λ a. pos (root_from 64 (size a * scale) 0);
  lt = ltb_ℤ;
  le = leb_ℤ;
  eq = λ a b. leb_ℤ a b && leb_ℤ b a;
  sum = foldl ◌+ℤ◌ (pos 0);
}

div_mono : (k : ℕ) {m n : ℕ} → m ≤ n → m / k ≤ n / k
div_mono zero h = omega arith
div_mono (suc k) {m} {n} h =
    (le-div_iff_mul-le (omega arith)).1 (le_trans (div-mul-le_self m (suc k)) h)

lit_le_lem :
    (m n k : ℕ) → m ≤ n → leb_ℤ (pos (m * scale / 10 ^ k)) (pos (n * scale / 10 ^ k)) ≡ true
lit_le_lem m n k h =
    ground (arith, div_mono (10 ^ k) {m = m * scale} {n = n * scale} (mul-le-mul h (le_refl scale)))

pub Fixed-IsOrdered : IsOrdered Fixed
Fixed-IsOrdered = record {
  le_trans = λ x y z p q. ground arith;
  num_of_le = λ x y p. ground arith;
  le_of_lt = λ x y p. ground arith;
  not_le_of_lt = λ x y p. ground arith;
  le_of_not_lt = λ x y p q r. ground arith;
  le_of_eq = λ x y p. ground arith;
  eq_refl = λ x p. ground arith;
  lit_le = lit_le_lem;
}
