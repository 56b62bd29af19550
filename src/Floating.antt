-- ===== src/Floating.antt =====
-- Python's `float`, an IEEE 754 double, as an interface: the operations that the program applies
-- and the documented behaviour of comparison that its guards rely on. A float that is not `<=`
-- itself is NaN, so `IsNum x` says that x is a number. The interpreter and its `float` are no code of
-- the repository, so every module that computes prices takes this interface as a parameter.
pub mod Fixed
use self_evaluating_trading.Common.{
  ℕ, ◌≡◌, ◌≤◌, Bool, true, false, List, Option, none, some, if◌then◌else◌,
}

pub record Floating (F : Type 0) : Type 0 where
  -- `lit m k` is the double nearest to m / 10 ^ k
  pub lit : ℕ → ℕ → F
  pub add : F → F → F
  pub sub : F → F → F
  pub mul : F → F → F
  -- the quotient; the program divides only where the divisor is not zero, unless it says otherwise
  pub div : F → F → F
  pub neg : F → F
  pub abs : F → F
  -- x ** 2 and x ** 0.5
  pub square : F → F
  pub root : F → F
  pub lt : F → F → Bool
  pub le : F → F → Bool
  pub eq : F → F → Bool
  -- the built-in `sum`
  pub sum : List F → F

module _ {F : Type 0} ⦃fl : Floating F⦄ where
  -- an int where a float is expected
  abbrev pub of_int : ℕ → F
  of_int n = fl.lit n 0

  -- `max(a, b)` keeps its first argument unless the second is greater; `min(a, b)` likewise.
  abbrev pub max : F → F → F
  max a b = if fl.lt a b then b else a

  abbrev pub min : F → F → F
  min a b = if fl.lt b a then b else a

  -- `x or 0.0`: a float is false if it is zero
  abbrev pub or_zero : Option F → F
  or_zero none = fl.lit 0 0
  or_zero (some x) = if fl.eq x (fl.lit 0 0) then fl.lit 0 0 else x

  abbrev pub IsNum : F → Type 0
  IsNum x = fl.le x x ≡ true

-- Comparison, as IEEE 754 has it for all values; a law that fails for NaN asks for numbers.
pub record IsOrdered (F : Type 0) ⦃fl : Floating F⦄ : Type 0 where
  pub le_trans : (x y z : F) → fl.le x y ≡ true → fl.le y z ≡ true → fl.le x z ≡ true
  pub num_of_le : (x y : F) → fl.le x y ≡ true → IsNum x × IsNum y
  pub le_of_lt : (x y : F) → fl.lt x y ≡ true → fl.le x y ≡ true
  pub not_le_of_lt : (x y : F) → fl.lt x y ≡ true → fl.le y x ≡ false
  pub le_of_not_lt : (x y : F) → IsNum x → IsNum y → fl.lt x y ≡ false → fl.le y x ≡ true
  pub le_of_eq : (x y : F) → fl.eq x y ≡ true → fl.le x y ≡ true
  pub eq_refl : (x : F) → IsNum x → fl.eq x x ≡ true
  pub lit_le : (m n k : ℕ) → m ≤ n → fl.le (fl.lit m k) (fl.lit n k) ≡ true
