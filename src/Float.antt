-- ===== src/Float.antt =====
-- What the program uses of Go's `float64` and of package math: an abstract type with the tests and
-- operations of IEEE 754, which a client takes as a parameter, and the laws of the standard that
-- the proofs use.
use recipe_reader.Common.{ℕ, ◌≡◌, Bool, true, false}
use recipe_reader.Text.{Text}

pub record Float (F : Type 0) : Type 0 where
  pub zero : F
  pub one : F
  -- x < y and x <= y; both fail at NaN
  pub lt : F → F → Bool
  pub le : F → F → Bool
  -- x == y
  pub eq : F → F → Bool
  pub is_nan : F → Bool
  pub add : F → F → F
  pub mul : F → F → F
  pub div : F → F → F
  -- math.Min
  pub min : F → F → F
  -- float64(n)
  pub of_int : ℕ → F
  -- the constant n / 100
  pub percent : ℕ → F
  -- the value of strconv.ParseFloat
  pub parse : Text → F

-- The numbers are linearly ordered, 0 and 1 are numbers, and 0 is below 1 and not below itself; math.Min gives one of its arguments
-- that is no more than the other; 0 is the sum of zeros and the
-- product of 0 and a constant.
pub record FloatLaws {F : Type 0} (fl : Float F) : Type 0 where
  pub zero_number : fl.is_nan fl.zero ≡ false
  pub one_number : fl.is_nan fl.one ≡ false
  pub zero-le-one : fl.le fl.zero fl.one ≡ true
  pub zero-lt-zero : fl.lt fl.zero fl.zero ≡ false
  pub one-lt-zero : fl.lt fl.one fl.zero ≡ false
  pub le_refl : (x : F) → fl.is_nan x ≡ false → fl.le x x ≡ true
  pub le_of_not_lt :
      (x y : F) → fl.is_nan x ≡ false → fl.is_nan y ≡ false → fl.lt x y ≡ false → fl.le y x ≡ true
  pub lt_of_not_le :
      (x y : F) → fl.is_nan x ≡ false → fl.is_nan y ≡ false → fl.le x y ≡ false → fl.lt y x ≡ true
  pub le_trans : (x y z : F) → fl.le x y ≡ true → fl.le y z ≡ true → fl.le x z ≡ true
  pub min_number :
      (x y : F) → fl.is_nan x ≡ false → fl.is_nan y ≡ false → fl.is_nan (fl.min x y) ≡ false
  pub min-le_left :
      (x y : F) → fl.is_nan x ≡ false → fl.is_nan y ≡ false → fl.le (fl.min x y) x ≡ true
  pub min-le_right :
      (x y : F) → fl.is_nan x ≡ false → fl.is_nan y ≡ false → fl.le (fl.min x y) y ≡ true
  pub half-zero : fl.mul (fl.percent 50) fl.zero ≡ fl.zero
  pub zero-add : fl.add fl.zero fl.zero ≡ fl.zero
  pub zero-mul : fl.mul fl.zero (fl.percent 75) ≡ fl.zero
