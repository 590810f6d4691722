-- ===== src/Float.antt =====
-- Go's `float64`, with what the server takes of the packages math and strconv: a parameter of the
-- model. `IsIeee` holds the laws of IEEE 754 that some theorems rest on; NaN is the value that is
-- not `<=` itself, and the order laws are stated away from it.
pub mod Fixed
use botbtc.Prelude.{ℕ, ℤ, ◌≡◌, Bool, true, not, ◌⊎◌, String}

pub record Float64 (F : Type 0) : Type 0 where
  -- The constant m · 10^-e, such as `literal 5 4` for 0.0005.
  pub literal : ℕ → ℕ → F
  -- `float64(n)`
  pub of_int : ℤ → F
  pub add : F → F → F
  pub sub : F → F → F
  pub mul : F → F → F
  pub div : F → F → F
  pub neg : F → F
  pub lt : F → F → Bool
  pub le : F → F → Bool
  pub eq : F → F → Bool
  -- math.Abs, math.Floor, math.Round, math.Pow10
  pub abs : F → F
  pub floor : F → F
  pub round : F → F
  pub pow10 : ℤ → F
  -- strconv.FormatFloat(v, 'f', -1, 64)
  pub format : F → String

module _ {F : Type 0} ⦃fl : Float64 F⦄ where
  abbrev pub zero_f : F
  zero_f = fl.literal 0 0

  infix 4 ◌≼◌
  abbrev pub ◌≼◌ : F → F → Type 0
  x ≼ y = fl.le x y ≡ true

  abbrev pub IsNumber : F → Type 0
  IsNumber x = x ≼ x

pub record IsIeee (F : Type 0) ⦃fl : Float64 F⦄ : Type 0 where
  pub zero_number : IsNumber {F = F} zero_f
  pub number_of_le : (x y : F) → x ≼ y → IsNumber x × IsNumber y
  pub number_of_lt : (x y : F) → fl.lt x y ≡ true → IsNumber x × IsNumber y
  pub le_trans : (x y z : F) → x ≼ y → y ≼ z → x ≼ z
  pub le_total : (x y : F) → IsNumber x → IsNumber y → (x ≼ y) ⊎ (y ≼ x)
  pub lt-eq-not-le : (x y : F) → IsNumber x → IsNumber y → fl.lt x y ≡ not (fl.le y x)
  pub sub-le_self : (x y : F) → zero_f ≼ y → IsNumber (fl.sub x y) → fl.sub x y ≼ x
  pub le-add_self : (x y : F) → zero_f ≼ y → IsNumber (fl.add x y) → x ≼ fl.add x y
