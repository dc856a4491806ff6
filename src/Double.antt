-- ===== src/Double.antt =====
-- The numbers of JavaScript. The model has no floating point: the type and the operations that the
-- sources use are the parameter `Double`, with the facts of IEEE 754 arithmetic that the theorems
-- need. Each law is about finite arguments; rounding keeps `≤`, and `x - y` is positive exactly when
-- `y < x`, since underflow is gradual.
use uni_llm.Prelude.{Bool, String, false, true, ℕ, ◌<◌, ◌≡◌, ◌≤◌}

pub record Double : Type 1 where
  pub Number : Type 0
  pub of_nat : ℕ → Number
  -- the literals 0.0001, 0.001 and 0.01
  pub ten_thousandth : Number
  pub hundredth : Number
  pub thousandth : Number
  pub add : Number → Number → Number
  pub sub : Number → Number → Number
  pub mul : Number → Number → Number
  pub div : Number → Number → Number
  pub max : Number → Number → Number
  pub lt : Number → Number → Bool
  pub le : Number → Number → Bool
  -- `Number(text)`, `x.toFixed(n)`, `x.toExponential(n)`
  pub parse : String → Number
  pub to_fixed : ℕ → Number → String
  pub to_exponential : ℕ → Number → String
  pub IsFinite : Number → Type 0
  pub of_nat-IsFinite : (n : ℕ) → n < 9_007_199_254_740_992 → IsFinite (of_nat n)
  pub thousandth-IsFinite : IsFinite thousandth
  pub thousandth-pos : lt (of_nat 0) thousandth ≡ true
  pub lt-of_nat : (m n : ℕ) → m < n → n < 9_007_199_254_740_992 → lt (of_nat m) (of_nat n) ≡ true
  pub le-of_nat : (m n : ℕ) → m ≤ n → le (of_nat m) (of_nat n) ≡ true
  pub le_refl : (a : Number) → IsFinite a → le a a ≡ true
  pub le_trans : (a b c : Number) → le a b ≡ true → le b c ≡ true → le a c ≡ true
  pub lt-le_trans : (a b c : Number) → lt a b ≡ true → le b c ≡ true → lt a c ≡ true
  pub sub_pos :
      (a b : Number) → IsFinite a → IsFinite b → lt (of_nat 0) (sub a b) ≡ true → le b a ≡ true
  pub sub_not_pos :
      (a b : Number) → IsFinite a → IsFinite b → lt (of_nat 0) (sub a b) ≡ false → le a b ≡ true
  pub max-IsFinite : (a b : Number) → IsFinite a → IsFinite b → IsFinite (max a b)
  pub le-max_left : (a b : Number) → IsFinite a → IsFinite b → le a (max a b) ≡ true
  pub le-max_right : (a b : Number) → IsFinite a → IsFinite b → le b (max a b) ≡ true
  pub max-le :
      (a b c : Number)
      → IsFinite a
      → IsFinite b
      → le a c ≡ true
      → le b c ≡ true
      → le (max a b) c ≡ true
  -- A share of a positive whole, as a percentage.
  pub percent_bound :
      (a b : Number)
      → IsFinite a
      → IsFinite b
      → lt (of_nat 0) b ≡ true
      → le a b ≡ true
      → le (mul (div a b) (of_nat 100)) (of_nat 100) ≡ true
  pub percent-IsFinite :
      (a b : Number)
      → IsFinite a
      → IsFinite b
      → lt (of_nat 0) b ≡ true
      → le a b ≡ true
      → le (of_nat 0) a ≡ true
      → IsFinite (mul (div a b) (of_nat 100))
