-- ===== src/Prelude/Decimal.antt =====
-- `String(n)` of a natural number, in decimal.
use Prim.Native.Nat.{ℕ, zero, suc, ◌/◌, ◌%◌, ◌<◌}
use Prim.Native.Char.{code}
use Prim.Native.String.{String, [], ◌∷◌}
use mathlib.Core.Path.{◌≡◌, refl, ap}
use mathlib.Core.Bool.{Bool, true, false, ◌&&◌}
use mathlib.Core.Logic.{inl, inr}
use native.Mathlib.Omega.{arith}
use text.Mathlib.TextLemmas.{nil-append, cons-append}
use uni_llm.Prelude.Tests.{Bool-cases, if◌then◌else◌, leb, ltb, ◌==◌}
use uni_llm.Prelude.Text.{◌<+>◌}

digit : ℕ → String
digit d =
    if d == 0
    then "0"
    else if d == 1
    then "1"
    else if d == 2
    then "2"
    else if d == 3
    then "3"
    else if d == 4
    then "4"
    else if d == 5
    then "5"
    else if d == 6
    then "6"
    else if d == 7
    then "7"
    else if d == 8
    then "8"
    else "9"

-- The fuel bounds the number of digits, which is at most the number plus one.
digits_of : ℕ → ℕ → String
digits_of zero n = ""
digits_of (suc f) n =
    let rest = digits_of f (n / 10) in if ltb n 10 then digit n else rest <+> digit (n % 10)

-- More fuel than the number itself changes nothing.
digits_of-enough : (f g n : ℕ) → n < f → n < g → digits_of f n ≡ digits_of g n
unfolding digits_of
digits_of-enough zero g n h k = absurd (omega arith)
digits_of-enough (suc f) zero n h k = absurd (omega arith)
digits_of-enough (suc f) (suc g) n h k = elim (Bool-cases (ltb n 10)) [
  | inl e ↦ rw e
  | inr e ↦
      rw e (
        ap (λ s. s <+> digit (n % 10))
          (digits_of-enough f g (n / 10) (ground arith) (ground arith)))
]

unfoldable pub show_nat : ℕ → String
unfolding digit digits_of
show_nat n = digits_of (suc n) n

-- Beyond one digit, the text of a number is that of its tenth, and its last digit.
show_nat-tenth : (n : ℕ) → ltb n 10 ≡ false → show_nat n ≡ show_nat (n / 10) <+> digit (n % 10)
unfolding show_nat
show_nat-tenth n e = rw e (
    ap (λ s. s <+> digit (n % 10))
      (digits_of-enough n (suc (n / 10)) (n / 10) (ground arith) (ground arith)))

-- Only the digits 0 to 9 stand in the text.
abbrev pub is_decimal : String → Bool
is_decimal [] = true
is_decimal (c ∷ s) = leb 48 (code c) && leb (code c) 57 && is_decimal s

is_decimal-append :
    (s t : String) → is_decimal s ≡ true → is_decimal t ≡ true → is_decimal (s <+> t) ≡ true
is_decimal-append [] t h k = rw nil-append k
is_decimal-append (c ∷ s) t h k = rw cons-append (ground (arith, is_decimal-append s t))

either-is_decimal :
    (b : Bool) (s t : String)
    → is_decimal s ≡ true
    → is_decimal t ≡ true
    → is_decimal (if b then s else t) ≡ true
either-is_decimal true s t h k = h
either-is_decimal false s t h k = k

digit-is_decimal : (d : ℕ) → is_decimal (digit d) ≡ true
unfolding digit
digit-is_decimal d = either-is_decimal (d == 0) "0" _ refl (
    either-is_decimal (d == 1) "1" _ refl (
      either-is_decimal (d == 2) "2" _ refl (
        either-is_decimal (d == 3) "3" _ refl (
          either-is_decimal (d == 4) "4" _ refl (
            either-is_decimal (d == 5) "5" _ refl (
              either-is_decimal (d == 6) "6" _ refl (
                either-is_decimal (d == 7) "7" _ refl
                  (either-is_decimal (d == 8) "8" _ refl refl))))))))

digits_of-is_decimal : (f n : ℕ) → is_decimal (digits_of f n) ≡ true
unfolding digits_of
digits_of-is_decimal zero n = refl
digits_of-is_decimal (suc f) n = elim (Bool-cases (ltb n 10)) [
  | inl small ↦ rw small (digit-is_decimal n)
  | inr large ↦ rw large (
      is_decimal-append (digits_of f (n / 10)) (digit (n % 10)) (digits_of-is_decimal f (n / 10))
        (digit-is_decimal (n % 10)))
]

pub show_nat-is_decimal : (n : ℕ) → is_decimal (show_nat n) ≡ true
unfolding show_nat
show_nat-is_decimal n = digits_of-is_decimal (suc n) n
