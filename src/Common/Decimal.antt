-- ===== src/Common/Decimal.antt =====
-- Numbers in decimal, as `String(n)` and a template literal print a whole number below 10^21, and as
-- `Number.parseInt(raw, 10)` reads a text of digits.
use Prim.Native.Nat.{ℕ, zero, suc, ◌+◌, ◌-◌, ◌*◌, ◌/◌, ◌%◌, ◌≤◌, ◌<◌}
use mathlib.Core.Path.{◌≡◌, refl, sym, ap, ◌∙◌}
use mathlib.Core.Logic.{inl, inr}
use mathlib.Core.Bool.{Bool, true, false, ◌&&◌}
use mathlib.Core.List.{[], ◌∷◌, ◌++◌, append_assoc, append-nil}
use native.Mathlib.Omega.{arith}
use clawclub_server.Common.Tests.{ltb, leb, ltb→lt, Bool-cases}
use clawclub_server.Common.Texts.{Text, AllOf, AllOf-append}

-- The digits of `n`; `fuel` bounds their number.
unfoldable pub digits : (fuel n : ℕ) → Text
digits zero n = (48 + n) ∷ []
digits (suc fuel) n = elim (ltb n 10) [
  | true ↦ (48 + n) ∷ []
  | false ↦ digits fuel (n / 10) ++ (48 + n % 10) ∷ []
]

unfoldable pub print_decimal : (n : ℕ) → Text
unfolding digits
print_decimal n = digits n n

unfoldable pub is_digit : ℕ → Bool
is_digit c = leb 48 c && leb c 57

-- The value of digits that follow the number `acc`.
unfoldable pub value_from : (acc : ℕ) (text : Text) → ℕ
value_from acc [] = acc
value_from acc (c ∷ text) = value_from (10 * acc + (c - 48)) text

-- `0|[1-9]\d*`
unfoldable pub is_canonical : Text → Bool
is_canonical [] = false
is_canonical (c ∷ []) = leb 48 c && leb c 57
is_canonical (c ∷ d ∷ text) = leb 49 c && leb c 57

digits_small : (fuel n : ℕ) → n < 10 → digits fuel n ≡ (48 + n) ∷ []
unfolding digits
digits_small zero n h = refl
digits_small (suc fuel) n h = ground arith

digits_large :
    (fuel n : ℕ) → 10 ≤ n → digits (suc fuel) n ≡ digits fuel (n / 10) ++ (48 + n % 10) ∷ []
unfolding digits
digits_large fuel n h = ground arith

digits_fuel : (f g n : ℕ) → n ≤ f → n ≤ g → digits f n ≡ digits g n
digits_fuel zero g n a b = digits_small zero n (omega arith) ∙ sym (digits_small g n (omega arith))
digits_fuel (suc f) zero n a b =
    digits_small (suc f) n (omega arith) ∙ sym (digits_small zero n (omega arith))
digits_fuel (suc f) (suc g) n a b = elim (Bool-cases (ltb n 10)) [
  | inl small ↦
      digits_small (suc f) n (ltb→lt n 10 small) ∙ sym (digits_small (suc g) n (ltb→lt n 10 small))
  | inr large ↦
      rw
        (
          digits_large f n (ground arith),
          digits_large g n (ground arith),
          digits_fuel f g (n / 10) (ground arith) (ground arith),
        )
        refl
]

print_decimal_step :
    (n d : ℕ) → 0 < n → d < 10 → print_decimal (10 * n + d) ≡ print_decimal n ++ (48 + d) ∷ []
unfolding print_decimal
print_decimal_step n d pos small =
    let quotient : (10 * n + d) / 10 ≡ n = omega arith in
    let remainder : (10 * n + d) % 10 ≡ d = omega arith in
    digits_fuel (10 * n + d) (suc (10 * n + d)) (10 * n + d) (omega arith) (omega arith)
    ∙ rw
        (
          digits_large (10 * n + d) (10 * n + d) (omega arith),
          quotient,
          remainder,
          digits_fuel (10 * n + d) n n (omega arith) (omega arith),
        )
        refl

value_from-snoc :
    (acc : ℕ) (s : Text) (c : ℕ) → value_from acc (s ++ c ∷ []) ≡ 10 * value_from acc s + (c - 48)
unfolding value_from
value_from-snoc acc [] c = refl
value_from-snoc acc (d ∷ s) c = value_from-snoc (10 * acc + (d - 48)) s c

value_from_small : (n : ℕ) → value_from 0 ((48 + n) ∷ []) ≡ n
unfolding value_from
value_from_small n = omega arith

value_from-digits : (f n : ℕ) → n ≤ f → value_from 0 (digits f n) ≡ n
value_from-digits zero n h = rw (digits_small zero n (omega arith)) (value_from_small n)
value_from-digits (suc f) n h = elim (Bool-cases (ltb n 10)) [
  | inl small ↦ rw (digits_small (suc f) n (ltb→lt n 10 small)) (value_from_small n)
  | inr large ↦
      rw
        (
          digits_large f n (ground arith),
          value_from-snoc 0 (digits f (n / 10)) (48 + n % 10),
          value_from-digits f (n / 10) (ground arith),
        )
        (omega arith)
]

pub value_from-print_decimal : (n : ℕ) → value_from 0 (print_decimal n) ≡ n
unfolding print_decimal
value_from-print_decimal n = value_from-digits n n (omega arith)

digit-IsDigit : (n : ℕ) → n < 10 → is_digit (48 + n) ≡ true
unfolding is_digit
digit-IsDigit n h = ground arith

digits-AllOf : (f n : ℕ) → n ≤ f → AllOf is_digit (digits f n)
digits-AllOf zero n h = rw (digits_small zero n (omega arith)) (digit-IsDigit n (omega arith), tt)
digits-AllOf (suc f) n h = elim (Bool-cases (ltb n 10)) [
  | inl small ↦
      rw (digits_small (suc f) n (ltb→lt n 10 small)) (digit-IsDigit n (ltb→lt n 10 small), tt)
  | inr large ↦ rw (digits_large f n (ground arith)) (
      AllOf-append is_digit (digits f (n / 10)) ((48 + n % 10) ∷ [])
        (digits-AllOf f (n / 10) (ground arith)) (digit-IsDigit (n % 10) (omega arith), tt))
]

pub print_decimal-AllOf : (n : ℕ) → AllOf is_digit (print_decimal n)
unfolding print_decimal
print_decimal-AllOf n = digits-AllOf n n (omega arith)

-- The first digit is none or no zero.
is_leading : Text → Bool
is_leading [] = false
is_leading (c ∷ s) = leb 49 c && leb c 57

is_leading-append : (s t : Text) → is_leading s ≡ true → is_leading (s ++ t) ≡ true
unfolding is_leading
is_leading-append [] t h = cc
is_leading-append (c ∷ s) t h = h

is_leading→is_canonical : (s : Text) → is_leading s ≡ true → is_canonical s ≡ true
unfolding is_leading is_canonical
is_leading→is_canonical [] h = h
is_leading→is_canonical (c ∷ []) h = ground arith
is_leading→is_canonical (c ∷ d ∷ s) h = h

is_leading_digit : (n : ℕ) → 0 < n → n < 10 → is_leading ((48 + n) ∷ []) ≡ true
unfolding is_leading
is_leading_digit n pos h = ground arith

is_leading-digits : (f n : ℕ) → n ≤ f → 0 < n → is_leading (digits f n) ≡ true
is_leading-digits zero n h pos = absurd (omega arith)
is_leading-digits (suc f) n h pos = elim (Bool-cases (ltb n 10)) [
  | inl small ↦
      rw (digits_small (suc f) n (ltb→lt n 10 small)) (is_leading_digit n pos (ltb→lt n 10 small))
  | inr large ↦ rw (digits_large f n (ground arith)) (
      is_leading-append (digits f (n / 10)) _
        (is_leading-digits f (n / 10) (ground arith) (ground arith)))
]

pub is_canonical-print_decimal : (n : ℕ) → is_canonical (print_decimal n) ≡ true
unfolding print_decimal is_canonical digits
is_canonical-print_decimal zero = refl
is_canonical-print_decimal (suc n) =
    is_leading→is_canonical (digits (suc n) (suc n))
      (is_leading-digits (suc n) (suc n) (omega arith) (omega arith))

print_decimal-value_from :
    (acc : ℕ) (s : Text)
    → 0 < acc
    → AllOf is_digit s
    → print_decimal (value_from acc s) ≡ print_decimal acc ++ s
unfolding value_from is_digit
print_decimal-value_from acc [] pos h = sym (append-nil (print_decimal acc))
print_decimal-value_from acc (c ∷ s) pos (h, hs) =
    let char : 48 + (c - 48) ≡ c = ground arith in
    print_decimal-value_from (10 * acc + (c - 48)) s (omega arith) hs
    ∙ rw (print_decimal_step acc (c - 48) pos (ground arith), char)
        (append_assoc (print_decimal acc) (c ∷ []) s)

print_decimal_char : (c : ℕ) → 48 ≤ c → c ≤ 57 → print_decimal (10 * 0 + (c - 48)) ≡ c ∷ []
unfolding print_decimal
print_decimal_char c h k =
    let same : 10 * 0 + (c - 48) ≡ c - 48 = omega arith in
    let char : 48 + (c - 48) ≡ c = omega arith in
    rw (same, digits_small (c - 48) (c - 48) (omega arith)) (ap (λ (x : ℕ). x ∷ []) char)

-- A canonical text of digits is what is printed for its value.
pub print_decimal-canonical :
    (s : Text) → AllOf is_digit s → is_canonical s ≡ true → print_decimal (value_from 0 s) ≡ s
unfolding value_from is_canonical is_digit
print_decimal-canonical [] h canonical = cc
print_decimal-canonical (c ∷ []) (h, _) canonical =
    print_decimal_char c (ground arith) (ground arith)
print_decimal-canonical (c ∷ d ∷ s) (h, hs) canonical =
    print_decimal-value_from (10 * 0 + (c - 48)) (d ∷ s) (ground arith) hs
    ∙ ap (λ (x : Text). x ++ d ∷ s) (print_decimal_char c (ground arith) (ground arith))
