-- ===== src/Decimal.antt =====
-- Decimal notation of a `u64`, as the Rust standard library writes (`to_string`) and reads it
-- (`str::parse::<u64>`), for texts of digits only.
use mathlib.Core.List.{reverse-cons}
use native.Mathlib.Nat.{pow-suc}
use home_builder_pay.Base.{
  ℕ, zero, suc, ◌+◌, ◌-◌, ◌*◌, ◌/◌, ◌%◌, ◌^◌, ◌<◌, ◌≡◌, refl, ap, ◌∙◌, Bool, true, false, ◌&&◌,
  Option, none, some, [], ◌∷◌, ◌++◌, reverse, arith, ltb, leb, ◌==◌, if◌then◌else◌, Text, All,
  All-reverse, is_empty, Bool-cases, inl, inr,
}

-- `char::is_ascii_digit`.
unfoldable pub is_digit : ℕ → Bool
is_digit c = leb 48 c && leb c 57

-- The digits of `n`, last digit first; a `u64` has twenty at most.
unfoldable pub rev_digits : ℕ → ℕ → Text
rev_digits zero n = []
rev_digits (suc f) n =
    let rest = rev_digits f (n / 10) in (48 + n % 10) ∷ (if n / 10 == 0 then [] else rest)

unfoldable pub decimal : ℕ → Text
unfolding rev_digits
decimal n = reverse (rev_digits 20 n)

unfoldable pub value : ℕ → Text → ℕ
value acc [] = acc
value acc (c ∷ s) = value (acc * 10 + (c - 48)) s

-- `parse::<u64>` of a text of digits: no digit at all and a value past 64 bits are errors.
unfoldable pub parse_u64 : Text → Option ℕ
unfolding value
parse_u64 s =
    if is_empty s then none else if ltb (value 0 s) (2 ^ 64) then some (value 0 s) else none

abbrev pub AllDigits : Text → Type 0
AllDigits = All (λ c. is_digit c ≡ true)

pub value-append :
    (acc : ℕ) (s : Text) (c : ℕ) → value acc (s ++ c ∷ []) ≡ value acc s * 10 + (c - 48)
unfolding value
value-append acc [] c = refl
value-append acc (d ∷ s) c = value-append (acc * 10 + (d - 48)) s c

pub rev_digits-AllDigits : (f n : ℕ) → AllDigits (rev_digits f n)
unfolding rev_digits is_digit
rev_digits-AllDigits zero n = tt
rev_digits-AllDigits (suc f) n = ground (arith, rev_digits-AllDigits f (n / 10))

value-reverse-cons :
    (c : ℕ) (s : Text) → value 0 (reverse (c ∷ s)) ≡ value 0 (reverse s) * 10 + (c - 48)
value-reverse-cons c s = ap (value 0) (reverse-cons c s) ∙ value-append 0 (reverse s) c

-- Reading the digits back gives the number.
pub value-reverse-rev_digits : (f n : ℕ) → n < 10 ^ f → value 0 (reverse (rev_digits f n)) ≡ n
unfolding rev_digits value
value-reverse-rev_digits zero n h = omega arith
value-reverse-rev_digits (suc f) n h = elim (Bool-cases (n / 10 == 0)) [
  | inl small ↦ rw small (ground arith)
  | inr more ↦ rw more (
      omega (
        arith,
        value-reverse-cons (48 + n % 10) (rev_digits f (n / 10)),
        value-reverse-rev_digits f (n / 10) (omega (arith, pow-suc 10 f)),
      ))
]

pub rev_digits_cons : (f n : ℕ) → (c : ℕ) × (s : Text) × (rev_digits (suc f) n ≡ c ∷ s)
unfolding rev_digits
rev_digits_cons f n = (48 + n % 10, _, refl)

pub reverse-ne-nil : (c : ℕ) (s : Text) → is_empty (reverse (c ∷ s)) ≡ false
reverse-ne-nil c s = rw reverse-cons (append-ne-nil (reverse s) c)
  where
    append-ne-nil : (t : Text) (d : ℕ) → is_empty (t ++ d ∷ []) ≡ false
    append-ne-nil [] d = refl
    append-ne-nil (x ∷ t) d = refl

pub decimal-not-empty : (n : ℕ) → is_empty (decimal n) ≡ false
unfolding decimal rev_digits
decimal-not-empty n =
    reverse-ne-nil (48 + n % 10) (if n / 10 == 0 then [] else rev_digits 19 (n / 10))

pub decimal-AllDigits : (n : ℕ) → AllDigits (decimal n)
unfolding decimal
decimal-AllDigits n =
    All-reverse (λ c. is_digit c ≡ true) (rev_digits 20 n) (rev_digits-AllDigits 20 n)

-- A `u64` is read back from its decimal notation.
pub parse_u64-decimal : (n : ℕ) → n < 2 ^ 64 → parse_u64 (decimal n) ≡ some n
unfolding parse_u64
parse_u64-decimal n h = ground (arith, decimal-not-empty n, value_decimal)
  where
    value_decimal : value 0 (decimal n) ≡ n
    value_decimal = unfold decimal in value-reverse-rev_digits 20 n (omega arith)
