-- ===== src/Precio/Reading.antt =====
-- precio.rs `leer_usd`: what it does with a text of digits and separators, step by step.
use mathlib.Core.List.{reverse-append, reverse-reverse}
use home_builder_pay.Base.{
  ℕ, ◌≤◌, ◌≡◌, refl, sym, ap, ◌∙◌, Bool, true, false, ◌||◌, not, none, some, Option, length, [],
  ◌∷◌, ◌++◌, reverse, arith, Text, chars, All, All-reverse, filter, is_empty, is_whitespace, all,
}
use home_builder_pay.Decimal.{AllDigits, is_digit, reverse-ne-nil}
use home_builder_pay.Precio.{
  leer_usd, leer_limpio, partes, cortar, trim, drop_while, es_prefijo, es_separador,
}

-- A digit or a separator.
abbrev pub es_cifra : ℕ → Bool
es_cifra c = is_digit c || es_separador c

abbrev pub AllCifras : Text → Type 0
AllCifras = All (λ c. es_cifra c ≡ true)

pub cifra-no_blanco : (c : ℕ) → es_cifra c ≡ true → is_whitespace c ≡ false
unfolding is_digit is_whitespace
cifra-no_blanco c h = ground arith

pub cifra-no_prefijo : (c : ℕ) → es_cifra c ≡ true → es_prefijo c ≡ false
unfolding is_digit is_whitespace
cifra-no_prefijo c h = ground arith

pub AllDigits-AllCifras : (s : Text) → AllDigits s → AllCifras s
AllDigits-AllCifras [] h = tt
AllDigits-AllCifras (c ∷ s) h = (ground arith, AllDigits-AllCifras s h.1)

pub drop_while-prefijo : (s : Text) → AllCifras s → drop_while es_prefijo s ≡ s
unfolding drop_while
drop_while-prefijo [] h = refl
drop_while-prefijo (c ∷ s) h = rw (cifra-no_prefijo c h.0)

pub filter-cifras : (s : Text) → AllCifras s → filter (λ c. not (is_whitespace c)) s ≡ s
filter-cifras [] h = refl
filter-cifras (c ∷ s) h = rw (cifra-no_blanco c h.0) (ap (◌∷◌ c) (filter-cifras s h.1))

pub all-cifras : (s : Text) → AllCifras s → all es_cifra s ≡ true
all-cifras [] h = refl
all-cifras (c ∷ s) h = rw (h.0) (all-cifras s h.1)

pub filter-digits : (s : Text) → AllDigits s → filter is_digit s ≡ s
filter-digits [] h = refl
filter-digits (c ∷ s) h = rw (h.0) (ap (◌∷◌ c) (filter-digits s h.1))

pub drop_while-false :
    (p : ℕ → Bool) (c : ℕ) (s : Text) → p c ≡ false → drop_while p (c ∷ s) ≡ c ∷ s
unfolding drop_while
drop_while-false p c s h = rw h

-- A text that ends in a digit or a separator, and does not begin with white space, is not trimmed.
pub trim_self :
    (c : ℕ) (s : Text) (d : ℕ) (r : Text)
    → is_whitespace c ≡ false
    → is_whitespace d ≡ false
    → reverse (c ∷ s) ≡ d ∷ r
    → trim (c ∷ s) ≡ c ∷ s
unfolding trim
trim_self c s d r hc hd e =
    ap (λ t. reverse (drop_while is_whitespace (reverse t))) (drop_while-false is_whitespace c s hc)
    ∙ ap (λ t. reverse (drop_while is_whitespace t)) e
    ∙ ap reverse (drop_while-false is_whitespace d r hd)
    ∙ ap reverse (sym e)
    ∙ reverse-reverse (c ∷ s)

pub last_cifra :
    (t : Text)
    → is_empty t ≡ false
    → AllCifras t
    → (d : ℕ) × (r : Text) × (reverse t ≡ d ∷ r) × (es_cifra d ≡ true)
last_cifra [] ht h = cc
last_cifra (c ∷ s) ht h =
    split (reverse (c ∷ s)) (reverse-ne-nil c s) (All-reverse (λ x. es_cifra x ≡ true) (c ∷ s) h)
  where
    split :
        (r : Text)
        → is_empty r ≡ false
        → AllCifras r
        → (d : ℕ) × (r' : Text) × (r ≡ d ∷ r') × (es_cifra d ≡ true)
    split [] e a = cc
    split (d ∷ r) e a = (d, r, refl, a.0)

-- Reading a text of digits and separators skips the trimming.
pub leer_usd-cifras : (t : Text) → is_empty t ≡ false → AllCifras t → leer_usd t ≡ leer_limpio t
unfolding leer_usd
leer_usd-cifras [] ht h = cc
leer_usd-cifras (c ∷ s) ht h =
    let (d, r, e, hd) = last_cifra (c ∷ s) ht h in
    rw (
      trim_self c s d r (cifra-no_blanco c h.0) (cifra-no_blanco d hd) e,
      drop_while-prefijo (c ∷ s) h,
      filter-cifras (c ∷ s) h,
    )

pub leer_usd-prefijo :
    (t : Text) → is_empty t ≡ false → AllCifras t → leer_usd (chars "USD " ++ t) ≡ leer_limpio t
unfolding leer_usd is_whitespace drop_while
leer_usd-prefijo t ht h =
    ap (λ x. leer_limpio (filter (λ c. not (is_whitespace c)) (drop_while es_prefijo x))) trimmed
    ∙ ap (λ x. leer_limpio (filter (λ c. not (is_whitespace c)) x)) (drop_while-prefijo t h)
    ∙ ap leer_limpio (filter-cifras t h)
  where
    trimmed : trim (chars "USD " ++ t) ≡ chars "USD " ++ t
    trimmed =
        let (d, r, e, hd) = last_cifra t ht h in
        trim_self b'U' _ d (r ++ b' ' ∷ b'D' ∷ b'S' ∷ b'U' ∷ []) refl (cifra-no_blanco d hd)
          (reverse-append (chars "USD ") t ∙ ap (λ x. x ++ b' ' ∷ b'D' ∷ b'S' ∷ b'U' ∷ []) e)

-- No separator, or three characters or more behind the last one: no decimals.
abbrev pub SinCentavos : Option (Text × Text) → Type 0
SinCentavos none = Unit {0}
SinCentavos (some (dec, entero)) = 3 ≤ length dec

pub partes-SinCentavos :
    (t : Text) (o : Option (Text × Text))
    → cortar (reverse t) ≡ o
    → SinCentavos o
    → partes t ≡ (t, [])
unfolding partes
partes-SinCentavos t none e h = rw (e, partes)
partes-SinCentavos t (some (dec, entero)) e h = rw (e, partes) (ground arith)

-- Two digits after the last separator are the cents.
pub partes-centavos :
    (entero : Text) (sep a b : ℕ)
    → es_separador sep ≡ true
    → is_digit a ≡ true
    → is_digit b ≡ true
    → partes (entero ++ sep ∷ a ∷ b ∷ []) ≡ (entero, a ∷ b ∷ [])
unfolding partes cortar is_digit
partes-centavos entero sep a b hs ha hb =
    rw (cut, partes) (ap (λ x. (x, a ∷ b ∷ [])) (reverse-reverse entero))
  where
    cut : cortar (reverse (entero ++ sep ∷ a ∷ b ∷ [])) ≡ some (b ∷ a ∷ [], reverse entero)
    cut = rw (reverse-append entero (sep ∷ a ∷ b ∷ [])) (ground arith)
