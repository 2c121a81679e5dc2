-- ===== src/Precio/Dollars.antt =====
-- precio.rs `leer_usd` reads back what `usd_editable` and `fmt_usd` write.
use mathlib.Core.List.{reverse-reverse}
use home_builder_pay.Base.{
  ℕ, ◌+◌, ◌/◌, ◌%◌, ◌^◌, ◌<◌, ◌≡◌, refl, ap, ◌∙◌, inl, inr, Bool, true, false, none, some, ok,
  ok_or, Error, [], ◌∷◌, ◌++◌, reverse, arith, ◌==◌, Text, chars, All-append, All-reverse, filter,
  filter-reverse, is_empty, Bool-cases,
}
use home_builder_pay.Decimal.{
  AllDigits, is_digit, rev_digits, decimal, parse_u64, parse_u64-decimal, decimal-AllDigits,
  decimal-not-empty, rev_digits-AllDigits,
}
use home_builder_pay.Precio.{
  leer_usd, leer_limpio, fmt_usd, usd_editable, partes, cortar, agrupar, parse_entero, cons_parte,
  sumar_partes, es_separador, dos_cifras,
}
use home_builder_pay.Precio.Reading.{
  es_cifra, AllCifras, AllDigits-AllCifras, all-cifras, filter-digits, leer_usd-cifras,
  leer_usd-prefijo, SinCentavos, partes-SinCentavos, partes-centavos,
}

parse_entero-decimal : (n : ℕ) → n < 2 ^ 64 → parse_entero (decimal n) ≡ ok n
parse_entero-decimal n h =
    parse_entero-ok (decimal n) (decimal-not-empty n)
    ∙ ap (λ o. ok_or o Error.monto) (parse_u64-decimal n h)
  where
    parse_entero-ok :
        (s : Text) → is_empty s ≡ false → parse_entero s ≡ ok_or (parse_u64 s) Error.monto
    parse_entero-ok [] e = cc
    parse_entero-ok (c ∷ s) e = refl

-- Adding the two parts of an amount gives the amount back.
sumar_partes-decimal :
    (c : ℕ) → c < 2 ^ 64 → c % 100 ≡ 0 → sumar_partes (decimal (c / 100)) [] ≡ ok c
unfolding sumar_partes
sumar_partes-decimal c h e =
    rw (decimal-not-empty (c / 100), parse_entero-decimal (c / 100) (omega arith)) (ground arith)

sumar_partes-centavos :
    (c : ℕ) → c < 2 ^ 64 → sumar_partes (decimal (c / 100)) (dos_cifras (c % 100)) ≡ ok c
unfolding sumar_partes
sumar_partes-centavos c h =
    rw (decimal-not-empty (c / 100), parse_entero-decimal (c / 100) (omega arith)) (ground arith)

dos_cifras-AllDigits : (n : ℕ) → n < 100 → AllDigits (dos_cifras n)
unfolding is_digit
dos_cifras-AllDigits n h = ground arith

leer_limpio-partes :
    (t a b : Text)
    → is_empty t ≡ false
    → AllCifras t
    → partes t ≡ (a, b)
    → leer_limpio t ≡ sumar_partes (filter is_digit a) b
unfolding leer_limpio
leer_limpio-partes t a b ht hc hp =
    rw (ht, all-cifras t hc) (ap (λ x. sumar_partes (filter is_digit x.0) x.1) hp)

append-not-empty : (s : Text) (c : ℕ) (t : Text) → is_empty (s ++ c ∷ t) ≡ false
append-not-empty [] c t = refl
append-not-empty (x ∷ s) c t = refl

-- What `leer_limpio` makes of a whole part with separators and two digits of cents.
leer_limpio-centavos :
    (c sep : ℕ) (entero : Text)
    → c < 2 ^ 64
    → es_separador sep ≡ true
    → AllCifras entero
    → filter is_digit entero ≡ decimal (c / 100)
    → leer_limpio (entero ++ sep ∷ dos_cifras (c % 100)) ≡ ok c
leer_limpio-centavos c sep entero h hs he hf =
    leer_limpio-partes _ entero (dos_cifras (c % 100)) (append-not-empty entero sep _)
      (All-append _ entero (sep ∷ dos_cifras (c % 100)) he
        (ground arith, AllDigits-AllCifras (dos_cifras (c % 100)) cents))
      (partes-centavos entero sep _ _ hs cents.0 cents.1.0)
    ∙ ap (λ x. sumar_partes x (dos_cifras (c % 100))) hf
    ∙ sumar_partes-centavos c h
  where
    cents : AllDigits (dos_cifras (c % 100))
    cents = dos_cifras-AllDigits (c % 100) (omega arith)

leer_limpio-entero :
    (c : ℕ) (entero : Text)
    → c < 2 ^ 64
    → c % 100 ≡ 0
    → partes entero ≡ (entero, [])
    → AllCifras entero
    → filter is_digit entero ≡ decimal (c / 100)
    → leer_limpio entero ≡ ok c
leer_limpio-entero c [] h e hp he hf = absurd (cc (ap is_empty hf, decimal-not-empty (c / 100)))
leer_limpio-entero c (d ∷ s) h e hp he hf =
    leer_limpio-partes (d ∷ s) (d ∷ s) [] refl he hp
    ∙ ap (λ x. sumar_partes x []) hf
    ∙ sumar_partes-decimal c h e

agrupar-AllCifras :
    (sep i : ℕ) (ds : Text) → AllDigits ds → es_separador sep ≡ true → AllCifras (agrupar sep i ds)
unfolding agrupar
agrupar-AllCifras sep i [] h hs = tt
agrupar-AllCifras sep i (d ∷ ds) h hs = ground (arith, agrupar-AllCifras sep (i + 1) ds h.1 hs)

filter-agrupar :
    (sep i : ℕ) (ds : Text)
    → AllDigits ds
    → es_separador sep ≡ true
    → filter is_digit (agrupar sep i ds) ≡ ds
unfolding agrupar is_digit
filter-agrupar sep i [] h hs = refl
filter-agrupar sep i (d ∷ ds) h hs = ground (arith, filter-agrupar sep (i + 1) ds h.1 hs)

cortar-digit : (c : ℕ) (s : Text) → is_digit c ≡ true → cortar (c ∷ s) ≡ cons_parte c (cortar s)
unfolding cortar is_digit
cortar-digit c s h = ground arith

cortar-digits : (s : Text) → AllDigits s → cortar s ≡ none
cortar-digits [] h = unfold cortar in refl
cortar-digits (c ∷ s) h = cortar-digit c s h.0 ∙ ap (cons_parte c) (cortar-digits s h.1)

-- A separator of thousands has three digits behind it, so it is never taken for the decimal one.
agrupar-SinCentavos :
    (sep : ℕ) (ds : Text)
    → AllDigits ds
    → es_separador sep ≡ true
    → SinCentavos (cortar (agrupar sep 0 ds))
unfolding agrupar
agrupar-SinCentavos sep (a ∷ b ∷ c ∷ d ∷ r) h hs =
    rw (cortar-digit a _ h.0, cortar-digit b _ h.1.0, cortar-digit c _ h.1.1.0, separator)
      (omega arith)
  where
    separator : (s : Text) → cortar (sep ∷ s) ≡ some ([], s)
    separator s = unfold cortar in rw hs
agrupar-SinCentavos sep [] h hs = rw (cortar-digits [] h) tt
agrupar-SinCentavos sep (a ∷ []) h hs = rw (cortar-digits (a ∷ []) h) tt
agrupar-SinCentavos sep (a ∷ b ∷ []) h hs = rw (cortar-digits (a ∷ b ∷ []) h) tt
agrupar-SinCentavos sep (a ∷ b ∷ c ∷ []) h hs = rw (cortar-digits (a ∷ b ∷ c ∷ []) h) tt

-- The whole part as `fmt_usd` writes it.
abbrev agrupado : ℕ → ℕ → Text
agrupado sep n = reverse (agrupar sep 0 (rev_digits 20 n))

module _ (sep n : ℕ) (hs : es_separador sep ≡ true) where
  agrupado-AllCifras : AllCifras (agrupado sep n)
  agrupado-AllCifras =
      All-reverse (λ c. es_cifra c ≡ true) (agrupar sep 0 (rev_digits 20 n))
        (agrupar-AllCifras sep 0 (rev_digits 20 n) (rev_digits-AllDigits 20 n) hs)

  filter-agrupado : filter is_digit (agrupado sep n) ≡ decimal n
  unfolding decimal
  filter-agrupado =
      filter-reverse is_digit (agrupar sep 0 (rev_digits 20 n))
      ∙ ap reverse (filter-agrupar sep 0 (rev_digits 20 n) (rev_digits-AllDigits 20 n) hs)

  agrupado-not-empty : is_empty (agrupado sep n) ≡ false
  agrupado-not-empty = go (agrupado sep n) filter-agrupado
    where
      go : (t : Text) → filter is_digit t ≡ decimal n → is_empty t ≡ false
      go [] e = cc (decimal-not-empty n)
      go (c ∷ t) e = refl

  partes-agrupado : partes (agrupado sep n) ≡ (agrupado sep n, [])
  partes-agrupado =
      partes-SinCentavos (agrupado sep n) (cortar (agrupar sep 0 (rev_digits 20 n)))
        (ap cortar (reverse-reverse (agrupar sep 0 (rev_digits 20 n))))
        (agrupar-SinCentavos sep (rev_digits 20 n) (rev_digits-AllDigits 20 n) hs)

decimal-AllCifras : (n : ℕ) → AllCifras (decimal n)
decimal-AllCifras n = AllDigits-AllCifras (decimal n) (decimal-AllDigits n)

centavos-AllCifras :
    (sep c : ℕ) (entero : Text)
    → es_separador sep ≡ true
    → AllCifras entero
    → AllCifras (entero ++ sep ∷ dos_cifras (c % 100))
centavos-AllCifras sep c entero hs he =
    All-append (λ x. es_cifra x ≡ true) entero (sep ∷ dos_cifras (c % 100)) he
      (
        ground arith,
        AllDigits-AllCifras (dos_cifras (c % 100)) (dos_cifras-AllDigits (c % 100) (omega arith)),
      )

-- Every amount in cents that fits in 64 bits is read back from the text that the editable field
-- shows for it.
pub leer_usd-usd_editable : (c : ℕ) → c < 2 ^ 64 → leer_usd (usd_editable c) ≡ ok c
unfolding usd_editable
leer_usd-usd_editable c h = elim (Bool-cases (c % 100 == 0)) [
  | inl e ↦ rw e (
      leer_usd-cifras (decimal (c / 100)) (decimal-not-empty (c / 100))
        (decimal-AllCifras (c / 100))
      ∙ leer_limpio-entero c (decimal (c / 100)) h (ground arith)
          (partes-SinCentavos (decimal (c / 100)) none
            (cortar-digits (reverse (decimal (c / 100)))
              (All-reverse (λ x. is_digit x ≡ true) _ (decimal-AllDigits (c / 100))))
            tt)
          (decimal-AllCifras (c / 100))
          (filter-digits (decimal (c / 100)) (decimal-AllDigits (c / 100))))
  | inr e ↦ rw e (
      leer_usd-cifras (decimal (c / 100) ++ b'.' ∷ dos_cifras (c % 100))
        (append-not-empty (decimal (c / 100)) b'.' (dos_cifras (c % 100)))
        (centavos-AllCifras b'.' c (decimal (c / 100)) refl (decimal-AllCifras (c / 100)))
      ∙ leer_limpio-centavos c b'.' (decimal (c / 100)) h refl (decimal-AllCifras (c / 100))
          (filter-digits (decimal (c / 100)) (decimal-AllDigits (c / 100))))
]

module _ (mil c : ℕ) (h : c < 2 ^ 64) (hm : es_separador mil ≡ true) where
  leer_usd-agrupado_entero : c % 100 ≡ 0 → leer_usd (chars "USD " ++ agrupado mil (c / 100)) ≡ ok c
  leer_usd-agrupado_entero e =
      leer_usd-prefijo (agrupado mil (c / 100)) (agrupado-not-empty mil (c / 100) hm)
        (agrupado-AllCifras mil (c / 100) hm)
      ∙ leer_limpio-entero c (agrupado mil (c / 100)) h e (partes-agrupado mil (c / 100) hm)
          (agrupado-AllCifras mil (c / 100) hm) (filter-agrupado mil (c / 100) hm)

  leer_usd-agrupado_centavos :
      (dec : ℕ)
      → es_separador dec ≡ true
      → leer_usd (chars "USD " ++ (agrupado mil (c / 100) ++ dec ∷ dos_cifras (c % 100))) ≡ ok c
  leer_usd-agrupado_centavos dec hd =
      leer_usd-prefijo (agrupado mil (c / 100) ++ dec ∷ dos_cifras (c % 100))
        (append-not-empty (agrupado mil (c / 100)) dec (dos_cifras (c % 100)))
        (centavos-AllCifras dec c (agrupado mil (c / 100)) hd (agrupado-AllCifras mil (c / 100) hm))
      ∙ leer_limpio-centavos c dec (agrupado mil (c / 100)) h hd
          (agrupado-AllCifras mil (c / 100) hm) (filter-agrupado mil (c / 100) hm)

-- Every amount in cents that fits in 64 bits is read back from the text shown for it, in Spanish
-- (`USD 1.500,50`) and in English (`USD 1,500.50`).
pub leer_usd-fmt_usd : (c : ℕ) (es : Bool) → c < 2 ^ 64 → leer_usd (fmt_usd c es) ≡ ok c
unfolding fmt_usd
leer_usd-fmt_usd c true h = elim (Bool-cases (c % 100 == 0)) [
  | inl e ↦ rw e (leer_usd-agrupado_entero b'.' c h refl (ground arith))
  | inr e ↦ rw e (leer_usd-agrupado_centavos b'.' c h refl b',' refl)
]
leer_usd-fmt_usd c false h = elim (Bool-cases (c % 100 == 0)) [
  | inl e ↦ rw e (leer_usd-agrupado_entero b',' c h refl (ground arith))
  | inr e ↦ rw e (leer_usd-agrupado_centavos b',' c h refl b'.' refl)
]
