-- ===== src/Motor/Avisos/Vuelta.antt =====
-- What one wallet tells the other is read as it was meant.
use mathlib.Core.Option.{some-injective}
use home_builder_pay.Base.{
  ℕ, ◌^◌, ◌<◌, ◌≡◌, refl, ap, ◌∙◌, subst, inl, inr, Option-cases, true, false, none, some, [], ◌∷◌,
  ◌++◌, arith, ◌==◌, all, Text, is_empty, text_eq,
}
use home_builder_pay.Decimal.{
  is_digit, decimal, parse_u64, parse_u64-decimal, AllDigits, decimal-AllDigits,
}
use home_builder_pay.Motor.Bytes.{split_once, parse_usize}
use home_builder_pay.Motor.Avisos.{
  AvisoFondeo, codigo_aviso, aviso_del_otro, partir_aviso, poner_aviso, aviso_es_del_otro,
}

split_once-digits : (s t : Text) → AllDigits s → split_once 0x3a (s ++ 0x3a ∷ t) ≡ some (s, t)
unfolding split_once is_digit
split_once-digits [] t h = refl
split_once-digits (c ∷ s) t h = ground (arith, split_once-digits s t h.1)

all-digits : (s : Text) → AllDigits s → all is_digit s ≡ true
all-digits [] h = refl
all-digits (c ∷ s) h = ground (arith, all-digits s h.1)

parse_usize-digits : (s : Text) → AllDigits s → parse_usize s ≡ parse_u64 s
unfolding parse_usize
parse_usize-digits [] h = refl
parse_usize-digits (c ∷ s) h = ground (arith, all-digits (c ∷ s) h, no_mas)
  where
    no_mas : (c == 0x2b) ≡ false
    no_mas = unfold is_digit in ground (arith, h.0)

parse_usize-decimal : (i : ℕ) → i < 2 ^ 64 → parse_usize (decimal i) ≡ some i
parse_usize-decimal i h =
    rw (parse_usize-digits (decimal i) (decimal-AllDigits i)) (parse_u64-decimal i h)

pub partir_aviso-poner_aviso :
    (i : ℕ) (code : Text)
    → i < 2 ^ 64
    → is_empty code ≡ false
    → partir_aviso (poner_aviso i code) ≡ (some i, code)
unfolding partir_aviso poner_aviso
partir_aviso-poner_aviso i code h k =
    rw (split_once-digits (decimal i) code (decimal-AllDigits i))
      (rw (parse_usize-decimal i h) (rw k refl))

abbrev LlegaAviso : Text → Type 0
LlegaAviso code =
    (b : AvisoFondeo) × (aviso_del_otro code ≡ some b)
    × (aviso_es_del_otro b ≡ true)
    × (is_empty code ≡ false)

leido : (a : AvisoFondeo) {code : Text} → codigo_aviso a ≡ some code → LlegaAviso code
unfolding aviso_del_otro text_eq
leido AvisoFondeo.sin_saldo e =
    subst LlegaAviso (some-injective _ _ e) (AvisoFondeo.sin_saldo_otro, refl, refl, refl)
leido AvisoFondeo.trabadas e =
    subst LlegaAviso (some-injective _ _ e) (AvisoFondeo.trabadas_otro, refl, refl, refl)
leido AvisoFondeo.sin_semilla e =
    subst LlegaAviso (some-injective _ _ e) (AvisoFondeo.sin_semilla_otro, refl, refl, refl)
leido AvisoFondeo.sin_caja e =
    subst LlegaAviso (some-injective _ _ e) (AvisoFondeo.sin_caja_otro, refl, refl, refl)
leido AvisoFondeo.sin_saldo_otro e = cc
leido AvisoFondeo.trabadas_otro e = cc
leido AvisoFondeo.sin_semilla_otro e = cc
leido AvisoFondeo.sin_caja_otro e = cc

-- The notice that a wallet sends about an installment, whose number is below 2^64, is read by the other
-- wallet with that number, as a notice of the other's, which it does not send back.
pub aviso_llega :
    (i : ℕ) (a : AvisoFondeo) (code : Text)
    → i < 2 ^ 64
    → codigo_aviso a ≡ some code
    → (b : AvisoFondeo) × ((partir_aviso (poner_aviso i code)).0 ≡ some i)
      × (aviso_del_otro (partir_aviso (poner_aviso i code)).1 ≡ some b)
      × (codigo_aviso b ≡ none)
aviso_llega i a code h e =
    let (b, l, o, n) = leido a e in
    let v = partir_aviso-poner_aviso i code h n in
    (b, ap (λ x. x.0) v, ap (λ x. aviso_del_otro x.1) v ∙ l, del_otro b o)
  where
    del_otro : (c : AvisoFondeo) → aviso_es_del_otro c ≡ true → codigo_aviso c ≡ none
    del_otro c k = elim (Option-cases (codigo_aviso c)) [
      | inl q ↦ q
      | inr (t, q) ↦ absurd (ground arith)
    ]
