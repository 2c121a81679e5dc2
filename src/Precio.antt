-- ===== src/Precio.antt =====
-- crates/konstruado-core/src/precio.rs: amounts in dollars, and the price of an installment fixed
-- when its lock is proposed. `precio_a_centavos` reads a float and is not modelled.
pub mod Rounding
pub mod Reading
pub mod Dollars
use Prim.Native.Nat.{min}
use home_builder_pay.Base.{
  ℕ, zero, suc, ◌+◌, ◌-◌, ◌*◌, ◌/◌, ◌%◌, ◌^◌, Bool, true, false, ◌&&◌, ◌||◌, not, Option, none,
  some, List, [], ◌∷◌, ◌++◌, reverse, ltb, leb, ◌==◌, if◌then◌else◌, ℤ, Error, Result, ok, err,
  ok_or, bind, Text, chars, text_eq, is_whitespace, length, all, filter, is_empty,
}
use home_builder_pay.Decimal.{is_digit, rev_digits, decimal, parse_u64}
use home_builder_pay.Montos.{monto_pct}
use home_builder_pay.Montos

abbrev pub piconero : ℕ
piconero = 1_000_000_000_000

abbrev pub piconero_por_unidad : ℕ
piconero_por_unidad = 20_000_000

pub data Moneda : Type 0 where
  unidades usd : Moneda

abbrev pub es_usd : Moneda → Bool
es_usd usd = true
es_usd unidades = false

pub record PrecioFijado : Type 0 where
  pub usd_centavos : ℕ  -- u64
  pub centavos_por_xmr : ℕ  -- u64
  pub piconero : ℕ  -- u64
  pub fuente : Text
  pub cuando : ℤ

-- `u64::try_from`
abbrev pub to_u64 : ℕ → Option ℕ
to_u64 q = if ltb q (2 ^ 64) then some q else none

-- `checked_mul` and `checked_add` of `u64`.
abbrev pub checked_mul : ℕ → ℕ → Option ℕ
checked_mul a b = to_u64 (a * b)

abbrev pub checked_add : ℕ → ℕ → Option ℕ
checked_add a b = to_u64 (a + b)

-- The `u128` values stay below 2^104, so they are numbers here.
abbrev pub cociente : ℕ → ℕ → ℕ
cociente usd_centavos centavos_por_xmr =
    (usd_centavos * 1_000_000_000_000 + centavos_por_xmr / 2) / centavos_por_xmr

unfoldable pub usd_a_piconero : ℕ → ℕ → Option ℕ
usd_a_piconero usd_centavos centavos_por_xmr =
    if centavos_por_xmr == 0 || usd_centavos == 0
    then none
    else if ltb (cociente usd_centavos centavos_por_xmr) (2 ^ 64)
        && ltb 0 (cociente usd_centavos centavos_por_xmr)
    then some (cociente usd_centavos centavos_por_xmr)
    else none

abbrev opt_eq : Option ℕ → ℕ → Bool
opt_eq none n = false
opt_eq (some m) n = m == n

-- `PrecioFijado::nuevo`
unfoldable pub nuevo : ℕ → ℕ → Text → ℤ → Result PrecioFijado
nuevo usd_centavos centavos_por_xmr fuente cuando =
    bind (ok_or (usd_a_piconero usd_centavos centavos_por_xmr) Error.precio) λ p. ok (record {
      usd_centavos = usd_centavos;
      centavos_por_xmr = centavos_por_xmr;
      piconero = p;
      fuente = fuente;
      cuando = cuando;
    })

unfoldable pub coherente : PrecioFijado → Bool
coherente p = opt_eq (usd_a_piconero p.usd_centavos p.centavos_por_xmr) p.piconero

unfoldable pub piconero_pct : PrecioFijado → ℕ → ℕ
piconero_pct p pct = monto_pct p.piconero pct

unfoldable pub unidades_a_piconero : ℕ → Option ℕ
unidades_a_piconero u = checked_mul u piconero_por_unidad

-- The loop of `fmt_usd` and of `monto` (partida.rs) over the digits from the last one on: a
-- separator before every third digit but the first.
unfoldable pub agrupar : ℕ → ℕ → Text → Text
agrupar sep i [] = []
agrupar sep i (ch ∷ r) =
    let rest = ch ∷ agrupar sep (i + 1) r in if ltb 0 i && i % 3 == 0 then sep ∷ rest else rest

-- `monto` of partida.rs.
unfoldable pub monto : ℕ → Text
unfolding agrupar rev_digits
monto n = reverse (agrupar b'.' 0 (rev_digits 20 n))

-- `{:02}` of a number below 100.
abbrev pub dos_cifras : ℕ → Text
dos_cifras n = (48 + n / 10) ∷ (48 + n % 10) ∷ []

unfoldable pub fmt_usd : ℕ → Bool → Text
unfolding agrupar rev_digits
fmt_usd centavos es =
    let mil = if es then b'.' else b',' in
    let dec = if es then b',' else b'.' in
    let entero = reverse (agrupar mil 0 (rev_digits 20 (centavos / 100))) in
    if centavos % 100 == 0
    then chars "USD " ++ entero
    else chars "USD " ++ (entero ++ dec ∷ dos_cifras (centavos % 100))

unfoldable pub usd_editable : ℕ → Text
unfolding decimal
usd_editable centavos =
    if centavos % 100 == 0
    then decimal (centavos / 100)
    else decimal (centavos / 100) ++ b'.' ∷ dos_cifras (centavos % 100)

unfoldable pub fmt_monto : Moneda → ℕ → Bool → Text
unfolding fmt_usd monto
fmt_monto usd n es = fmt_usd n es
fmt_monto unidades n es = monto n

unfoldable pub drop_while : (ℕ → Bool) → Text → Text
drop_while p [] = []
drop_while p (c ∷ s) = let rest = drop_while p s in if p c then rest else c ∷ s

-- `str::trim`.
unfoldable pub trim : Text → Text
unfolding drop_while is_whitespace
trim s = reverse (drop_while is_whitespace (reverse (drop_while is_whitespace s)))

abbrev pub is_letter : ℕ → Bool
is_letter c = (leb b'A' c && leb c b'Z') || (leb b'a' c && leb c b'z')

abbrev pub es_separador : ℕ → Bool
es_separador c = c == b'.' || c == b','

-- What `leer_usd` drops at the start: `$`, letters and white space.
abbrev pub es_prefijo : ℕ → Bool
es_prefijo c = c == b'$' || is_letter c || is_whitespace c

abbrev cons_parte : ℕ → Option (Text × Text) → Option (Text × Text)
cons_parte c none = none
cons_parte c (some (a, b)) = some (c ∷ a, b)

-- A text cut at its first separator.
unfoldable pub cortar : Text → Option (Text × Text)
cortar [] = none
cortar (c ∷ s) = let rest = cons_parte c (cortar s) in if es_separador c then some ([], s) else rest

-- `rfind`: the last separator is the first one of the reversed text. It is the decimal one if one
-- or two characters follow it.
unfoldable pub partes : Text → Text × Text
unfolding cortar
partes t = elim (cortar (reverse t)) [
  | none ↦ (t, [])
  | some (dec, entero) ↦
      if leb 1 (length dec) && leb (length dec) 2 then (reverse entero, reverse dec) else (t, [])
]

-- The cents that follow the separator: none, tenths, or hundredths.
unfoldable pub centavos_de : Text → Result ℕ
unfolding parse_u64
centavos_de [] = ok 0
centavos_de (a ∷ []) = bind (ok_or (parse_u64 (a ∷ [])) Error.monto) λ d. ok (d * 10)
centavos_de (a ∷ b ∷ s) = ok_or (parse_u64 (a ∷ b ∷ s)) Error.monto

abbrev pub parse_entero : Text → Result ℕ
parse_entero [] = ok 0
parse_entero (c ∷ s) = ok_or (parse_u64 (c ∷ s)) Error.monto

-- What `leer_usd` does with the two parts, the whole one stripped of its separators.
unfoldable pub sumar_partes : Text → Text → Result ℕ
unfolding parse_u64 centavos_de
sumar_partes entero dec =
    if is_empty entero && is_empty dec
    then err Error.monto
    else bind (parse_entero entero) λ e. bind (centavos_de dec) λ d. elim (checked_mul e 100) [
      | none ↦ err Error.monto
      | some c ↦ ok_or (checked_add c d) Error.monto
    ]

unfoldable pub leer_limpio : Text → Result ℕ
unfolding partes sumar_partes is_digit
leer_limpio t =
    if is_empty t || not (all (λ c. is_digit c || es_separador c) t)
    then err Error.monto
    else sumar_partes (filter is_digit (partes t).0) (partes t).1

unfoldable pub leer_usd : Text → Result ℕ
unfolding trim drop_while leer_limpio is_whitespace
leer_usd texto =
    leer_limpio (filter (λ c. not (is_whitespace c)) (drop_while es_prefijo (trim texto)))
