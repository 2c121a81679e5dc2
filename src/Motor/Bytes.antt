-- ===== src/Motor/Bytes.antt =====
-- The parts of Rust's standard library that caja.rs of the motor reads a message with: `from_utf8`,
-- `split_once`, `parse::<usize>`, and `parse_idx` on them.
use home_builder_pay.Base.{
  ℕ, zero, suc, ◌+◌, ◌-◌, ◌*◌, Bool, ◌&&◌, Option, none, some, List, [], ◌∷◌, if◌then◌else◌, ltb,
  leb, ◌==◌, all, Text,
}
use home_builder_pay.Precio.{trim}
use home_builder_pay.Decimal.{is_digit, parse_u64}

abbrev pub con_letra : ℕ → Option Text → Option Text
con_letra c none = none
con_letra c (some s) = some (c ∷ s)

abbrev entre : ℕ → ℕ → ℕ → Bool
entre lo hi b = leb lo b && leb b hi

-- `String::from_utf8`: `faltan` bytes of a character are still to come, the next one is from `lo` to `hi`,
-- and those read so far give `acc`.
unfoldable pub leer_utf8 : (faltan lo hi acc : ℕ) → List ℕ → Option Text
leer_utf8 zero lo hi acc [] = some []
leer_utf8 (suc n) lo hi acc [] = none
leer_utf8 zero lo hi acc (a ∷ s) =
    let uno = leer_utf8 zero 0 0 0 s in
    let dos = leer_utf8 1 0x80 0xbf (a - 0xc0) s in
    let tres = leer_utf8 2 0x80 0xbf (a - 0xe0) s in
    let tres_bajo = leer_utf8 2 0xa0 0xbf 0 s in
    let tres_alto = leer_utf8 2 0x80 0x9f 0xd s in
    let cuatro = leer_utf8 3 0x80 0xbf (a - 0xf0) s in
    let cuatro_bajo = leer_utf8 3 0x90 0xbf 0 s in
    let cuatro_alto = leer_utf8 3 0x80 0x8f 4 s in
    if ltb a 0x80
    then con_letra a uno
    else if entre 0xc2 0xdf a
    then dos
    else if a == 0xe0
    then tres_bajo
    else if a == 0xed
    then tres_alto
    else if entre 0xe1 0xef a
    then tres
    else if a == 0xf0
    then cuatro_bajo
    else if entre 0xf1 0xf3 a
    then cuatro
    else if a == 0xf4
    then cuatro_alto
    else none
leer_utf8 (suc n) lo hi acc (b ∷ s) =
    let letra = acc * 64 + (b - 0x80) in
    let fin = con_letra letra (leer_utf8 zero 0 0 0 s) in
    let sigue = leer_utf8 n 0x80 0xbf letra s in
    if entre lo hi b then (if n == 0 then fin else sigue) else none

unfoldable pub from_utf8 : List ℕ → Option Text
unfolding leer_utf8
from_utf8 = leer_utf8 zero 0 0 0

abbrev delante : ℕ → Option (Text × Text) → Option (Text × Text)
delante x none = none
delante x (some (a, b)) = some (x ∷ a, b)

-- `split_once(':')` splits at the first one.
unfoldable pub split_once : ℕ → Text → Option (Text × Text)
split_once c [] = none
split_once c (x ∷ s) = let rest = split_once c s in if x == c then some ([], s) else delante x rest

-- A plus sign in front of the digits is read.
abbrev sin_mas : Text → Text
sin_mas [] = []
sin_mas (c ∷ s) = if c == 0x2b then s else c ∷ s

unfoldable pub parse_usize : Text → Option ℕ
parse_usize s = if all is_digit (sin_mas s) then parse_u64 (sin_mas s) else none

abbrev indice_de : Option Text → Option ℕ
indice_de none = none
indice_de (some s) = parse_usize (trim s)

unfoldable pub parse_idx : List ℕ → Option ℕ
unfolding from_utf8 parse_usize
parse_idx b = indice_de (from_utf8 b)
