-- ===== src/Montos.antt =====
-- crates/konstruado-core/src/partida.rs: the division of a job into installments, the texts that
-- are stored with it, and the percentages that are paid.
pub mod Division
pub mod Percent
use home_builder_pay.Base.{
  ℕ, zero, suc, ◌+◌, ◌*◌, ◌/◌, ◌%◌, ◌^◌, Bool, true, false, ◌&&◌, Option, none, some, List, [], ◌∷◌,
  map, reverse, ◌==◌, leb, ltb, if◌then◌else◌, ℤ, pos, negsuc, ◌-◌, Error, Result, ok, err, Text,
  length, take, resize, split_whitespace, join, is_empty, byte_len,
}

abbrev pub u32_mod : ℕ
u32_mod = 2 ^ 32

abbrev pub u64_mod : ℕ
u64_mod = 2 ^ 64

-- `ahora`, from the reading of the clock: the seconds since the epoch (a `u64`), or no reading if
-- the clock stands before it. `as i64` reads the upper half of the range as negative.
unfoldable pub ahora : Option ℕ → ℤ
ahora none = pos 0
ahora (some secs) = if ltb secs (2 ^ 63) then pos secs else negsuc (u64_mod - 1 - secs)

-- `as u32` keeps the low 32 bits of the quotient.
unfoldable pub n_partidas : ℕ → ℕ → Result ℕ
n_partidas trabajo garantia =
    if trabajo == 0
    then err Error.monto
    else if garantia == 0
    then err Error.garantia
    else if trabajo % garantia == 0
    then ok (trabajo / garantia % u32_mod)
    else err Error.no_divide

-- `capital_por_lado`
unfoldable pub capital_por_lado : ℕ → ℕ
capital_por_lado garantia = garantia

-- `limpia_detalle`: words joined by one space, cut at 200 characters.
unfoldable pub limpia_detalle : Text → Text
limpia_detalle s = let t = join (split_whitespace s) in if ltb 200 (length t) then take 200 t else t

-- `ajusta_detalles`: one line per installment.
unfoldable pub ajusta_detalles : ℕ → List Text → List Text
ajusta_detalles n detalles = resize n [] (map limpia_detalle detalles)

abbrev pub max_nota : ℕ
max_nota = 50

unfoldable pub limpia_nota : Text → Result Text
limpia_nota s =
    let t = join (split_whitespace s) in if ltb max_nota (length t) then err Error.nota else ok t

-- `limpia_nombre` of acuerdo.rs measures bytes, not characters.
unfoldable pub limpia_nombre : Text → Option Text
limpia_nombre s =
    let t = join (split_whitespace s) in
    if is_empty t then none else if ltb 80 (byte_len t) then none else some t

unfoldable pub porcentaje : ℕ → Result ℕ
porcentaje n = if leb 1 n && leb n 100 then ok n else err Error.porcentaje

-- The product is a `u64`; a build without overflow checks, as the release profile is, wraps it.
unfoldable pub monto_pct : ℕ → ℕ → ℕ
monto_pct total pct = total * pct % u64_mod / 100
