-- ===== src/Motor/Avisos.antt =====
-- caja.rs of the motor: `AvisoFondeo`, and the codes that the two wallets of a job send each other when
-- one of them cannot go on.
pub mod Vuelta
use home_builder_pay.Base.{
  ℕ, Bool, true, false, ◌||◌, not, Option, none, some, [], ◌∷◌, ◌++◌, if◌then◌else◌, ◌==◌, Text,
  chars, text_eq, is_empty, is_none,
}
use home_builder_pay.Decimal.{decimal}
use home_builder_pay.Motor.Lineas.{Texto}
use home_builder_pay.Motor.Bytes.{split_once, parse_usize}

pub data AvisoFondeo : Type 0 where
  sin_saldo trabadas sin_semilla sin_caja : AvisoFondeo
  sin_saldo_otro trabadas_otro sin_semilla_otro sin_caja_otro : AvisoFondeo

-- The numbers decide the derived `==`.
abbrev num_aviso : AvisoFondeo → ℕ
num_aviso AvisoFondeo.sin_saldo = 0
num_aviso AvisoFondeo.trabadas = 1
num_aviso AvisoFondeo.sin_semilla = 2
num_aviso AvisoFondeo.sin_caja = 3
num_aviso AvisoFondeo.sin_saldo_otro = 4
num_aviso AvisoFondeo.trabadas_otro = 5
num_aviso AvisoFondeo.sin_semilla_otro = 6
num_aviso AvisoFondeo.sin_caja_otro = 7

abbrev pub codigo_aviso : AvisoFondeo → Option Text
codigo_aviso AvisoFondeo.sin_saldo = some (chars "sin-saldo")
codigo_aviso AvisoFondeo.trabadas = some (chars "trabadas")
codigo_aviso AvisoFondeo.sin_semilla = some (chars "sin-semilla")
codigo_aviso AvisoFondeo.sin_caja = some (chars "sin-caja")
codigo_aviso _ = none

abbrev pub aviso_es_del_otro : AvisoFondeo → Bool
aviso_es_del_otro a = is_none (codigo_aviso a)

-- An arm of a `match` on a string.
abbrev pub es : Text → Text → Bool
es s t = text_eq s t

unfoldable pub aviso_del_otro : Text → Option AvisoFondeo
aviso_del_otro code =
    if es code (chars "sin-saldo") || es code (chars "sin-saldo-caja")
    then some AvisoFondeo.sin_saldo_otro
    else if es code (chars "trabadas") || es code (chars "trabadas-caja")
    then some AvisoFondeo.trabadas_otro
    else if es code (chars "sin-semilla")
    then some AvisoFondeo.sin_semilla_otro
    else if es code (chars "sin-caja")
    then some AvisoFondeo.sin_caja_otro
    else none

unfoldable pub codigo_del_otro : Text → Text
codigo_del_otro code =
    if es code (chars "sin-saldo")
      || es code (chars "sin-saldo-caja")
      || es code (chars "codigo:sin-saldo")
    then chars "sin-saldo-otro"
    else if es code (chars "trabadas")
        || es code (chars "trabadas-caja")
        || es code (chars "codigo:trabadas")
    then chars "trabadas-otro"
    else if es code (chars "sin-semilla") || es code (chars "codigo:sin-semilla")
    then chars "sin-semilla-otro"
    else if es code (chars "sin-caja")
    then chars "sin-caja-otro"
    else if es code (chars "sin-direccion")
    then chars "sin-direccion-otro"
    else code

unfoldable pub codigo_gasto_local : Text → Bool
codigo_gasto_local code =
    es code (chars "sin-semilla")
    || es code (chars "sin-caja")
    || es code (chars "sin-direccion")
    || es code (chars "sin-saldo-caja")
    || es code (chars "trabadas-caja")

abbrev pub texto_aviso : AvisoFondeo → Texto
texto_aviso AvisoFondeo.sin_saldo = Texto.sin_saldo
texto_aviso AvisoFondeo.trabadas = Texto.trabadas
texto_aviso AvisoFondeo.sin_semilla = Texto.sin_semilla
texto_aviso AvisoFondeo.sin_caja = Texto.sin_caja
texto_aviso AvisoFondeo.sin_saldo_otro = Texto.sin_saldo_otro
texto_aviso AvisoFondeo.trabadas_otro = Texto.trabadas_otro
texto_aviso AvisoFondeo.sin_semilla_otro = Texto.sin_semilla_otro
texto_aviso AvisoFondeo.sin_caja_otro = Texto.sin_caja_otro

unfoldable pub texto_de_codigo : Text → Texto
texto_de_codigo code =
    if es code (chars "sin-semilla") || es code (chars "codigo:sin-semilla")
    then Texto.sin_semilla
    else if es code (chars "sin-caja")
    then Texto.sin_caja
    else if es code (chars "sin-direccion")
    then Texto.sin_direccion
    else if es code (chars "sin-saldo") || es code (chars "codigo:sin-saldo")
    then Texto.sin_saldo
    else if es code (chars "sin-saldo-caja")
    then Texto.sin_saldo_caja
    else if es code (chars "trabadas") || es code (chars "codigo:trabadas")
    then Texto.trabadas
    else if es code (chars "trabadas-caja")
    then Texto.trabadas_caja
    else if es code (chars "sin-saldo-otro")
    then Texto.sin_saldo_otro
    else if es code (chars "trabadas-otro")
    then Texto.trabadas_otro
    else if es code (chars "sin-semilla-otro")
    then Texto.sin_semilla_otro
    else if es code (chars "sin-caja-otro")
    then Texto.sin_caja_otro
    else if es code (chars "sin-direccion-otro")
    then Texto.sin_direccion_otro
    else if es code (chars "buscando")
    then Texto.buscando_otro
    else Texto.falla code

-- `format!("p{i}:{code}")`
unfoldable pub poner_aviso : ℕ → Text → Text
poner_aviso i code = 0x70 ∷ (decimal i ++ 0x3a ∷ code)

abbrev con_indice : Text → Text → Option ℕ → Option ℕ × Text
con_indice txt code none = (none, txt)
con_indice txt code (some i) = if not (is_empty code) then (some i, code) else (none, txt)

abbrev con_corte : Text → Option (Text × Text) → Option ℕ × Text
con_corte txt none = (none, txt)
con_corte txt (some (idx, code)) = con_indice txt code (parse_usize idx)

abbrev con_p : Text → Text → Option ℕ × Text
con_p txt [] = (none, txt)
con_p txt (c ∷ rest) = if c == 0x70 then con_corte txt (split_once 0x3a rest) else (none, txt)

unfoldable pub partir_aviso : Text → Option ℕ × Text
unfolding split_once parse_usize
partir_aviso txt = con_p txt txt
