-- ===== src/Motor/Lineas.antt =====
-- caja.rs of the motor: the lines that it shows, and what is under way as they tell.
use home_builder_pay.Base.{ℕ, Bool, true, false, Text}

pub data Texto : Type 0 where
  armando fondeando : Texto
  esperando_fondeo : Text → Texto
  gastando : Texto
  esperando_pago : Text → Texto
  sin_otro sin_semilla buscando_monedas esperando_propuesta esperando_contratista trabadas
        sin_saldo :
      Texto
  sin_caja sin_saldo_caja buscando_caja trabadas_caja sin_direccion sin_saldo_otro trabadas_otro :
      Texto
  sin_semilla_otro sin_caja_otro sin_direccion_otro buscando_otro : Texto
  falla : Text → Texto

abbrev pub es_freno : Texto → Bool
es_freno (Texto.falla _) = true
es_freno Texto.sin_saldo = true
es_freno Texto.trabadas = true
es_freno Texto.sin_semilla = true
es_freno Texto.sin_caja = true
es_freno Texto.sin_saldo_caja = true
es_freno Texto.trabadas_caja = true
es_freno Texto.sin_direccion = true
es_freno Texto.sin_saldo_otro = true
es_freno Texto.trabadas_otro = true
es_freno Texto.sin_semilla_otro = true
es_freno Texto.sin_caja_otro = true
es_freno Texto.sin_direccion_otro = true
es_freno _ = false

pub data EnCurso : Type 0 where
  nada fondeo_armando fondeo_en_red pago_firmando pago_en_red : EnCurso

-- `Texto::en_curso`
abbrev pub en_curso : Texto → EnCurso
en_curso (Texto.esperando_pago _) = EnCurso.pago_en_red
en_curso Texto.gastando = EnCurso.pago_firmando
en_curso Texto.buscando_caja = EnCurso.pago_firmando
en_curso (Texto.esperando_fondeo _) = EnCurso.fondeo_en_red
en_curso Texto.fondeando = EnCurso.fondeo_armando
en_curso Texto.buscando_monedas = EnCurso.fondeo_armando
en_curso Texto.esperando_propuesta = EnCurso.fondeo_armando
en_curso Texto.esperando_contratista = EnCurso.fondeo_armando
en_curso Texto.buscando_otro = EnCurso.fondeo_armando
en_curso _ = EnCurso.nada

-- The closure `rango` of `acciones_partida_con`, which also decides the derived `==`.
abbrev pub rango_curso : EnCurso → ℕ
rango_curso EnCurso.nada = 0
rango_curso EnCurso.fondeo_armando = 1
rango_curso EnCurso.fondeo_en_red = 2
rango_curso EnCurso.pago_firmando = 3
rango_curso EnCurso.pago_en_red = 4
