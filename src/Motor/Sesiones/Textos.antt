-- ===== src/Motor/Sesiones/Textos.antt =====
-- caja.rs of the motor: the line that is shown of each session (`texto_fondeo`, `texto_gasto`).
use home_builder_pay.Base.{
  ℕ, ◌≡◌, refl, Bool, true, false, ◌&&◌, ◌||◌, not, Option, none, some, [], arith, if◌then◌else◌,
  is_some, is_none, Text, ◌==◌,
}
use home_builder_pay.Base.Dict.{get}
use home_builder_pay.Motor.{suma_sat}
use home_builder_pay.Motor.Lineas.{Texto, en_curso, rango_curso}
use home_builder_pay.Motor.Salidas.{EstadoMonedas, CoberturaCaja, cobertura_caja, fee_cushion}
use home_builder_pay.Motor.Rastreo.{LibroCaja}
use home_builder_pay.Motor.Avisos.{AvisoFondeo, texto_aviso, texto_de_codigo}
use home_builder_pay.Motor.Libros.{estado_de, montos_alturas}
use home_builder_pay.Motor.Sesiones.{Tipos, Fondeo, Gasto, Motor}

abbrev de_estado : EstadoMonedas → Texto
de_estado EstadoMonedas.libre = Texto.fondeando
de_estado EstadoMonedas.trabadas = Texto.trabadas
de_estado EstadoMonedas.buscando = Texto.buscando_monedas
de_estado EstadoMonedas.sin_saldo = Texto.sin_saldo

abbrev de_cobertura : CoberturaCaja → Texto
de_cobertura CoberturaCaja.buscando = Texto.buscando_caja
de_cobertura CoberturaCaja.sin_saldo = Texto.sin_saldo_caja
de_cobertura CoberturaCaja.trabadas = Texto.trabadas_caja
de_cobertura CoberturaCaja.libre = Texto.gastando

-- An early return where there is a value.
abbrev o_sigue {ℓ} : {A : Type ℓ} → (A → Texto) → Option A → Texto → Texto
o_sigue f none t = t
o_sigue f (some a) t = f a

abbrev visto_con : Bool → Option Text → Option Text
visto_con true t = t
visto_con false t = none

abbrev cobertura_en : Option LibroCaja → Option ℕ → ℕ → ℕ → CoberturaCaja
cobertura_en none tip amount n = cobertura_caja [] tip false 0 0 0 amount n
cobertura_en (some l) tip amount n =
    cobertura_caja (montos_alturas l.entradas) tip l.listo l.desde l.hasta l.retro amount n

codigo-armando : (s : Text) → (rango_curso (en_curso (texto_de_codigo s)) == 2) ≡ false
unfolding texto_de_codigo
codigo-armando s = ground arith

aviso-armando : (a : AvisoFondeo) → (rango_curso (en_curso (texto_aviso a)) == 2) ≡ false
aviso-armando a = ground arith

-- The line by the transaction, the error and the notice; `r` is what is shown without them.
linea_mostrada :
    (vis : Bool) (tx err : Option Text) (av : Option AvisoFondeo) (r : Texto)
    → (rango_curso (en_curso r) == 2) ≡ false
    → (rango_curso (
          en_curso (
            o_sigue Texto.esperando_fondeo (visto_con vis tx) (
              o_sigue texto_de_codigo err
                (o_sigue texto_aviso av (o_sigue Texto.esperando_fondeo tx r)))))
        == 2)
      ≡ (is_some tx && (vis || (is_none err && is_none av)))
linea_mostrada true (some t) err av r h = refl
linea_mostrada true none (some e) av r h = codigo-armando e
linea_mostrada true none none (some a) r h = aviso-armando a
linea_mostrada true none none none r h = h
linea_mostrada false none (some e) av r h = codigo-armando e
linea_mostrada false none none (some a) r h = aviso-armando a
linea_mostrada false none none none r h = h
linea_mostrada false (some t) (some e) av r h = codigo-armando e
linea_mostrada false (some t) none (some a) r h = aviso-armando a
linea_mostrada false (some t) none none r h = refl

module _ {T : Tipos} where
  abbrev texto_monedas : Motor T → ℕ → Texto
  texto_monedas m minimo = de_estado (estado_de m.libro m.tip m.retro minimo)

  -- What is left when there is no transaction, no error and no notice.
  abbrev pub sin_tx : Motor T → Fondeo T → Texto
  sin_tx m f =
      if f.solo_aviso && f.par_buscando
      then Texto.buscando_otro
      else if f.soy_mandante && is_none f.propuesta
      then texto_monedas m (suma_sat f.capital fee_cushion)
      else if not f.soy_mandante && is_none f.sobre
      then (if f.espera_moneda
          then texto_monedas m f.capital
          else if f.par_buscando
          then Texto.buscando_otro
          else Texto.esperando_propuesta)
      else if f.soy_mandante && is_none f.esqueleto
      then Texto.esperando_contratista
      else if not f.soy_mandante && is_none f.esqueleto
      then texto_monedas m f.capital
      else Texto.fondeando

  unfoldable pub texto_fondeo : Motor T → Fondeo T → Texto
  texto_fondeo m f = o_sigue Texto.esperando_fondeo (visto_con f.visto f.txid) (
      o_sigue texto_de_codigo f.error
        (o_sigue texto_aviso f.aviso (o_sigue Texto.esperando_fondeo f.txid (sin_tx m f))))

  unfoldable pub cobertura_de : Motor T → Text → (amount cuantos : ℕ) → CoberturaCaja
  cobertura_de m obra amount cuantos = cobertura_en (get obra m.cajas_libros) m.tip amount cuantos

  unfoldable pub texto_gasto : Motor T → Text → Gasto T → Texto
  unfolding cobertura_de
  texto_gasto m obra g = o_sigue Texto.esperando_pago (visto_con g.visto g.txid) (
      o_sigue texto_de_codigo g.error (
        o_sigue Texto.esperando_pago g.txid (
          if g.soy_mandante && is_none g.propuesta
          then de_cobertura (cobertura_de m obra g.capital 2)
          else Texto.gastando)))

  abbrev pub en_la_red : Fondeo T → Bool
  en_la_red f = is_some f.txid && (f.visto || (is_none f.error && is_none f.aviso))

  sin_tx-armando : (m : Motor T) (f : Fondeo T) → (rango_curso (en_curso (sin_tx m f)) == 2) ≡ false
  sin_tx-armando m f = ground arith

  -- The line of a funding says that its transaction is on the network exactly if it has one that was seen
  -- in the chain, or one that no error and no notice stands against.
  pub texto_fondeo_lem :
      (m : Motor T) (f : Fondeo T) → (rango_curso (en_curso (texto_fondeo m f)) == 2) ≡ en_la_red f
  unfolding texto_fondeo
  texto_fondeo_lem m f =
      linea_mostrada f.visto f.txid f.error f.aviso (sin_tx m f) (sin_tx-armando m f)
