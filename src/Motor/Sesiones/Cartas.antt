-- ===== src/Motor/Sesiones/Cartas.antt =====
-- caja.rs of the motor: what the wallet sends to the other one at each tick, and how a session fails. What
-- `Nodo::enviar_caja` answers to each letter is the parameter `enviar`.
use home_builder_pay.Base.{
  ℕ, Bool, true, false, ◌&&◌, ◌||◌, not, Option, none, some, List, [], ◌∷◌, ◌++◌, map,
  if◌then◌else◌, filter, is_some, is_none, is_empty, get_elem?, chars, Text, text_eq,
}
use home_builder_pay.Decimal.{decimal}
use home_builder_pay.Retiro.{utf8}
use home_builder_pay.Acuerdo.{Partida, PartidaEstado, Obra, partida_en_estado}
use home_builder_pay.Motor.Lineas.{Texto}
use home_builder_pay.Motor.Avisos.{AvisoFondeo, codigo_aviso, codigo_gasto_local, poner_aviso}
use home_builder_pay.Motor.Mapa.{Clave, Mapa, leer_clave, cambiar_clave}
use home_builder_pay.Motor.Sesiones.{
  Tipos, Fondeo, Gasto, Motor, Fallo, rol_en, otro_id, insertar_fondeo, limpiar_sesion_fondeo, nota,
  linea_de,
}

pub record Carta : Type 0 where
  pub obra : Text
  pub para : Text
  pub paso : Text
  pub cuerpo : List ℕ

abbrev pub carta : Clave → (para paso cuerpo : Text) → Carta
carta k para paso cuerpo = record { obra = k.0; para = para; paso = paso; cuerpo = utf8 cuerpo }

-- The letters of a list are sent one by one, and the session of each that goes out is marked.
module _ {V : Type 0} (enviar : Carta → Bool) (escribe : Clave × V → Carta) (marca : V → V) where
  unfoldable pub mandar : List (Clave × V) → Mapa V → Mapa V
  mandar [] m = m
  mandar (e ∷ es) m = mandar es (if enviar (escribe e) then cambiar_clave e.0 marca m else m)

abbrev pub codigo_o_vacio : Option Text → Text
codigo_o_vacio none = []
codigo_o_vacio (some c) = c

abbrev pub codigo_de : Option AvisoFondeo → Option Text
codigo_de none = none
codigo_de (some a) = codigo_aviso a

abbrev pub es_local : Option Text → Bool
es_local none = false
es_local (some c) = codigo_gasto_local c

abbrev pub una_carta : Clave → (para paso cuerpo : Text) → List Carta
una_carta k para paso cuerpo = if is_empty para then [] else carta k para paso cuerpo ∷ []

abbrev pub es_reinicio : Texto → Bool
es_reinicio (Texto.falla s) = text_eq s (chars "fondeo-reinicio")
es_reinicio _ = false

abbrev pub par_o_otro : Text → Text → Text
par_o_otro par otro = if is_empty par then otro else par

module _ {T : Tipos} where
  abbrev pub abortada : Fondeo T → Fondeo T
  abortada f = record f {
    abortar = false;
    avisar = is_none f.aviso && not f.espera_moneda && not f.viene_del_par;
  }

  abbrev pub pedida : Fondeo T → Fondeo T
  pedida f = record f { avisar = false; avise_pedir = true; espera_moneda = false }

  abbrev pub carta_abort : Clave × Fondeo T → Carta
  carta_abort e = carta e.0 e.1.peer (chars "fund-abort") (decimal e.0.1)

  abbrev pub carta_pedir : Clave × Fondeo T → Carta
  carta_pedir e = carta e.0 e.1.peer (chars "fund-pedir") (decimal e.0.1)

  abbrev pub carta_gasto : Clave × Gasto T → Carta
  carta_gasto e = carta e.0 e.1.peer (chars "spend-pedir") (decimal e.0.1)

  abbrev pub por_abortar : Mapa (Fondeo T) → Mapa (Fondeo T)
  por_abortar m = filter (λ e. e.1.abortar) m

  abbrev pub por_pedir : Mapa (Fondeo T) → Mapa (Fondeo T)
  por_pedir m = filter (λ e. e.1.avisar && not e.1.abortar) m

  abbrev pub por_gastar : Mapa (Gasto T) → Mapa (Gasto T)
  por_gastar m = filter (λ e. e.1.avisar && is_none e.1.error) m

  -- The letters, and the state afterwards.
  unfoldable pub avisar_pedidos : (Carta → Bool) → Motor T → List Carta × Motor T
  unfolding mandar
  avisar_pedidos enviar m =
      let a = por_abortar m.fondeos in
      let f1 = mandar enviar carta_abort abortada a m.fondeos in
      let p = por_pedir f1 in
      let f2 = mandar enviar carta_pedir pedida p f1 in
      let g = por_gastar m.gastos in
      let g1 = mandar enviar carta_gasto (λ x. record x { avisar = false }) g m.gastos in
      (
        map carta_abort a ++ (map carta_pedir p ++ map carta_gasto g),
        record m { fondeos = f2; gastos = g1 },
      )

  abbrev pub carta_bloqueo : Clave × Fondeo T → Carta
  carta_bloqueo e =
      carta e.0 e.1.peer (chars "fund-error")
        (poner_aviso e.0.1 (codigo_o_vacio (codigo_de e.1.aviso)))

  abbrev pub por_bloquear : Mapa (Fondeo T) → Mapa (Fondeo T)
  por_bloquear m =
      filter (λ e. is_some e.1.aviso && not e.1.aviso_enviado && not (is_empty e.1.peer)) m

  -- A notice without a code is not sent.
  abbrev pub con_codigo : Mapa (Fondeo T) → Mapa (Fondeo T)
  con_codigo m = filter (λ e. is_some (codigo_de e.1.aviso)) m

  abbrev pub bloqueada : Fondeo T → Fondeo T
  bloqueada f = record f { aviso_enviado = true }

  unfoldable pub mandar_bloqueos :
      (Carta → Bool) → List (Clave × Fondeo T) → Mapa (Fondeo T) → Mapa (Fondeo T)
  mandar_bloqueos enviar [] m = m
  mandar_bloqueos enviar (e ∷ es) m = mandar_bloqueos enviar es (
      if is_none (codigo_de e.1.aviso) || enviar (carta_bloqueo e)
      then cambiar_clave e.0 bloqueada m
      else m)

  abbrev pub carta_busqueda : Clave × Fondeo T → Carta
  carta_busqueda e = carta e.0 e.1.peer (chars "fund-error") (poner_aviso e.0.1 (chars "buscando"))

  abbrev pub por_buscar : Mapa (Fondeo T) → Mapa (Fondeo T)
  por_buscar m =
      filter
        (λ e.
          e.1.espera_moneda
          && not e.1.dije_busqueda
          && not (is_empty e.1.peer)
          && not e.1.solo_aviso)
        m

  abbrev pub carta_freno : Clave × Gasto T → Carta
  carta_freno e =
      carta e.0 e.1.peer (chars "spend-error") (poner_aviso e.0.1 (codigo_o_vacio e.1.error))

  abbrev pub por_frenar : Mapa (Gasto T) → Mapa (Gasto T)
  por_frenar m = filter (λ e. es_local e.1.error && not (is_empty e.1.peer) && e.1.avisar) m

  unfoldable pub emitir_bloqueos : (Carta → Bool) → Motor T → List Carta × Motor T
  unfolding mandar mandar_bloqueos
  emitir_bloqueos enviar m =
      let a = por_bloquear m.fondeos in
      let f1 = mandar_bloqueos enviar a m.fondeos in
      let b = por_buscar f1 in
      let f2 = mandar enviar carta_busqueda (λ x. record x { dije_busqueda = true }) b f1 in
      let g = por_frenar m.gastos in
      let g1 = mandar enviar carta_freno (λ x. record x { avisar = false }) g m.gastos in
      (
        map carta_bloqueo (con_codigo a) ++ (map carta_busqueda b ++ map carta_freno g),
        record m { fondeos = f2; gastos = g1 },
      )

  abbrev pub par_fondeo : Option (Fondeo T) → Text
  par_fondeo none = []
  par_fondeo (some f) = f.peer

  abbrev pub par_gasto : Option (Gasto T) → Text
  par_gasto none = []
  par_gasto (some g) = g.peer

  unfoldable pub fallar : Clave → (pago : Bool) → Text → Motor T → List Carta × Motor T
  fallar k pago msg m =
      if pago
      then (
        una_carta k (par_gasto (leer_clave k m.gastos)) (chars "spend-error") (poner_aviso k.1 msg),
        record m {
          gastos = cambiar_clave k (λ g. record g { error = some msg; avisar = false }) m.gastos;
        },
      )
      else (
        una_carta k (par_fondeo (leer_clave k m.fondeos)) (chars "fund-error")
            (poner_aviso k.1 msg),
        record m {
          fondeos =
              cambiar_clave k (λ f. record f { error = some msg; espera_moneda = false }) m.fondeos;
        },
      )

  unfoldable pub reiniciar_fondeo_tras_rechazo : Clave → Motor T → List Carta × Motor T
  unfolding limpiar_sesion_fondeo nota
  reiniciar_fondeo_tras_rechazo k m = (
    una_carta k (par_fondeo (leer_clave k m.fondeos)) (chars "fund-abort") (decimal k.1),
    nota k.0 (some k.1) (Texto.falla (chars "fondeo-rechazado"))
        (limpiar_sesion_fondeo k.0 k.1 false m),
  )

  abbrev pub tras_pedir : Clave → Option Fallo × Motor T → Option Fallo × Motor T
  tras_pedir k (some e, m) = (some e, m)
  tras_pedir k (none, m) = (
    none,
    record m {
      lineas = filter (λ l. not (linea_de k.0 (some k.1) l && es_reinicio l.texto)) m.lineas;
    },
  )

  abbrev pub empezar_en :
      Obra → ℕ → Text → Option Partida → Motor T → Option Fallo × List Carta × Motor T
  empezar_en o i yo none m = (some Fallo.sin_partida, [], m)
  empezar_en o i yo (some p) m =
      let par = par_o_otro (par_fondeo (leer_clave (o.id, i) m.fondeos)) (otro_id o yo) in
      let r =
        tras_pedir (o.id, i)
          (insertar_fondeo o i yo false (
            nota o.id (some i) (Texto.falla (chars "fondeo-reinicio"))
              (limpiar_sesion_fondeo o.id i false m))) in
      if not (partida_en_estado p PartidaEstado.encerrando)
      then (some Fallo.no_propuesto, [], m)
      else if is_none (rol_en o yo)
      then (some Fallo.no_participa, [], m)
      else (r.0, una_carta (o.id, i) par (chars "fund-abort") (decimal i), r.1)

  unfoldable pub empezar_fondeo_de_nuevo :
      Obra → ℕ → (yo : Text) → Motor T → Option Fallo × List Carta × Motor T
  unfolding limpiar_sesion_fondeo nota insertar_fondeo
  empezar_fondeo_de_nuevo o i yo m = empezar_en o i yo (get_elem? o.partidas i) m
