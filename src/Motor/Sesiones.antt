-- ===== src/Motor/Sesiones.antt =====
-- caja.rs of the motor: how a funding and a payment begin, and how a funding is dropped.
mod Estado
pub mod Mensajes
pub mod Armado
pub mod Cierre
pub mod Termina
pub mod Textos
pub mod Firmas
pub mod Publica
pub mod Firme
pub mod Lecturas
pub mod Vistas
pub mod Historia
pub mod Recibe
pub mod Valida
pub mod Asiento
pub mod Hechos
pub mod Cartas
pub mod Turnos
pub mod Buzon
pub use Estado.*
use home_builder_pay.Base.{
  ℕ, Bool, true, false, ◌&&◌, ◌||◌, not, Option, none, some, List, [], ◌∷◌, ◌++◌, if◌then◌else◌,
  ◌==◌, any, filter, is_some, is_none, get_elem?, chars, Text, text_eq,
}
use home_builder_pay.Base.Dict.{Dict, contains_key}
use home_builder_pay.Acuerdo.{Persona, Rol, Partida, PartidaEstado, Obra, partida_en_estado}
use home_builder_pay.Acuerdo.Operaciones.{piconero_partida}
use home_builder_pay.Motor.{suma_sat}
use home_builder_pay.Motor.Lineas.{Texto}
use home_builder_pay.Motor.Salidas.{EstadoMonedas, fee_cushion}
use home_builder_pay.Motor.Rastreo.{LibroCaja}
use home_builder_pay.Motor.Avisos.{AvisoFondeo}
use home_builder_pay.Motor.Libros.{Libro, Salida, estado_de}
use home_builder_pay.Motor.Mapa.{Clave, Mapa, leer_clave, poner_clave, sacar_clave}

-- The errors of `insertar_fondeo` and `pedir_gasto`, which the source writes as texts.
pub data Fallo : Type 0 where
  sin_partida no_propuesto no_participa sin_precio sin_trato sin_porcentaje : Fallo

-- `rol_en`, followed by `party_a_rol`.
abbrev pub rol_en : Obra → Text → Option Rol
rol_en o yo =
    if text_eq o.mandante.id yo
    then some Rol.mandante
    else if text_eq o.contratista.id yo
    then some Rol.contratista
    else none

abbrev pub otro_id : Obra → Text → Text
otro_id o yo = if text_eq o.mandante.id yo then o.contratista.id else o.mandante.id

abbrev pub minimo_fondeo : Bool → ℕ → ℕ
minimo_fondeo soy_mandante capital = if soy_mandante then suma_sat capital fee_cushion else capital

abbrev de_monedas : EstadoMonedas → Option AvisoFondeo × Bool
de_monedas EstadoMonedas.libre = (none, false)
de_monedas EstadoMonedas.trabadas = (some AvisoFondeo.trabadas, false)
de_monedas EstadoMonedas.sin_saldo = (some AvisoFondeo.sin_saldo, false)
de_monedas EstadoMonedas.buscando = (none, true)

abbrev pub es_indice : Option ℕ → Option ℕ → Bool
es_indice none none = true
es_indice (some i) (some j) = i == j
es_indice _ _ = false

abbrev pub linea_de : Text → Option ℕ → Linea → Bool
linea_de obra partida l = text_eq l.obra obra && es_indice l.partida partida

module _ {T : Tipos} where
  unfoldable pub clasificar_fondeo : Motor T → Text → ℕ → Option AvisoFondeo × Bool
  clasificar_fondeo m obra minimo =
      if is_none m.wallet
      then (some AvisoFondeo.sin_semilla, false)
      else if not (contains_key obra m.cuentas)
      then (some AvisoFondeo.sin_caja, false)
      else de_monedas (estado_de m.libro m.tip m.retro minimo)

  abbrev pub fondeo_nuevo :
      (peer : Text) (capital : ℕ) (soy_mandante desde_par : Bool)
      → Option AvisoFondeo × Bool
      → Fondeo T
  fondeo_nuevo peer capital soy_mandante desde_par (aviso, espera) = record {
    peer = peer;
    capital = capital;
    soy_mandante = soy_mandante;
    propuesta = none;
    outputs = none;
    esqueleto = none;
    sobre = none;
    blob = none;
    txid = none;
    visto = false;
    error = none;
    aviso = aviso;
    aviso_enviado = not (is_some aviso);
    avisar = not desde_par && not (is_some aviso) && not espera;
    avise_pedir = false;
    espera_moneda = espera;
    dije_busqueda = not espera;
    viene_del_par = desde_par;
    solo_aviso = false;
    par_buscando = false;
    abortar = false;
    gastadas = none;
  }

  abbrev pub fondeo_vacio : Text → (error : Option Text) → Option AvisoFondeo → Fondeo T
  fondeo_vacio peer error aviso = record {
    peer = peer;
    capital = 0;
    soy_mandante = false;
    propuesta = none;
    outputs = none;
    esqueleto = none;
    sobre = none;
    blob = none;
    txid = none;
    visto = false;
    error = error;
    aviso = aviso;
    aviso_enviado = true;
    avisar = false;
    avise_pedir = false;
    espera_moneda = false;
    dije_busqueda = true;
    viene_del_par = true;
    solo_aviso = true;
    par_buscando = false;
    abortar = false;
    gastadas = none;
  }

  abbrev pub insertar_con :
      Obra → ℕ → Text → (desde_par : Bool) → Option ℕ → Motor T → Option Fallo × Motor T
  insertar_con o i yo desde_par none m = (some Fallo.sin_precio, m)
  insertar_con o i yo desde_par (some capital) m =
      let soy_m = text_eq o.mandante.id yo in
      let f =
        fondeo_nuevo (otro_id o yo) capital soy_m desde_par
          (clasificar_fondeo m o.id (minimo_fondeo soy_m capital)) in
      if is_some (leer_clave (o.id, i) m.fondeos)
      then (none, m)
      else (none, record m { fondeos = poner_clave (o.id, i) f m.fondeos })

  abbrev pub insertar_en :
      Obra → ℕ → Text → (desde_par : Bool) → Option Partida → Motor T → Option Fallo × Motor T
  insertar_en o i yo desde_par none m = (some Fallo.sin_partida, m)
  insertar_en o i yo desde_par (some p) m =
      if not (partida_en_estado p PartidaEstado.encerrando)
      then (some Fallo.no_propuesto, m)
      else if is_none (rol_en o yo)
      then (some Fallo.no_participa, m)
      else insertar_con o i yo desde_par (piconero_partida o i) m

  unfoldable pub insertar_fondeo :
      Obra → ℕ → (yo : Text) → (desde_par : Bool) → Motor T → Option Fallo × Motor T
  unfolding clasificar_fondeo
  insertar_fondeo o i yo desde_par m = insertar_en o i yo desde_par (get_elem? o.partidas i) m

  abbrev pub ha_visto : Option (Fondeo T) → Bool
  ha_visto none = false
  ha_visto (some f) = f.visto

  unfoldable pub limpiar_sesion_fondeo : Text → ℕ → (forzar : Bool) → Motor T → Motor T
  limpiar_sesion_fondeo obra i forzar m =
      if ha_visto (leer_clave (obra, i) m.fondeos) && not forzar then m else record m {
        fondeos = sacar_clave (obra, i) m.fondeos;
        lineas = filter (λ l. not (linea_de obra (some i) l)) m.lineas;
      }

  unfoldable pub nota : Text → Option ℕ → Texto → Motor T → Motor T
  nota obra partida texto m = record m {
    lineas =
        filter (λ l. not (linea_de obra partida l)) m.lineas
        ++ record { obra = obra; partida = partida; texto = texto } ∷ [];
  }

  abbrev pub gasto_nuevo :
      (peer : Text) (capital pct : ℕ) (soy_mandante : Bool) (error : Option Text) (avisar : Bool)
      → Gasto T
  gasto_nuevo peer capital pct soy_mandante error avisar = record {
    peer = peer;
    capital = capital;
    pct = pct;
    soy_mandante = soy_mandante;
    propuesta = none;
    session = none;
    signed = none;
    pre_otro = none;
    share_otro = none;
    envie_open = false;
    envie_pre = false;
    envie_share = false;
    blob = none;
    txid = none;
    visto = false;
    error = error;
    avisar = avisar;
  }

  abbrev pub sin_fallo : Option (Gasto T) → Bool
  sin_fallo none = false
  sin_fallo (some g) = is_none g.error

  unfoldable pub freno_gasto : Motor T → Text → Option Text
  freno_gasto m obra =
      if is_none m.wallet
      then some (chars "sin-semilla")
      else if not (contains_key obra m.cuentas)
      then some (chars "sin-caja")
      else if not (contains_key obra m.pares)
      then some (chars "sin-direccion")
      else none

  abbrev pub gasto_con :
      Obra → ℕ → Text → (pct capital : Option ℕ) → Motor T → Option Fallo × Motor T
  gasto_con o i yo none capital m = (some Fallo.sin_porcentaje, m)
  gasto_con o i yo (some pct) none m = (some Fallo.sin_precio, m)
  gasto_con o i yo (some pct) (some capital) m =
      let g =
        gasto_nuevo (otro_id o yo) capital pct (text_eq o.mandante.id yo) (freno_gasto m o.id)
          true in
      if sin_fallo (leer_clave (o.id, i) m.gastos)
      then (none, m)
      else (none, record m { gastos = poner_clave (o.id, i) g m.gastos })

  abbrev pub gasto_en : Obra → ℕ → Text → Option Partida → Motor T → Option Fallo × Motor T
  gasto_en o i yo none m = (some Fallo.sin_partida, m)
  gasto_en o i yo (some p) m =
      if not (partida_en_estado p PartidaEstado.en_trato)
      then (some Fallo.sin_trato, m)
      else if is_none (rol_en o yo)
      then (some Fallo.no_participa, m)
      else gasto_con o i yo p.propuesto (piconero_partida o i) m

  unfoldable pub pedir_gasto : Obra → ℕ → (yo : Text) → Motor T → Option Fallo × Motor T
  unfolding freno_gasto
  pedir_gasto o i yo m = gasto_en o i yo (get_elem? o.partidas i) m
