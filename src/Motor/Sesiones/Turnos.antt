-- ===== src/Motor/Sesiones/Turnos.antt =====
-- caja.rs of the motor: what a tick changes in the sessions of the wallet, and the facts that it gives to
-- the job. Whether the last attempt of a session is long enough ago is the parameter `frio`.
use home_builder_pay.Base.{
  ℕ, ◌-◌, Bool, true, false, ◌&&◌, ◌||◌, not, Option, none, some, List, [], ◌∷◌, ◌++◌,
  if◌then◌else◌, ltb, ◌==◌, any, filter, is_some, is_none, get_elem?, Text, text_eq,
}
use home_builder_pay.Base.Dict.{contains_key}
use home_builder_pay.Acuerdo.{
  Persona, Rol, Partida, PartidaEstado, Obra, partida_en_estado, rol_num,
}
use home_builder_pay.Motor.{max_historia}
use home_builder_pay.Motor.Salidas.{EstadoMonedas}
use home_builder_pay.Motor.Avisos.{AvisoFondeo}
use home_builder_pay.Motor.Libros.{estado_de, salida_libre_id}
use home_builder_pay.Motor.Mapa.{Clave, Mapa, cambiar_clave, buscar_clave}
use home_builder_pay.Motor.Sesiones.{Tipos, Fondeo, Gasto, Motor, rol_en, minimo_fondeo}
use home_builder_pay.Motor.Sesiones.Buzon.{buscar_obra}

pub record Hecho : Type 0 where
  pub obra : Text
  pub partida : ℕ
  pub fondeo : Option Text
  pub pago : Option Text

-- A job and an installment of it that are there, in another state than `e`.
abbrev pub muerta_en : PartidaEstado → Option Partida → Bool
muerta_en e none = false
muerta_en e (some p) = not (partida_en_estado p e)

abbrev pub muerta_de : PartidaEstado → ℕ → Option Obra → Bool
muerta_de e i none = false
muerta_de e i (some o) = muerta_en e (get_elem? o.partidas i)

abbrev pub muerta : PartidaEstado → List Obra → Clave → Bool
muerta e obras k = muerta_de e k.1 (buscar_obra k.0 obras)

abbrev pub por_otro : Option Persona → Text → Bool
por_otro none yo = false
por_otro (some q) yo = not (text_eq q.id yo)

abbrev pub mismo_rol : Option Rol → Option Rol → Bool
mismo_rol none none = true
mismo_rol (some a) (some b) = rol_num a == rol_num b
mismo_rol _ _ = false

abbrev pub hecho_fondeo : Clave → (yo : Text) → Text → Option Partida → List Hecho
hecho_fondeo k yo t none = []
hecho_fondeo k yo t (some p) =
    if partida_en_estado p PartidaEstado.encerrando && por_otro p.encerrado_por yo
    then record { obra = k.0; partida = k.1; fondeo = some t; pago = none } ∷ []
    else []

abbrev pub hecho_pago : Clave → (yo : Text) → Text → Obra → Option Partida → List Hecho
hecho_pago k yo t o none = []
hecho_pago k yo t o (some p) =
    if partida_en_estado p PartidaEstado.en_trato && mismo_rol p.turno (rol_en o yo)
    then record { obra = k.0; partida = k.1; fondeo = none; pago = some t } ∷ []
    else []

abbrev pub fondeo_en : Clave → (yo : Text) → Option Text → Option Obra → List Hecho
fondeo_en k yo (some t) (some o) = hecho_fondeo k yo t (get_elem? o.partidas k.1)
fondeo_en k yo _ _ = []

abbrev pub pago_en : Clave → (yo : Text) → Option Text → Option Obra → List Hecho
pago_en k yo (some t) (some o) = hecho_pago k yo t o (get_elem? o.partidas k.1)
pago_en k yo _ _ = []

-- A loop over the keys that writes to each session.
unfoldable pub cada {ℓ} : {V : Type ℓ} → (Clave → V → V) → Mapa V → Mapa V
cada f [] = []
cada f ((k, v) ∷ m) = (k, f k v) ∷ cada f m

abbrev pub buscando_en : EstadoMonedas → Bool
buscando_en EstadoMonedas.buscando = true
buscando_en _ = false

module _ {T : Tipos} where
  unfoldable pub limpiar_resueltos : List Obra → Motor T → Motor T
  limpiar_resueltos obras m = record m {
    fondeos = filter (λ e. not (muerta PartidaEstado.encerrando obras e.0)) m.fondeos;
    gastos = filter (λ e. not (muerta PartidaEstado.en_trato obras e.0)) m.gastos;
  }

  abbrev pub minimo_de : Fondeo T → ℕ
  minimo_de f = minimo_fondeo f.soy_mandante f.capital

  abbrev pub hay_salida : Motor T → Fondeo T → Bool
  hay_salida m f = is_some (salida_libre_id m.libro m.tip (minimo_de f))

  abbrev pub suelta_aviso : Motor T → Clave → Fondeo T → Option AvisoFondeo → Bool
  suelta_aviso m k f (some AvisoFondeo.sin_semilla) = is_some m.wallet && hay_salida m f
  suelta_aviso m k f (some AvisoFondeo.sin_caja) =
      contains_key k.0 m.cuentas && is_some m.wallet && hay_salida m f
  suelta_aviso m k f (some AvisoFondeo.trabadas) = hay_salida m f
  suelta_aviso m k f (some AvisoFondeo.sin_saldo) = hay_salida m f
  suelta_aviso m k f _ = false

  abbrev pub soltar_uno : Motor T → Clave → Fondeo T → Fondeo T
  soltar_uno m k f =
      if f.solo_aviso || is_some f.txid || not (suelta_aviso m k f f.aviso) then f else record f {
        aviso = none;
        aviso_enviado = true;
        espera_moneda = false;
        avisar =
            if is_none f.propuesta && is_none f.sobre && not f.abortar
            then not f.viene_del_par
            else f.avisar;
      }

  unfoldable pub soltar_avisos_con_moneda : Motor T → Motor T
  unfolding cada
  soltar_avisos_con_moneda m = record m { fondeos = cada (soltar_uno m) m.fondeos }

  abbrev pub habilitar_uno : Motor T → Fondeo T → Fondeo T
  habilitar_uno m f =
      if f.solo_aviso || f.abortar || is_some f.txid || is_some f.aviso
      then f
      else if not f.espera_moneda
      then f
      else if not (hay_salida m f)
      then f
      else record f { espera_moneda = false; avisar = not f.viene_del_par }

  unfoldable pub habilitar_pedidos : Motor T → Motor T
  unfolding cada
  habilitar_pedidos m = record m { fondeos = cada (λ k. habilitar_uno m) m.fondeos }

  abbrev pub falta_parte : Fondeo T → Bool
  falta_parte f =
      if f.soy_mandante then is_none f.propuesta else is_some f.sobre && is_none f.esqueleto

  -- What `fondeo_sin_moneda` lists.
  abbrev pub sin_moneda : Motor T → Clave × Fondeo T → Bool
  sin_moneda m e =
      not (e.1.solo_aviso || is_some e.1.txid || is_some e.1.error || is_some e.1.aviso)
      && (e.1.espera_moneda || falta_parte e.1)
      && not (hay_salida m e.1)

  unfoldable pub fondeo_sin_moneda : Motor T → Mapa (Fondeo T)
  fondeo_sin_moneda m = filter (sin_moneda m) m.fondeos

  abbrev pub historia_en : Option ℕ → Motor T → Motor T
  historia_en none m = m
  historia_en (some tip) m =
      let quiere =
        any (λ e. buscando_en (estado_de m.libro m.tip m.retro (minimo_de e.1)))
          (fondeo_sin_moneda m) in
      if ltb 0 m.retro || not m.libro.listo || ltb m.libro.hasta tip
      then m
      else if quiere && ltb (tip - max_historia) m.libro.desde
      then record m { retro = 200 }
      else m

  unfoldable pub empujar_historia : Motor T → Motor T
  unfolding fondeo_sin_moneda
  empujar_historia m = historia_en m.tip m

  abbrev pub cierre_con : EstadoMonedas → Fondeo T → Fondeo T
  cierre_con EstadoMonedas.trabadas f = record f {
    aviso = some AvisoFondeo.trabadas;
    aviso_enviado = false;
    espera_moneda = false;
  }
  cierre_con EstadoMonedas.sin_saldo f = record f {
    aviso = some AvisoFondeo.sin_saldo;
    aviso_enviado = false;
    espera_moneda = false;
  }
  cierre_con _ f = f

  -- The sessions in question have no notice yet.
  abbrev pub cerrar_uno : Motor T → Clave → Fondeo T → Fondeo T
  cerrar_uno m k f =
      if sin_moneda m (k, f)
      then cierre_con (estado_de m.libro m.tip m.retro (minimo_de f)) f
      else f

  unfoldable pub cerrar_busqueda_vacia : Motor T → Motor T
  unfolding cada
  cerrar_busqueda_vacia m = record m { fondeos = cada (cerrar_uno m) m.fondeos }

  -- `Listo::Visto`
  unfoldable pub recibir_visto : Clave → (pago si : Bool) → Motor T → Motor T
  recibir_visto k pago si m =
      if pago
      then record m {
        gastos =
            cambiar_clave k (λ g. record g { visto = si; error = if si then none else g.error })
              m.gastos;
      }
      else record m {
        fondeos =
            cambiar_clave k (λ f. record f { visto = si; error = if si then none else f.error })
              m.fondeos;
      }

  abbrev pub elegible : Motor T → Clave × Fondeo T → Bool
  elegible m e =
      falta_parte e.1
      && not e.1.solo_aviso
      && not e.1.espera_moneda
      && is_none e.1.txid
      && is_none e.1.error
      && is_none e.1.aviso
      && hay_salida m e.1

  abbrev pub elegible_pago : Motor T → Clave × Gasto T → Bool
  elegible_pago m e =
      e.1.soy_mandante
      && is_none e.1.propuesta
      && is_none e.1.txid
      && is_none e.1.error
      && contains_key e.0.0 m.cuentas

  -- `frio`: whether the last attempt of a session is twenty seconds ago.
  unfoldable pub busca_entradas : (Clave → Bool) → (pago : Bool) → Motor T → Option Clave
  busca_entradas frio pago m =
      if pago
      then buscar_clave (λ e. elegible_pago m e && frio e.0) m.gastos
      else buscar_clave (λ e. elegible m e && frio e.0) m.fondeos

  -- `hechos`
  unfoldable pub hechos_fondeo : (yo : Text) → List Obra → Mapa (Fondeo T) → List Hecho
  hechos_fondeo yo obras [] = []
  hechos_fondeo yo obras ((k, f) ∷ m) =
      (if f.visto then fondeo_en k yo f.txid (buscar_obra k.0 obras) else [])
      ++ hechos_fondeo yo obras m

  unfoldable pub hechos_pago : (yo : Text) → List Obra → Mapa (Gasto T) → List Hecho
  hechos_pago yo obras [] = []
  hechos_pago yo obras ((k, g) ∷ m) =
      (if g.visto then pago_en k yo g.txid (buscar_obra k.0 obras) else [])
      ++ hechos_pago yo obras m

  unfoldable pub hechos : (yo : Text) → List Obra → Motor T → List Hecho
  unfolding hechos_fondeo hechos_pago
  hechos yo obras m = hechos_fondeo yo obras m.fondeos ++ hechos_pago yo obras m.gastos
