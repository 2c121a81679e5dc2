-- ===== src/Motor/Sesiones/Mensajes.antt =====
-- caja.rs of the motor, `ingerir`: what the wallet does with each message of the other wallet. How a body
-- is read by JSON, bincode and hex is the parameter `Lector`.
use home_builder_pay.Base.{
  ℕ, Bool, true, false, ◌&&◌, ◌||◌, Option, none, some, List, [], ◌∷◌, if◌then◌else◌, ltb, is_some,
  is_empty, byte_len, chars, Text, text_eq,
}
use home_builder_pay.Precio.{trim}
use home_builder_pay.Acuerdo.{Obra}
use home_builder_pay.Red.{CajaMsg}
use home_builder_pay.Motor.Lineas.{Texto}
use home_builder_pay.Motor.Bytes.{from_utf8, parse_idx}
use home_builder_pay.Motor.Avisos.{AvisoFondeo, aviso_del_otro, codigo_del_otro, partir_aviso, es}
use home_builder_pay.Motor.Libros.{Salida, marcar_gastadas}
use home_builder_pay.Motor.Mapa.{
  Clave, Mapa, leer_clave, poner_clave, cambiar_clave, cambiar_primera, buscar_clave,
}
use home_builder_pay.Motor.Sesiones.Buzon.{
  poner_id, commit, share, view, guardar_par, buffer_dkg, soltar_aviso_ajeno, abrir_fondeo_red,
  abrir_gasto_red,
}
use home_builder_pay.Motor.Sesiones.{
  Tipos, SobreFondeo, SobreGasto, Fondeo, Gasto, Motor, fondeo_vacio, limpiar_sesion_fondeo, nota,
  gasto_nuevo,
}

pub record Lector (T : Tipos) : Type 0 where
  pub sobre_fondeo : List ℕ → Option SobreFondeo
  pub esqueleto : List ℕ → Option T.Esqueleto
  pub sobre_gasto : List ℕ → Option SobreGasto
  pub propuesta_pago : List ℕ → Option T.PropuestaPago
  pub hex_decode : Text → Option (List ℕ)

-- The arms of the `match` on `m.paso`.
pub data PasoCaja : Type 0 where
  direccion dkg_commit dkg_share dkg_view dkg_pedir : PasoCaja
  fund_pedir fund_proposal fund_skeleton fund_tx fund_abort : PasoCaja
  obra_salida partida_salida fund_error : PasoCaja
  spend_pedir spend_open spend_pre spend_share spend_tx spend_error otro_paso : PasoCaja

abbrev elegir : Text → List (Text × PasoCaja) → PasoCaja
elegir s [] = otro_paso
elegir s ((t, p) ∷ ps) = if es s t then p else elegir s ps

unfoldable pub paso_de : Text → PasoCaja
paso_de s = elegir s (
    (chars "direccion", direccion)
    ∷ (chars "dkg-commit", dkg_commit)
    ∷ (chars "dkg-share", dkg_share)
    ∷ (chars "dkg-view", dkg_view)
    ∷ (chars "dkg-pedir", dkg_pedir)
    ∷ (chars "fund-pedir", fund_pedir)
    ∷ (chars "fund-proposal", fund_proposal)
    ∷ (chars "fund-skeleton", fund_skeleton)
    ∷ (chars "fund-tx", fund_tx)
    ∷ (chars "fund-abort", fund_abort)
    ∷ (chars "obra-salida", obra_salida)
    ∷ (chars "partida-salida", partida_salida)
    ∷ (chars "fund-error", fund_error)
    ∷ (chars "spend-pedir", spend_pedir)
    ∷ (chars "spend-open", spend_open)
    ∷ (chars "spend-pre", spend_pre)
    ∷ (chars "spend-share", spend_share)
    ∷ (chars "spend-tx", spend_tx)
    ∷ (chars "spend-error", spend_error)
    ∷ [])

abbrev pub segunda : Option Clave → Option ℕ
segunda none = none
segunda (some k) = some k.1

abbrev pub o_bien : Option ℕ → Option ℕ → Option ℕ
o_bien none j = j
o_bien (some i) j = some i

abbrev pub poner_o_cambiar {ℓ} : {V : Type ℓ} → Clave → (V → V) → V → Mapa V → Mapa V
poner_o_cambiar k f v m =
    if is_some (leer_clave k m) then cambiar_clave k f m else poner_clave k v m

abbrev pub o_vacio : Option (List ℕ) → List ℕ
o_vacio none = []
o_vacio (some b) = b

module _ {T : Tipos} where
  abbrev pub con_sobre : SobreFondeo → Fondeo T → Fondeo T
  con_sobre s f =
      if f.soy_mandante then f else soltar_aviso_ajeno (record f { sobre = some s; error = none })

  -- `f_peer` is always true.
  abbrev pub propuesta_en : CajaMsg → Option SobreFondeo → Motor T → Motor T
  propuesta_en c none m = m
  propuesta_en c (some s) m = record m {
    fondeos = cambiar_primera (λ e. text_eq e.0.0 c.obra) (con_sobre s) m.fondeos;
  }

  abbrev pub de_fondeo : CajaMsg → Clave × Fondeo T → Bool
  de_fondeo c e = text_eq e.0.0 c.obra && text_eq e.1.peer c.de

  abbrev pub de_gasto : CajaMsg → Clave × Gasto T → Bool
  de_gasto c e = text_eq e.0.0 c.obra && text_eq e.1.peer c.de

  abbrev pub con_esqueleto : T.Esqueleto → Fondeo T → Fondeo T
  con_esqueleto s f =
      if f.soy_mandante
      then soltar_aviso_ajeno (record f { esqueleto = some s; error = none })
      else f

  abbrev pub esqueleto_en : CajaMsg → Option T.Esqueleto → Motor T → Motor T
  esqueleto_en c none m = m
  esqueleto_en c (some s) m = record m {
    fondeos = cambiar_primera (de_fondeo c) (con_esqueleto s) m.fondeos;
  }

  abbrev pub salidas_de : Option (Fondeo T) → Option (List Salida)
  salidas_de none = none
  salidas_de (some f) = f.gastadas

  abbrev pub consumir : Option (List Salida) → Motor T → Motor T
  consumir none m = m
  consumir (some us) m = if is_empty us then m else record m { libro = marcar_gastadas us m.libro }

  unfoldable pub consumir_fondeo_personal : Clave → Motor T → Motor T
  consumir_fondeo_personal k m = consumir (salidas_de (leer_clave k m.fondeos)) m

  abbrev pub txid_fondeo : Text → Option Clave → Motor T → Motor T
  txid_fondeo t none m = m
  txid_fondeo t (some k) m = consumir_fondeo_personal k (record m {
    fondeos = cambiar_clave k (λ f. record f { txid = some t; error = none }) m.fondeos;
  })

  abbrev pub txid_en : CajaMsg → (pago : Bool) → Option Text → Motor T → Motor T
  txid_en c pago none m = m
  txid_en c pago (some s) m =
      let t = trim s in
      if ltb (byte_len t) 64
      then m
      else if pago
      then record m {
        gastos =
            cambiar_primera (de_gasto c) (λ g. record g { txid = some t; error = none }) m.gastos;
      }
      else txid_fondeo t (buscar_clave (de_fondeo c) m.fondeos) m

  unfoldable pub tomar_txid : CajaMsg → (pago : Bool) → Motor T → Motor T
  unfolding consumir_fondeo_personal
  tomar_txid c pago m = txid_en c pago (from_utf8 c.cuerpo) m

  abbrev pub con_aviso_par : AvisoFondeo → Fondeo T → Fondeo T
  con_aviso_par a f = record f {
    aviso = some a;
    aviso_enviado = true;
    espera_moneda = false;
    par_buscando = false;
    error = none;
  }

  unfoldable pub poner_aviso_par : Clave → (de : Text) → AvisoFondeo → Motor T → Motor T
  poner_aviso_par k de a m = record m {
    fondeos = poner_o_cambiar k (con_aviso_par a) (fondeo_vacio de none (some a)) m.fondeos;
  }

  abbrev pub con_busqueda : Fondeo T → Fondeo T
  con_busqueda f =
      if is_some f.propuesta || is_some f.sobre || is_some f.txid
      then f
      else record f { par_buscando = true }

  unfoldable pub marcar_busqueda_par : Clave → (de : Text) → Motor T → Motor T
  marcar_busqueda_par k de m = record m {
    fondeos =
        poner_o_cambiar k con_busqueda
          (record (fondeo_vacio de none none) { par_buscando = true; solo_aviso = true }) m.fondeos;
  }

  abbrev pub fallo_gasto : Clave → Text → Text → Motor T → Motor T
  fallo_gasto k de code m = record m {
    gastos =
        poner_o_cambiar k (λ g. record g { error = some (codigo_del_otro code) })
          (gasto_nuevo de 0 0 false (some (codigo_del_otro code)) false) m.gastos;
  }

  abbrev pub fallo_fondeo : Clave → Text → Text → Option AvisoFondeo → Motor T → Motor T
  fallo_fondeo k de code (some a) m = poner_aviso_par k de a m
  fallo_fondeo k de code none m = record m {
    fondeos =
        poner_o_cambiar k (λ f. record f { error = some code; aviso_enviado = true })
          (fondeo_vacio de (some code) none) m.fondeos;
  }

  abbrev pub fallo_en : CajaMsg → (pago : Bool) → Text → Option ℕ → Motor T → Motor T
  fallo_en c pago code none m = m
  fallo_en c pago code (some i) m =
      if pago
      then fallo_gasto (c.obra, i) c.de code m
      else if es code (chars "buscando")
      then marcar_busqueda_par (c.obra, i) c.de m
      else fallo_fondeo (c.obra, i) c.de code (aviso_del_otro code) m

  abbrev pub primera_de : CajaMsg → (pago : Bool) → Motor T → Option ℕ
  primera_de c pago m = segunda (
      if pago
      then buscar_clave (λ e. text_eq e.0.0 c.obra) m.gastos
      else buscar_clave (λ e. text_eq e.0.0 c.obra) m.fondeos)

  abbrev pub fallo_txt : CajaMsg → (pago : Bool) → Option Text → Motor T → Motor T
  fallo_txt c pago none m = m
  fallo_txt c pago (some s) m =
      let (i, code) = partir_aviso s in fallo_en c pago code (o_bien i (primera_de c pago m)) m

  unfoldable pub fallo_par : CajaMsg → (pago : Bool) → Motor T → Motor T
  unfolding poner_aviso_par marcar_busqueda_par
  fallo_par c pago m = fallo_txt c pago (from_utf8 c.cuerpo) m

  abbrev pub con_apertura : T.PropuestaPago → List ℕ → Gasto T → Gasto T
  con_apertura p pre g =
      if g.soy_mandante
      then g
      else record g { propuesta = some p; pre_otro = some pre; error = none }

  abbrev pub apertura_con : CajaMsg → Option T.PropuestaPago → Option (List ℕ) → Motor T → Motor T
  apertura_con c (some p) (some pre) m = record m {
    gastos = cambiar_primera (de_gasto c) (con_apertura p pre) m.gastos;
  }
  apertura_con c _ _ m = m

  abbrev pub direccion_en : CajaMsg → Option Text → Motor T → Motor T
  direccion_en c none m = m
  direccion_en c (some s) m = guardar_par c.obra (trim s) m

  -- `fund-abort` and `partida-salida`.
  abbrev pub soltar_en : CajaMsg → Text → Option ℕ → Motor T → Motor T
  soltar_en c code none m = m
  soltar_en c code (some i) m =
      nota c.obra (some i) (Texto.falla code) (limpiar_sesion_fondeo c.obra i false m)

  module _ (r : Lector T) where
    abbrev pub apertura_en : CajaMsg → Option SobreGasto → Motor T → Motor T
    apertura_en c none m = m
    apertura_en c (some s) m =
        apertura_con c (r.propuesta_pago (o_vacio (r.hex_decode s.proposal))) (r.hex_decode s.pre) m

    unfoldable pub tomar : PasoCaja → CajaMsg → (yo : Text) → List Obra → Motor T → Motor T
    unfolding abrir_fondeo_red tomar_txid fallo_par limpiar_sesion_fondeo nota
    tomar direccion c yo obras m = direccion_en c (from_utf8 c.cuerpo) m
    tomar dkg_commit c yo obras m = buffer_dkg c.obra commit c.cuerpo m
    tomar dkg_share c yo obras m = buffer_dkg c.obra share c.cuerpo m
    tomar dkg_view c yo obras m = buffer_dkg c.obra view c.cuerpo m
    tomar dkg_pedir c yo obras m = record m { pedir_view = poner_id c.obra m.pedir_view }
    tomar fund_pedir c yo obras m = abrir_fondeo_red c obras yo m
    tomar fund_proposal c yo obras m = propuesta_en c (r.sobre_fondeo c.cuerpo) m
    tomar fund_skeleton c yo obras m = esqueleto_en c (r.esqueleto c.cuerpo) m
    tomar fund_tx c yo obras m = tomar_txid c false m
    tomar fund_abort c yo obras m = soltar_en c (chars "fondeo-abortado-par") (parse_idx c.cuerpo) m
    tomar obra_salida c yo obras m = nota c.obra none (Texto.falla (chars "par-salio-obra")) m
    tomar partida_salida c yo obras m =
        soltar_en c (chars "par-salio-partida") (parse_idx c.cuerpo) m
    tomar fund_error c yo obras m = fallo_par c false m
    tomar spend_pedir c yo obras m = abrir_gasto_red c obras yo m
    tomar spend_open c yo obras m = apertura_en c (r.sobre_gasto c.cuerpo) m
    tomar spend_pre c yo obras m = record m {
      gastos = cambiar_primera (de_gasto c) (λ g. record g { pre_otro = some c.cuerpo }) m.gastos;
    }
    tomar spend_share c yo obras m = record m {
      gastos = cambiar_primera (de_gasto c) (λ g. record g { share_otro = some c.cuerpo }) m.gastos;
    }
    tomar spend_tx c yo obras m = tomar_txid c true m
    tomar spend_error c yo obras m = fallo_par c true m
    tomar otro_paso c yo obras m = m

    unfoldable pub ingerir : List CajaMsg → (yo : Text) → List Obra → Motor T → Motor T
    unfolding tomar
    ingerir [] yo obras m = m
    ingerir (c ∷ cs) yo obras m =
        ingerir cs yo obras (if text_eq c.de yo then m else tomar (paso_de c.paso) c yo obras m)
