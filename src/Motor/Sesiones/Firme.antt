-- ===== src/Motor/Sesiones/Firme.antt =====
-- What no message of the other party takes away.
use home_builder_pay.Base.{
  ℕ, ◌≡◌, refl, inl, inr, Bool, true, false, ◌&&◌, not, Option, none, some, List, [], ◌∷◌, arith,
  if◌then◌else◌, any, all, is_some, is_none, get_elem?, Bool-cases, Text, text_eq, chars, ltb,
  byte_len,
}
use home_builder_pay.Base.Dict.{get}
use home_builder_pay.Precio.{trim}
use home_builder_pay.Acuerdo.{Partida, Obra}
use home_builder_pay.Acuerdo.Operaciones.{piconero_partida}
use home_builder_pay.Red.{CajaMsg}
use home_builder_pay.Motor.Bytes.{from_utf8, parse_idx}
use home_builder_pay.Motor.Avisos.{AvisoFondeo, aviso_del_otro, partir_aviso, es}
use home_builder_pay.Motor.Mapa.{
  Clave, Mapa, leer_clave, sacar_clave, buscar_clave, clave_eq, en_clave, en_clave-cambiar_clave,
  en_clave-cambiar_primera, en_clave-poner_clave, en_clave-sacar_clave, en_clave-igual,
}
use home_builder_pay.Motor.Sesiones.{
  Tipos, SobreFondeo, SobreGasto, Fondeo, Motor, insertar_fondeo, insertar_en, insertar_con,
  limpiar_sesion_fondeo, nota,
}
use home_builder_pay.Motor.Sesiones.Buzon.{
  soltar_aviso_ajeno, ParteDe, abrir_con, abrir_en, abrir_fondeo_red, gasto_red, abrir_gasto_red,
  buffer_dkg, guardar_par, buscar_obra,
}
use home_builder_pay.Motor.Sesiones.Mensajes.{
  Lector, PasoCaja, con_sobre, propuesta_en, de_fondeo, con_esqueleto, esqueleto_en,
  consumir_fondeo_personal, txid_fondeo, txid_en, tomar_txid, poner_o_cambiar, con_aviso_par,
  poner_aviso_par, con_busqueda, marcar_busqueda_par, fallo_fondeo, fallo_en, fallo_txt, fallo_par,
  primera_de, o_bien, direccion_en, soltar_en, apertura_con, apertura_en, tomar,
}
use home_builder_pay.Motor.Sesiones.Recibe.{
  pedir_gasto-fondeos, consumir-fondeos, buffer_en-fondeos,
}

abbrev esta_en : Option Text → List Text → Bool
esta_en none ts = false
esta_en (some t) ts = any (text_eq t) ts

-- A funding that the wallet has marked as seen in the chain, with one of the transactions `ts`. A session
-- that only shows a notice is not one.
abbrev pub es_firme : {T : Tipos} → List Text → Fondeo T → Bool
es_firme ts f = f.visto && not f.solo_aviso && esta_en f.txid ts

-- The transaction that a message names: of a `fund-tx`, its text, if it has 64 bytes or more.
abbrev nombrada : Option Text → List Text
nombrada none = []
nombrada (some s) = if ltb (byte_len (trim s)) 64 then [] else trim s ∷ []

abbrev pub nombra : PasoCaja → CajaMsg → List Text
nombra PasoCaja.fund_tx c = nombrada (from_utf8 c.cuerpo)
nombra _ c = []

module _ {T : Tipos} (ts : List Text) (k : Clave) where
  abbrev pub Firme : Motor T → Type 0
  Firme m = en_clave (es_firme ts) k m.fondeos ≡ true

  limpiar_sesion_fondeo-Firme :
      (obra : Text) (i : ℕ) (m : Motor T) → Firme m → Firme (limpiar_sesion_fondeo obra i false m)
  unfolding limpiar_sesion_fondeo
  limpiar_sesion_fondeo-Firme obra i m h = elim (Bool-cases (clave_eq k (obra, i))) [
    | inl e ↦ ground (arith, h, en_clave-igual (es_firme ts) k (obra, i) m.fondeos e)
    | inr e ↦ ground (arith, h, en_clave-sacar_clave (es_firme ts) k (obra, i) m.fondeos e h)
  ]

  insertar_con-Firme :
      (o : Obra) (i : ℕ) (yo : Text) (d : Bool) (c : Option ℕ) (m : Motor T)
      → Firme m
      → Firme (insertar_con o i yo d c m).1
  insertar_con-Firme o i yo d none m h = h
  insertar_con-Firme o i yo d (some c) m h =
      elim (Bool-cases (is_some (leer_clave (o.id, i) m.fondeos))) [
        | inl e ↦ rw e h
        | inr e ↦ rw e (en_clave-poner_clave (es_firme ts) k (o.id, i) _ m.fondeos e h)
      ]

  insertar_fondeo-Firme :
      (o : Obra) (i : ℕ) (yo : Text) (d : Bool) (m : Motor T)
      → Firme m
      → Firme (insertar_fondeo o i yo d m).1
  unfolding insertar_fondeo
  insertar_fondeo-Firme o i yo d m h = con_partida (get_elem? o.partidas i)
    where
      con_partida : (p : Option Partida) → Firme (insertar_en o i yo d p m).1
      con_partida none = h
      con_partida (some p) =
          ground (arith, insertar_con-Firme o i yo d (piconero_partida o i) m h, h)

  soltar_aviso_ajeno-firme :
      (f : Fondeo T) → es_firme ts f ≡ true → es_firme ts (soltar_aviso_ajeno f) ≡ true
  soltar_aviso_ajeno-firme f h = h

  abrir_con-Firme :
      (o : Obra) (i : ℕ) (yo : Text) (q : Option (Fondeo T)) (m : Motor T)
      → leer_clave (o.id, i) m.fondeos ≡ q
      → Firme m
      → Firme (abrir_con o i yo q m)
  abrir_con-Firme o i yo none m e h = insertar_fondeo-Firme o i yo true m h
  abrir_con-Firme o i yo (some f) m e h = elim (Bool-cases (f.solo_aviso && is_none f.txid)) [
    | inl s ↦ rw s (
        insertar_fondeo-Firme o i yo true (record m { fondeos = sacar_clave (o.id, i) m.fondeos })
          (en_clave-sacar_clave (es_firme ts) k (o.id, i) m.fondeos (otra s) h))
    | inr s ↦ rw s (
        en_clave-cambiar_clave (es_firme ts) k (o.id, i) soltar_aviso_ajeno m.fondeos
          soltar_aviso_ajeno-firme h)
  ]
    where
      otra : (f.solo_aviso && is_none f.txid) ≡ true → clave_eq k (o.id, i) ≡ false
      otra s = elim (Bool-cases (clave_eq k (o.id, i))) [
        | inl c ↦
            absurd (ground (arith, s, e, h, en_clave-igual (es_firme ts) k (o.id, i) m.fondeos c))
        | inr c ↦ c
      ]

  abrir_en-Firme :
      (yo : Text) (i : Option ℕ) (o : Option Obra) (m : Motor T)
      → Firme m
      → Firme (abrir_en yo i o m)
  abrir_en-Firme yo none o m h = h
  abrir_en-Firme yo (some i) none m h = h
  abrir_en-Firme yo (some i) (some o) m h =
      abrir_con-Firme o i yo (leer_clave (o.id, i) m.fondeos) m refl h

  gasto_red-Firme :
      (yo : Text) (i : Option ℕ) (o : Option Obra) (m : Motor T)
      → Firme m
      → Firme (gasto_red yo i o m)
  gasto_red-Firme yo none o m h = h
  gasto_red-Firme yo (some i) none m h = h
  gasto_red-Firme yo (some i) (some o) m h =
      elim (Bool-cases (is_some (leer_clave (o.id, i) m.gastos))) [
        | inl e ↦ rw e h
        | inr e ↦ rw (e, pedir_gasto-fondeos o i yo m) h
      ]

  poner_o_cambiar-firme :
      (j : Clave) (f : Fondeo T → Fondeo T) (v : Fondeo T) (m : Mapa (Fondeo T))
      → ((x : Fondeo T) → es_firme ts x ≡ true → es_firme ts (f x) ≡ true)
      → en_clave (es_firme ts) k m ≡ true
      → en_clave (es_firme ts) k (poner_o_cambiar j f v m) ≡ true
  poner_o_cambiar-firme j f v m g h = elim (Bool-cases (is_some (leer_clave j m))) [
    | inl e ↦ rw e (en_clave-cambiar_clave (es_firme ts) k j f m g h)
    | inr e ↦ rw e (en_clave-poner_clave (es_firme ts) k j v m e h)
  ]

  fallo_fondeo-Firme :
      (j : Clave) (de code : Text) (a : Option AvisoFondeo) (m : Motor T)
      → Firme m
      → Firme (fallo_fondeo j de code a m)
  unfolding poner_aviso_par
  fallo_fondeo-Firme j de code (some a) m h =
      poner_o_cambiar-firme j (con_aviso_par a) _ m.fondeos (λ x g. g) h
  fallo_fondeo-Firme j de code none m h =
      poner_o_cambiar-firme j (λ f. record f { error = some code; aviso_enviado = true }) _
        m.fondeos (λ x g. g) h

  fallo_en-Firme :
      (c : CajaMsg) (pago : Bool) (code : Text) (i : Option ℕ) (m : Motor T)
      → Firme m
      → Firme (fallo_en c pago code i m)
  unfolding marcar_busqueda_par
  fallo_en-Firme c pago code none m h = h
  fallo_en-Firme c true code (some i) m h = h
  fallo_en-Firme c false code (some i) m h = elim (Bool-cases (es code (chars "buscando"))) [
    | inl e ↦
        rw e
          (poner_o_cambiar-firme (c.obra, i) con_busqueda _ m.fondeos (λ x g. ground (arith, g)) h)
    | inr e ↦ rw e (fallo_fondeo-Firme (c.obra, i) c.de code (aviso_del_otro code) m h)
  ]

  fallo_txt-Firme :
      (c : CajaMsg) (pago : Bool) (t : Option Text) (m : Motor T)
      → Firme m
      → Firme (fallo_txt c pago t m)
  fallo_txt-Firme c pago none m h = h
  fallo_txt-Firme c pago (some s) m h =
      fallo_en-Firme c pago (partir_aviso s).1 (o_bien (partir_aviso s).0 (primera_de c pago m)) m h

  propuesta_en-Firme :
      (c : CajaMsg) (s : Option SobreFondeo) (m : Motor T) → Firme m → Firme (propuesta_en c s m)
  propuesta_en-Firme c none m h = h
  propuesta_en-Firme c (some s) m h =
      en_clave-cambiar_primera (es_firme ts) k _ (con_sobre s) m.fondeos (λ x g. ground (arith, g))
        h

  esqueleto_en-Firme :
      (c : CajaMsg) (s : Option T.Esqueleto) (m : Motor T) → Firme m → Firme (esqueleto_en c s m)
  esqueleto_en-Firme c none m h = h
  esqueleto_en-Firme c (some s) m h =
      en_clave-cambiar_primera (es_firme ts) k (de_fondeo c) (con_esqueleto s) m.fondeos
        (λ x g. ground (arith, g)) h

  txid_fondeo-Firme :
      (t : Text) (j : Option Clave) (m : Motor T)
      → any (text_eq t) ts ≡ true
      → Firme m
      → Firme (txid_fondeo t j m)
  unfolding consumir_fondeo_personal
  txid_fondeo-Firme t none m e h = h
  txid_fondeo-Firme t (some j) m e h = rw (consumir-fondeos _ _) (
      en_clave-cambiar_clave (es_firme ts) k j (λ f. record f { txid = some t; error = none })
        m.fondeos (λ x g. ground (arith, g, e)) h)

  txid_en-Firme :
      (c : CajaMsg) (pago : Bool) (t : Option Text) (m : Motor T)
      → all (λ x. any (text_eq x) ts) (if pago then [] else nombrada t) ≡ true
      → Firme m
      → Firme (txid_en c pago t m)
  txid_en-Firme c pago none m n h = h
  txid_en-Firme c true (some s) m n h = ground (arith, h)
  txid_en-Firme c false (some s) m n h = elim (Bool-cases (ltb (byte_len (trim s)) 64)) [
    | inl e ↦ rw e h
    | inr e ↦
        rw e (
          txid_fondeo-Firme (trim s) (buscar_clave (de_fondeo c) m.fondeos) m (ground (arith, n)) h)
  ]

  soltar_en-Firme :
      (c : CajaMsg) (code : Text) (i : Option ℕ) (m : Motor T)
      → Firme m
      → Firme (soltar_en c code i m)
  unfolding nota
  soltar_en-Firme c code none m h = h
  soltar_en-Firme c code (some i) m h = limpiar_sesion_fondeo-Firme c.obra i m h

  buffer_dkg-Firme :
      (obra : Text) (p : ParteDe) (b : List ℕ) (m : Motor T)
      → Firme m
      → Firme (buffer_dkg obra p b m)
  unfolding buffer_dkg
  buffer_dkg-Firme obra p b m h = ground (arith, h, buffer_en-fondeos obra p b (get obra m.dkg) m)

  direccion_en-Firme :
      (c : CajaMsg) (t : Option Text) (m : Motor T) → Firme m → Firme (direccion_en c t m)
  unfolding guardar_par
  direccion_en-Firme c none m h = h
  direccion_en-Firme c (some s) m h = ground (arith, h)

  apertura_con-Firme :
      (c : CajaMsg) (p : Option T.PropuestaPago) (q : Option (List ℕ)) (m : Motor T)
      → Firme m
      → Firme (apertura_con c p q m)
  apertura_con-Firme c none q m h = h
  apertura_con-Firme c (some p) none m h = h
  apertura_con-Firme c (some p) (some q) m h = h

  module _ (r : Lector T) where
    apertura_en-Firme :
        (c : CajaMsg) (s : Option SobreGasto) (m : Motor T) → Firme m → Firme (apertura_en r c s m)
    apertura_en-Firme c none m h = h
    apertura_en-Firme c (some s) m h = apertura_con-Firme c _ _ m h

    pub tomar-Firme :
        (p : PasoCaja) (c : CajaMsg) (yo : Text) (obras : List Obra) (m : Motor T)
        → all (λ x. any (text_eq x) ts) (nombra p c) ≡ true
        → Firme m
        → Firme (tomar r p c yo obras m)
    unfolding tomar abrir_fondeo_red abrir_gasto_red tomar_txid fallo_par nota
    tomar-Firme PasoCaja.direccion c yo obras m n h = direccion_en-Firme c (from_utf8 c.cuerpo) m h
    tomar-Firme PasoCaja.dkg_commit c yo obras m n h =
        buffer_dkg-Firme c.obra ParteDe.commit c.cuerpo m h
    tomar-Firme PasoCaja.dkg_share c yo obras m n h =
        buffer_dkg-Firme c.obra ParteDe.share c.cuerpo m h
    tomar-Firme PasoCaja.dkg_view c yo obras m n h =
        buffer_dkg-Firme c.obra ParteDe.view c.cuerpo m h
    tomar-Firme PasoCaja.dkg_pedir c yo obras m n h = h
    tomar-Firme PasoCaja.fund_pedir c yo obras m n h =
        abrir_en-Firme yo (parse_idx c.cuerpo) (buscar_obra c.obra obras) m h
    tomar-Firme PasoCaja.fund_proposal c yo obras m n h =
        propuesta_en-Firme c (r.sobre_fondeo c.cuerpo) m h
    tomar-Firme PasoCaja.fund_skeleton c yo obras m n h =
        esqueleto_en-Firme c (r.esqueleto c.cuerpo) m h
    tomar-Firme PasoCaja.fund_tx c yo obras m n h = txid_en-Firme c false (from_utf8 c.cuerpo) m n h
    tomar-Firme PasoCaja.fund_abort c yo obras m n h =
        soltar_en-Firme c (chars "fondeo-abortado-par") (parse_idx c.cuerpo) m h
    tomar-Firme PasoCaja.obra_salida c yo obras m n h = h
    tomar-Firme PasoCaja.partida_salida c yo obras m n h =
        soltar_en-Firme c (chars "par-salio-partida") (parse_idx c.cuerpo) m h
    tomar-Firme PasoCaja.fund_error c yo obras m n h =
        fallo_txt-Firme c false (from_utf8 c.cuerpo) m h
    tomar-Firme PasoCaja.spend_pedir c yo obras m n h =
        gasto_red-Firme yo (parse_idx c.cuerpo) (buscar_obra c.obra obras) m h
    tomar-Firme PasoCaja.spend_open c yo obras m n h =
        apertura_en-Firme c (r.sobre_gasto c.cuerpo) m h
    tomar-Firme PasoCaja.spend_pre c yo obras m n h = h
    tomar-Firme PasoCaja.spend_share c yo obras m n h = h
    tomar-Firme PasoCaja.spend_tx c yo obras m n h =
        txid_en-Firme c true (from_utf8 c.cuerpo) m refl h
    tomar-Firme PasoCaja.spend_error c yo obras m n h =
        fallo_txt-Firme c true (from_utf8 c.cuerpo) m h
    tomar-Firme PasoCaja.otro_paso c yo obras m n h = h
