-- ===== src/Motor/Sesiones/Recibe.antt =====
-- The messages of the other party keep the sessions sane.
use home_builder_pay.Base.{
  ℕ, ◌≡◌, refl, inl, inr, Bool, true, false, ◌&&◌, not, Option, none, some, List, [], ◌∷◌, arith,
  if◌then◌else◌, is_some, is_none, get_elem?, Bool-cases, Text, text_eq, chars, ltb, byte_len,
}
use home_builder_pay.Base.Dict.{get}
use home_builder_pay.Precio.{trim}
use home_builder_pay.Acuerdo.{Partida, Obra}
use home_builder_pay.Acuerdo.Operaciones.{piconero_partida}
use home_builder_pay.Red.{CajaMsg}
use home_builder_pay.Motor.Bytes.{from_utf8, parse_idx}
use home_builder_pay.Motor.Avisos.{AvisoFondeo, aviso_del_otro, partir_aviso, es}
use home_builder_pay.Motor.Libros.{Salida}
use home_builder_pay.Motor.Mapa.{
  Clave, Mapa, leer_clave, sacar_clave, buscar_clave, cambiar_primera, clave_eq, Todas,
  Todas-poner_clave, Todas-filter, Todas-cambiar_clave, Todas-cambiar_primera,
}
use home_builder_pay.Motor.Sesiones.{
  Tipos, SobreFondeo, SobreGasto, DkgRun, Fondeo, Motor, limpiar_sesion_fondeo, nota, pedir_gasto,
  gasto_en, gasto_con,
}
use home_builder_pay.Motor.Sesiones.Buzon.{
  soltar_aviso_ajeno, ParteDe, abrir_con, abrir_en, abrir_fondeo_red, gasto_red, abrir_gasto_red,
  buffer_en, buffer_dkg, guardar_par, buscar_obra,
}
use home_builder_pay.Motor.Sesiones.Mensajes.{
  Lector, PasoCaja, paso_de, de_gasto, con_sobre, propuesta_en, de_fondeo, con_esqueleto,
  esqueleto_en, consumir, consumir_fondeo_personal, txid_fondeo, txid_en, tomar_txid,
  poner_o_cambiar, con_aviso_par, poner_aviso_par, con_busqueda, marcar_busqueda_par, fallo_fondeo,
  fallo_en, fallo_txt, fallo_par, primera_de, o_bien, direccion_en, soltar_en, apertura_con,
  apertura_en, tomar, ingerir,
}
use home_builder_pay.Motor.Sesiones.Valida.{
  sana, Sana, Sanas, fondeo_vacio-sana, insertar_fondeo-Sanas, soltar_aviso_ajeno-Sana,
}

module _ {T : Tipos} where
  pub limpiar_sesion_fondeo-Sanas :
      (obra : Text) (i : ℕ) (forzar : Bool) (m : Motor T)
      → Sanas m
      → Sanas (limpiar_sesion_fondeo obra i forzar m)
  unfolding limpiar_sesion_fondeo
  limpiar_sesion_fondeo-Sanas obra i forzar m h =
      ground (arith, h, Todas-filter Sana (λ e. not (clave_eq e.0 (obra, i))) m.fondeos h)

  gasto_con-fondeos :
      (o : Obra) (i : ℕ) (yo : Text) (a b : Option ℕ) (m : Motor T)
      → (gasto_con o i yo a b m).1.fondeos ≡ m.fondeos
  gasto_con-fondeos o i yo none b m = refl
  gasto_con-fondeos o i yo (some a) none m = refl
  gasto_con-fondeos o i yo (some a) (some b) m = ground arith

  gasto_en-fondeos :
      (o : Obra) (i : ℕ) (yo : Text) (p : Option Partida) (m : Motor T)
      → (gasto_en o i yo p m).1.fondeos ≡ m.fondeos
  gasto_en-fondeos o i yo none m = refl
  gasto_en-fondeos o i yo (some p) m =
      ground (arith, gasto_con-fondeos o i yo p.propuesto (piconero_partida o i) m)

  -- A payment does not touch the fundings.
  pub pedir_gasto-fondeos :
      (o : Obra) (i : ℕ) (yo : Text) (m : Motor T) → (pedir_gasto o i yo m).1.fondeos ≡ m.fondeos
  unfolding pedir_gasto
  pedir_gasto-fondeos o i yo m = gasto_en-fondeos o i yo (get_elem? o.partidas i) m

  pub pedir_gasto-Sanas :
      (o : Obra) (i : ℕ) (yo : Text) (m : Motor T) → Sanas m → Sanas (pedir_gasto o i yo m).1
  pedir_gasto-Sanas o i yo m h = rw (pedir_gasto-fondeos o i yo m) h

  abrir_con-Sanas :
      (o : Obra) (i : ℕ) (yo : Text) (f : Option (Fondeo T)) (m : Motor T)
      → Sanas m
      → Sanas (abrir_con o i yo f m)
  abrir_con-Sanas o i yo none m h = insertar_fondeo-Sanas o i yo true m h
  abrir_con-Sanas o i yo (some f) m h = elim (Bool-cases (f.solo_aviso && is_none f.txid)) [
    | inl e ↦ rw e (
        insertar_fondeo-Sanas o i yo true (record m { fondeos = sacar_clave (o.id, i) m.fondeos })
          (Todas-filter Sana (λ x. not (clave_eq x.0 (o.id, i))) m.fondeos h))
    | inr e ↦
        rw e (
          Todas-cambiar_clave Sana (o.id, i) soltar_aviso_ajeno m.fondeos soltar_aviso_ajeno-Sana h)
  ]

  abrir_en-Sanas :
      (yo : Text) (i : Option ℕ) (o : Option Obra) (m : Motor T)
      → Sanas m
      → Sanas (abrir_en yo i o m)
  abrir_en-Sanas yo none o m h = h
  abrir_en-Sanas yo (some i) none m h = h
  abrir_en-Sanas yo (some i) (some o) m h =
      abrir_con-Sanas o i yo (leer_clave (o.id, i) m.fondeos) m h

  gasto_red-Sanas :
      (yo : Text) (i : Option ℕ) (o : Option Obra) (m : Motor T)
      → Sanas m
      → Sanas (gasto_red yo i o m)
  gasto_red-Sanas yo none o m h = h
  gasto_red-Sanas yo (some i) none m h = h
  gasto_red-Sanas yo (some i) (some o) m h =
      elim (Bool-cases (is_some (leer_clave (o.id, i) m.gastos))) [
        | inl e ↦ rw e h
        | inr e ↦ rw e (pedir_gasto-Sanas o i yo m h)
      ]

  con_sobre-Sana : (s : SobreFondeo) (f : Fondeo T) → Sana f → Sana (con_sobre s f)
  unfolding sana
  con_sobre-Sana s f h = ground (arith, h)

  con_esqueleto-Sana : (s : T.Esqueleto) (f : Fondeo T) → Sana f → Sana (con_esqueleto s f)
  unfolding sana
  con_esqueleto-Sana s f h = ground (arith, h)

  con_aviso_par-Sana : (a : AvisoFondeo) (f : Fondeo T) → Sana f → Sana (con_aviso_par a f)
  unfolding sana
  con_aviso_par-Sana a f h = ground (arith, h)

  con_busqueda-Sana : (f : Fondeo T) → Sana f → Sana (con_busqueda f)
  unfolding sana
  con_busqueda-Sana f h = ground (arith, h)

  propuesta_en-Sanas :
      (c : CajaMsg) (s : Option SobreFondeo) (m : Motor T) → Sanas m → Sanas (propuesta_en c s m)
  propuesta_en-Sanas c none m h = h
  propuesta_en-Sanas c (some s) m h =
      Todas-cambiar_primera Sana _ (con_sobre s) m.fondeos (con_sobre-Sana s) h

  esqueleto_en-Sanas :
      (c : CajaMsg) (s : Option T.Esqueleto) (m : Motor T) → Sanas m → Sanas (esqueleto_en c s m)
  esqueleto_en-Sanas c none m h = h
  esqueleto_en-Sanas c (some s) m h =
      Todas-cambiar_primera Sana (de_fondeo c) (con_esqueleto s) m.fondeos (con_esqueleto-Sana s) h

  pub consumir-fondeos :
      (us : Option (List Salida)) (m : Motor T) → (consumir us m).fondeos ≡ m.fondeos
  consumir-fondeos none m = refl
  consumir-fondeos (some us) m = ground arith

  txid_fondeo-Sanas :
      (t : Text) (k : Option Clave) (m : Motor T) → Sanas m → Sanas (txid_fondeo t k m)
  unfolding consumir_fondeo_personal
  txid_fondeo-Sanas t none m h = h
  txid_fondeo-Sanas t (some k) m h = rw (consumir-fondeos _ _) (
      Todas-cambiar_clave Sana k (λ f. record f { txid = some t; error = none }) m.fondeos
        (λ f g. con_txid f g) h)
    where
      con_txid : (f : Fondeo T) → Sana f → Sana (record f { txid = some t; error = none })
      con_txid f g = unfold sana in ground (arith, g)

  poner_o_cambiar-Sanas :
      (k : Clave) (f : Fondeo T → Fondeo T) (v : Fondeo T) (m : Mapa (Fondeo T))
      → ((x : Fondeo T) → Sana x → Sana (f x))
      → Sana v
      → Todas Sana m
      → Todas Sana (poner_o_cambiar k f v m)
  poner_o_cambiar-Sanas k f v m g s h = elim (Bool-cases (is_some (leer_clave k m))) [
    | inl e ↦ rw e (Todas-cambiar_clave Sana k f m g h)
    | inr e ↦ rw e (Todas-poner_clave Sana k v m s h)
  ]

  fallo_fondeo-Sanas :
      (k : Clave) (de code : Text) (a : Option AvisoFondeo) (m : Motor T)
      → Sanas m
      → Sanas (fallo_fondeo k de code a m)
  unfolding poner_aviso_par
  fallo_fondeo-Sanas k de code (some a) m h =
      poner_o_cambiar-Sanas k (con_aviso_par a) _ m.fondeos (con_aviso_par-Sana a)
        (fondeo_vacio-sana T de none (some a)) h
  fallo_fondeo-Sanas k de code none m h =
      poner_o_cambiar-Sanas k (λ f. record f { error = some code; aviso_enviado = true }) _
        m.fondeos con_error (fondeo_vacio-sana T de (some code) none) h
    where
      con_error :
          (f : Fondeo T) → Sana f → Sana (record f { error = some code; aviso_enviado = true })
      con_error f g = unfold sana in ground (arith, g)

  marcar_busqueda_par-Sanas :
      (k : Clave) (de : Text) (m : Motor T) → Sanas m → Sanas (marcar_busqueda_par k de m)
  unfolding marcar_busqueda_par
  marcar_busqueda_par-Sanas k de m h =
      poner_o_cambiar-Sanas k con_busqueda _ m.fondeos con_busqueda-Sana
        (unfold sana in ground arith) h

  fallo_en-Sanas :
      (c : CajaMsg) (pago : Bool) (code : Text) (i : Option ℕ) (m : Motor T)
      → Sanas m
      → Sanas (fallo_en c pago code i m)
  fallo_en-Sanas c pago code none m h = h
  fallo_en-Sanas c true code (some i) m h = h
  fallo_en-Sanas c false code (some i) m h = elim (Bool-cases (es code (chars "buscando"))) [
    | inl e ↦ rw e (marcar_busqueda_par-Sanas (c.obra, i) c.de m h)
    | inr e ↦ rw e (fallo_fondeo-Sanas (c.obra, i) c.de code (aviso_del_otro code) m h)
  ]

  fallo_txt-Sanas :
      (c : CajaMsg) (pago : Bool) (t : Option Text) (m : Motor T)
      → Sanas m
      → Sanas (fallo_txt c pago t m)
  fallo_txt-Sanas c pago none m h = h
  fallo_txt-Sanas c pago (some s) m h =
      fallo_en-Sanas c pago (partir_aviso s).1 (o_bien (partir_aviso s).0 (primera_de c pago m)) m h

  txid_en-Sanas :
      (c : CajaMsg) (pago : Bool) (t : Option Text) (m : Motor T)
      → Sanas m
      → Sanas (txid_en c pago t m)
  txid_en-Sanas c pago none m h = h
  txid_en-Sanas c pago (some s) m h = elim (Bool-cases (ltb (byte_len (trim s)) 64)) [
    | inl e ↦ rw e h
    | inr e ↦ rw e (con_pago pago)
  ]
    where
      con_pago :
          (b : Bool)
          → Sanas (
              if b
              then record m {
                gastos =
                    cambiar_primera
                      (de_gasto c)
                      (λ g. record g { txid = some (trim s); error = none })
                      m.gastos;
              }
              else txid_fondeo (trim s) (buscar_clave (de_fondeo c) m.fondeos) m)
      con_pago true = h
      con_pago false = txid_fondeo-Sanas (trim s) (buscar_clave (de_fondeo c) m.fondeos) m h

  soltar_en-Sanas :
      (c : CajaMsg) (code : Text) (i : Option ℕ) (m : Motor T)
      → Sanas m
      → Sanas (soltar_en c code i m)
  unfolding nota
  soltar_en-Sanas c code none m h = h
  soltar_en-Sanas c code (some i) m h = limpiar_sesion_fondeo-Sanas c.obra i false m h

  pub buffer_en-fondeos :
      (obra : Text) (p : ParteDe) (b : List ℕ) (r : Option (DkgRun T)) (m : Motor T)
      → (buffer_en obra p b r m).fondeos ≡ m.fondeos
  buffer_en-fondeos obra p b none m = refl
  buffer_en-fondeos obra p b (some r) m = refl

  buffer_dkg-Sanas :
      (obra : Text) (p : ParteDe) (b : List ℕ) (m : Motor T)
      → Sanas m
      → Sanas (buffer_dkg obra p b m)
  unfolding buffer_dkg
  buffer_dkg-Sanas obra p b m h = ground (arith, h, buffer_en-fondeos obra p b (get obra m.dkg) m)

  direccion_en-Sanas :
      (c : CajaMsg) (t : Option Text) (m : Motor T) → Sanas m → Sanas (direccion_en c t m)
  unfolding guardar_par
  direccion_en-Sanas c none m h = h
  direccion_en-Sanas c (some s) m h = ground (arith, h)

  apertura_con-Sanas :
      (c : CajaMsg) (p : Option T.PropuestaPago) (q : Option (List ℕ)) (m : Motor T)
      → Sanas m
      → Sanas (apertura_con c p q m)
  apertura_con-Sanas c none q m h = h
  apertura_con-Sanas c (some p) none m h = h
  apertura_con-Sanas c (some p) (some q) m h = h

  module _ (r : Lector T) where
    apertura_en-Sanas :
        (c : CajaMsg) (s : Option SobreGasto) (m : Motor T) → Sanas m → Sanas (apertura_en r c s m)
    apertura_en-Sanas c none m h = h
    apertura_en-Sanas c (some s) m h = apertura_con-Sanas c _ _ m h

    pub tomar-Sanas :
        (p : PasoCaja) (c : CajaMsg) (yo : Text) (obras : List Obra) (m : Motor T)
        → Sanas m
        → Sanas (tomar r p c yo obras m)
    unfolding tomar abrir_fondeo_red abrir_gasto_red tomar_txid fallo_par nota
    tomar-Sanas PasoCaja.direccion c yo obras m h = direccion_en-Sanas c (from_utf8 c.cuerpo) m h
    tomar-Sanas PasoCaja.dkg_commit c yo obras m h =
        buffer_dkg-Sanas c.obra ParteDe.commit c.cuerpo m h
    tomar-Sanas PasoCaja.dkg_share c yo obras m h =
        buffer_dkg-Sanas c.obra ParteDe.share c.cuerpo m h
    tomar-Sanas PasoCaja.dkg_view c yo obras m h = buffer_dkg-Sanas c.obra ParteDe.view c.cuerpo m h
    tomar-Sanas PasoCaja.dkg_pedir c yo obras m h = h
    tomar-Sanas PasoCaja.fund_pedir c yo obras m h =
        abrir_en-Sanas yo (parse_idx c.cuerpo) (buscar_obra c.obra obras) m h
    tomar-Sanas PasoCaja.fund_proposal c yo obras m h =
        propuesta_en-Sanas c (r.sobre_fondeo c.cuerpo) m h
    tomar-Sanas PasoCaja.fund_skeleton c yo obras m h =
        esqueleto_en-Sanas c (r.esqueleto c.cuerpo) m h
    tomar-Sanas PasoCaja.fund_tx c yo obras m h = txid_en-Sanas c false (from_utf8 c.cuerpo) m h
    tomar-Sanas PasoCaja.fund_abort c yo obras m h =
        soltar_en-Sanas c (chars "fondeo-abortado-par") (parse_idx c.cuerpo) m h
    tomar-Sanas PasoCaja.obra_salida c yo obras m h = h
    tomar-Sanas PasoCaja.partida_salida c yo obras m h =
        soltar_en-Sanas c (chars "par-salio-partida") (parse_idx c.cuerpo) m h
    tomar-Sanas PasoCaja.fund_error c yo obras m h =
        fallo_txt-Sanas c false (from_utf8 c.cuerpo) m h
    tomar-Sanas PasoCaja.spend_pedir c yo obras m h =
        gasto_red-Sanas yo (parse_idx c.cuerpo) (buscar_obra c.obra obras) m h
    tomar-Sanas PasoCaja.spend_open c yo obras m h =
        apertura_en-Sanas c (r.sobre_gasto c.cuerpo) m h
    tomar-Sanas PasoCaja.spend_pre c yo obras m h = h
    tomar-Sanas PasoCaja.spend_share c yo obras m h = h
    tomar-Sanas PasoCaja.spend_tx c yo obras m h = txid_en-Sanas c true (from_utf8 c.cuerpo) m h
    tomar-Sanas PasoCaja.spend_error c yo obras m h =
        fallo_txt-Sanas c true (from_utf8 c.cuerpo) m h
    tomar-Sanas PasoCaja.otro_paso c yo obras m h = h

    pub ingerir-Sanas :
        (cs : List CajaMsg) (yo : Text) (obras : List Obra) (m : Motor T)
        → Sanas m
        → Sanas (ingerir r cs yo obras m)
    unfolding ingerir
    ingerir-Sanas [] yo obras m h = h
    ingerir-Sanas (c ∷ cs) yo obras m h = ingerir-Sanas cs yo obras _ (uno (text_eq c.de yo))
      where
        uno : (b : Bool) → Sanas (if b then m else tomar r (paso_de c.paso) c yo obras m)
        uno true = h
        uno false = tomar-Sanas (paso_de c.paso) c yo obras m h
