-- ===== src/Motor/Sesiones/Termina.antt =====
-- The sessions when a funding is built, completed and published, and a payment signed.
use home_builder_pay.Base.{
  ℕ, ◌≡◌, refl, ◌∙◌, inl, inr, Bool, true, false, Option, none, some, List, [], ◌∷◌, arith,
  Bool-cases, Text,
}
use home_builder_pay.Base.Dict.{get}
use home_builder_pay.Motor.Mapa.{Clave, Mapa, leer_clave, Todas-cambiar_clave}
use home_builder_pay.Motor.Sesiones.{Tipos, SobreFondeo, Fondeo, Gasto, Motor, nota}
use home_builder_pay.Motor.Sesiones.Mensajes.{salidas_de, consumir_fondeo_personal}
use home_builder_pay.Motor.Sesiones.Cartas.{Carta, fallar, reiniciar_fondeo_tras_rechazo}
use home_builder_pay.Motor.Sesiones.Firmas.{Resultado, sale, error, Firmas}
use home_builder_pay.Motor.Sesiones.Recibe.{limpiar_sesion_fondeo-Sanas, consumir-fondeos}
use home_builder_pay.Motor.Sesiones.Valida.{sana, Sana, Sanas}
use home_builder_pay.Motor.Sesiones.Armado.{
  Fondos, armar_fondeo, propone, responde, lee_y_responde, contesta, armar_con, armar_en,
  poner_propuesta, con_respuesta, con_tx, por_cerrar, es_rechazo_fondeo,
}
use home_builder_pay.Motor.Sesiones.Cierre.{
  cierre_de, cierra_una, cerrar_lista, cerrar_si_puede, firma_una, firmar_lista, firmar_si_puede,
  recibir_publicado,
}

module _ {T : Tipos} where
  fallado-Sana :
      (msg : Text) (f : Fondeo T)
      → Sana f
      → Sana (record f { error = some msg; espera_moneda = false })
  unfolding sana
  fallado-Sana msg f h = ground (arith, h)

  pub fallar-Sanas :
      (k : Clave) (pago : Bool) (msg : Text) (m : Motor T) → Sanas m → Sanas (fallar k pago msg m).1
  unfolding fallar
  fallar-Sanas k true msg m h = h
  fallar-Sanas k false msg m h = Todas-cambiar_clave Sana k _ m.fondeos (fallado-Sana msg) h

  poner_propuesta-Sana :
      (p : T.Propuesta) (d : T.Decoys) (f : Fondeo T) → Sana f → Sana (poner_propuesta p d f)
  unfolding sana
  poner_propuesta-Sana p d f h = h

  con_respuesta-Sana : (e : T.Esqueleto) (f : Fondeo T) → Sana f → Sana (con_respuesta e f)
  unfolding sana
  con_respuesta-Sana e f h = h

  con_tx-Sana : (t : Text × List ℕ) (f : Fondeo T) → Sana f → Sana (con_tx t f)
  unfolding sana
  con_tx-Sana t f h = h

  module _ (r : Fondos T) where
    propone-Sanas :
        (k : Clave) (peer : Text) (w : T.Billetera) (d : T.Decoys) (x : Resultado T.Propuesta)
        (m : Motor T)
        → Sanas m
        → Sanas (propone r k peer w d x m).1
    propone-Sanas k peer w d (error e) m h = fallar-Sanas k false e m h
    propone-Sanas k peer w d (sale p) m h =
        Todas-cambiar_clave Sana k _ m.fondeos (poner_propuesta-Sana p d) h

    responde-Sanas :
        (k : Clave) (peer : Text) (x : Resultado T.Esqueleto) (m : Motor T)
        → Sanas m
        → Sanas (responde r k peer x m).1
    responde-Sanas k peer (error e) m h = fallar-Sanas k false e m h
    responde-Sanas k peer (sale e) m h =
        Todas-cambiar_clave Sana k _ m.fondeos (con_respuesta-Sana e) h

    lee_y_responde-Sanas :
        (k : Clave) (f : Fondeo T) (caja : Text) (w : T.Billetera) (d : T.Decoys) (dir : Text)
        (p : Option T.Propuesta) (v : Option (List ℕ)) (m : Motor T)
        → Sanas m
        → Sanas (lee_y_responde r k f caja w d dir p v m).1
    lee_y_responde-Sanas k f caja w d dir (some p) (some v) m h = responde-Sanas k f.peer _ m h
    lee_y_responde-Sanas k f caja w d dir (some p) none m h = fallar-Sanas k false _ m h
    lee_y_responde-Sanas k f caja w d dir none v m h = fallar-Sanas k false _ m h

    contesta-Sanas :
        (k : Clave) (f : Fondeo T) (caja : Text) (w : T.Billetera) (d : T.Decoys)
        (s : Option SobreFondeo) (m : Motor T)
        → Sanas m
        → Sanas (contesta r k f caja w d s m).1
    contesta-Sanas k f caja w d none m h = h
    contesta-Sanas k f caja w d (some s) m h = lee_y_responde-Sanas k f caja w d _ _ _ m h

    armar_con-Sanas :
        (k : Clave) (d : T.Decoys) (fee : ℕ × ℕ) (w : T.Billetera) (caja : Text)
        (f : Option (Fondeo T)) (m : Motor T)
        → Sanas m
        → Sanas (armar_con r k d fee w caja f m).1
    armar_con-Sanas k d fee w caja none m h = h
    armar_con-Sanas k d fee w caja (some f) m h = elim (Bool-cases f.soy_mandante) [
      | inl e ↦ rw e (propone-Sanas k f.peer w d _ m h)
      | inr e ↦ rw e (contesta-Sanas k f caja w d f.sobre m h)
    ]

    armar_en-Sanas :
        (k : Clave) (d : T.Decoys) (fee : ℕ × ℕ) (w : Option T.Billetera) (c : Option T.Cuenta)
        (m : Motor T)
        → Sanas m
        → Sanas (armar_en r k d fee w c m).1
    armar_en-Sanas k d fee none c m h = fallar-Sanas k false _ m h
    armar_en-Sanas k d fee (some w) none m h = fallar-Sanas k false _ m h
    armar_en-Sanas k d fee (some w) (some c) m h = armar_con-Sanas k d fee w (r.caja c) _ m h

    pub armar_fondeo-Sanas :
        (k : Clave) (d : T.Decoys) (fee : ℕ × ℕ) (m : Motor T)
        → Sanas m
        → Sanas (armar_fondeo r k d fee m).1
    unfolding armar_fondeo
    armar_fondeo-Sanas k d fee m h = armar_en-Sanas k d fee m.wallet (get k.0 m.cuentas) m h

    cierra_una-Sanas :
        (k : Clave) (x : Option (Resultado (Text × List ℕ))) (o : Bool) (m : Motor T)
        → Sanas m
        → Sanas (cierra_una r k x o m).2
    cierra_una-Sanas k none o m h = h
    cierra_una-Sanas k (some (error e)) o m h = fallar-Sanas k false e m h
    cierra_una-Sanas k (some (sale t)) o m h =
        Todas-cambiar_clave Sana k _ m.fondeos (con_tx-Sana t) h

    cerrar_lista-Sanas :
        (es : Mapa (Fondeo T)) (o : Bool) (m : Motor T) → Sanas m → Sanas (cerrar_lista r es o m).2
    unfolding cerrar_lista
    cerrar_lista-Sanas [] o m h = h
    cerrar_lista-Sanas (e ∷ es) o m h = elim (Bool-cases o) [
      | inl q ↦ rw q h
      | inr q ↦ rw q (
          cerrar_lista-Sanas es _ _
            (cierra_una-Sanas e.0 (cierre_de r m.wallet (leer_clave e.0 m.fondeos)) false m h))
    ]

    pub cerrar_si_puede-Sanas : (o : Bool) (m : Motor T) → Sanas m → Sanas (cerrar_si_puede r o m).2
    unfolding cerrar_si_puede
    cerrar_si_puede-Sanas o m h = cerrar_lista-Sanas (por_cerrar r m.fondeos) o m h

  module _ (s : Firmas T) (enviar : Carta → Bool) where
    firma_una-fondeos :
        (k : Clave) (g : Option (Gasto T)) (o : Bool) (m : Motor T)
        → (firma_una s enviar k g o m).2.fondeos ≡ m.fondeos
    firma_una-fondeos k none o m = refl
    firma_una-fondeos k (some g) o m = refl

    firmar_lista-fondeos :
        (es : Mapa (Gasto T)) (o : Bool) (m : Motor T)
        → (firmar_lista s enviar es o m).2.fondeos ≡ m.fondeos
    unfolding firmar_lista
    firmar_lista-fondeos [] o m = refl
    firmar_lista-fondeos (e ∷ es) o m =
        firmar_lista-fondeos es _ _ ∙ firma_una-fondeos e.0 (leer_clave e.0 m.gastos) o m

    pub firmar_si_puede-Sanas :
        (o : Bool) (m : Motor T) → Sanas m → Sanas (firmar_si_puede s enviar o m).2
    unfolding firmar_si_puede
    firmar_si_puede-Sanas o m h = rw (firmar_lista-fondeos m.gastos o m) h

  pub rechaza-Sanas :
      (k : Clave) (m : Motor T) → Sanas m → Sanas (reiniciar_fondeo_tras_rechazo k m).1
  unfolding reiniciar_fondeo_tras_rechazo nota
  rechaza-Sanas k m h = limpiar_sesion_fondeo-Sanas k.0 k.1 false m h

  pub recibir_publicado-Sanas :
      (k : Clave) (pago : Bool) (txid : Text) (error : Option Text) (m : Motor T)
      → Sanas m
      → Sanas (recibir_publicado k pago txid error m).1
  unfolding recibir_publicado
  recibir_publicado-Sanas k true txid none m h = h
  recibir_publicado-Sanas k false txid none m h =
      unfold consumir_fondeo_personal in
      rw (consumir-fondeos (salidas_de (leer_clave k m.fondeos)) m) h
  recibir_publicado-Sanas k true txid (some e) m h = fallar-Sanas k true e m h
  recibir_publicado-Sanas k false txid (some e) m h = elim (Bool-cases (es_rechazo_fondeo e)) [
    | inl q ↦ rw q (rechaza-Sanas k (fallar k false e m).1 (fallar-Sanas k false e m h))
    | inr q ↦ rw q (fallar-Sanas k false e m h)
  ]
