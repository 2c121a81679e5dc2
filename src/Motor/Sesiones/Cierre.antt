-- ===== src/Motor/Sesiones/Cierre.antt =====
-- caja.rs of the motor, `cerrar_si_puede`, the loop of `firmar_si_puede` and `Listo::Publicado`: what is
-- ready is completed and published, one transaction at a time (`ocupado`).
use home_builder_pay.Base.{
  ℕ, Bool, true, false, ◌||◌, Option, none, some, List, [], ◌∷◌, ◌++◌, if◌then◌else◌, is_some,
  chars, Text,
}
use home_builder_pay.Base.Dict.{get}
use home_builder_pay.Retiro.{utf8}
use home_builder_pay.Motor.Mapa.{Clave, Mapa, leer_clave, cambiar_clave}
use home_builder_pay.Motor.Sesiones.{Tipos, Fondeo, Gasto, Motor}
use home_builder_pay.Motor.Sesiones.Mensajes.{consumir_fondeo_personal}
use home_builder_pay.Motor.Sesiones.Cartas.{Carta, fallar, reiniciar_fondeo_tras_rechazo}
use home_builder_pay.Motor.Sesiones.Firmas.{Resultado, sale, error, Firmas, firmar_uno}
use home_builder_pay.Motor.Sesiones.Armado.{
  Fondos, bytes_carta, es_rechazo_fondeo, por_cerrar, cierra_con,
}

-- The transaction that a result brings to the network keeps the wallet busy.
abbrev pub ocupa : Resultado (Text × List ℕ) → Bool
ocupa (sale t) = true
ocupa (error e) = false

module _ {T : Tipos} where
  abbrev pub cierre_partes :
      Fondos T
      → T.Billetera
      → Option T.Propuesta
      → Option T.Esqueleto
      → Option T.Decoys
      → Option (Resultado (Text × List ℕ))
  cierre_partes r w (some p) (some e) (some d) = some (r.cerrar p e d w)
  cierre_partes r w _ _ _ = none

  -- What the completion of a funding gives, if all that it needs is there.
  abbrev pub cierre_de :
      Fondos T → Option T.Billetera → Option (Fondeo T) → Option (Resultado (Text × List ℕ))
  cierre_de r (some w) (some f) = cierre_partes r w f.propuesta f.esqueleto f.outputs
  cierre_de r _ _ = none

  abbrev pub cierra_una :
      Fondos T
      → Clave
      → Option (Resultado (Text × List ℕ))
      → (ocupado : Bool) → Motor T
      → Bool × List Carta × Motor T
  cierra_una r k none ocupado m = (ocupado, [], m)
  cierra_una r k (some x) ocupado m =
      let (cs, m1) = cierra_con r k x m in (ocupado || ocupa x, cs, m1)

  unfoldable pub cerrar_lista :
      Fondos T → Mapa (Fondeo T) → (ocupado : Bool) → Motor T → Bool × List Carta × Motor T
  cerrar_lista r [] ocupado m = (ocupado, [], m)
  cerrar_lista r (e ∷ es) ocupado m =
      let (o1, c1, m1) =
        cierra_una r e.0 (cierre_de r m.wallet (leer_clave e.0 m.fondeos)) ocupado m in
      let (o2, c2, m2) = cerrar_lista r es o1 m1 in
      if ocupado then (ocupado, [], m) else (o2, c1 ++ c2, m2)

  unfoldable pub cerrar_si_puede :
      Fondos T → (ocupado : Bool) → Motor T → Bool × List Carta × Motor T
  unfolding cerrar_lista
  cerrar_si_puede r ocupado m = cerrar_lista r (por_cerrar r m.fondeos) ocupado m

  abbrev pub firma_una :
      Firmas T
      → (Carta → Bool)
      → Clave
      → Option (Gasto T)
      → (ocupado : Bool) → Motor T
      → Bool × List Carta × Motor T
  firma_una s enviar k none ocupado m = (ocupado, [], m)
  firma_una s enviar k (some g) ocupado m =
      let (cs, h, tx) = firmar_uno s enviar k (get k.0 m.cuentas) ocupado g in
      (ocupado || is_some tx, cs, record m { gastos = cambiar_clave k (λ x. h) m.gastos })

  unfoldable pub firmar_lista :
      Firmas T
      → (Carta → Bool)
      → Mapa (Gasto T)
      → (ocupado : Bool) → Motor T
      → Bool × List Carta × Motor T
  firmar_lista s enviar [] ocupado m = (ocupado, [], m)
  firmar_lista s enviar (e ∷ es) ocupado m =
      let (o1, c1, m1) = firma_una s enviar e.0 (leer_clave e.0 m.gastos) ocupado m in
      let (o2, c2, m2) = firmar_lista s enviar es o1 m1 in (o2, c1 ++ c2, m2)

  unfoldable pub firmar_si_puede :
      Firmas T → (Carta → Bool) → (ocupado : Bool) → Motor T → Bool × List Carta × Motor T
  unfolding firmar_lista
  firmar_si_puede s enviar ocupado m = firmar_lista s enviar m.gastos ocupado m

  abbrev avisa_gasto : Clave → Text → Option (Gasto T) → List Carta
  avisa_gasto k txid none = []
  avisa_gasto k txid (some g) = bytes_carta k g.peer (chars "spend-tx") (utf8 txid) ∷ []

  abbrev avisa_fondeo : Clave → Text → Option (Fondeo T) → List Carta
  avisa_fondeo k txid none = []
  avisa_fondeo k txid (some f) = bytes_carta k f.peer (chars "fund-tx") (utf8 txid) ∷ []

  -- `Listo::Publicado`, with the error if there is one.
  unfoldable pub recibir_publicado :
      Clave → (pago : Bool) → (txid : Text) → (error : Option Text) → Motor T → List Carta × Motor T
  recibir_publicado k true txid none m = (avisa_gasto k txid (leer_clave k m.gastos), m)
  recibir_publicado k false txid none m =
      (avisa_fondeo k txid (leer_clave k m.fondeos), consumir_fondeo_personal k m)
  recibir_publicado k true txid (some e) m = fallar k true e m
  recibir_publicado k false txid (some e) m =
      let (c1, m1) = fallar k false e m in
      let (c2, m2) = reiniciar_fondeo_tras_rechazo k m1 in
      if es_rechazo_fondeo e then (c1 ++ c2, m2) else (c1, m1)
