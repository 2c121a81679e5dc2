-- ===== src/Motor/Sesiones/Publica.antt =====
-- What is published of a payment.
use home_builder_pay.Base.{
  ℕ, ◌≡◌, refl, sym, ◌∙◌, inl, inr, Bool, true, false, ◌&&◌, ◌||◌, not, Option, none, some, List,
  arith, is_some, is_none, Bool-cases, Text, text_eq,
}
use home_builder_pay.Motor.Mapa.{Clave}
use home_builder_pay.Motor.Sesiones.{Tipos, Gasto}
use home_builder_pay.Motor.Sesiones.Cartas.{Carta}
use home_builder_pay.Motor.Sesiones.Firmas.{
  Resultado, sale, error, Firmas, abierta, abrir_firma, manda_open, firmada, firmar_con, cerrada,
  cerrar_con, firmar_uno,
}

module _ {T : Tipos} (s : Firmas T) (enviar : Carta → Bool) (k : Clave) where
  -- What the first two steps leave as it is.
  abbrev Igual : Gasto T → Gasto T → Type 0
  Igual g h = (h.blob ≡ g.blob) × (h.share_otro ≡ g.share_otro) × (h.soy_mandante ≡ g.soy_mandante)

  manda_open-Igual :
      (x : T.SesionPago) (b : Option (List ℕ)) (g : Gasto T)
      → Igual g (manda_open s enviar k x b g).1
  manda_open-Igual x none g = (refl, refl, refl)
  manda_open-Igual x (some b) g = (refl, refl, refl)

  abierta-Igual :
      (p : T.PropuestaPago) (r : Resultado (T.SesionPago × List ℕ)) (g : Gasto T)
      → Igual g (abierta s enviar k p r g).1
  abierta-Igual p (error e) g = (refl, refl, refl)
  abierta-Igual p (sale (x, pre)) g = elim (Bool-cases g.soy_mandante) [
    | inl e ↦ ground (arith, e, manda_open-Igual x (s.sobre p pre) g)
    | inr e ↦ ground (arith, e)
  ]

  abrir_firma-Igual :
      (c : T.Cuenta) (p : Option T.PropuestaPago) (g : Gasto T)
      → Igual g (abrir_firma s enviar k c p g).1
  abrir_firma-Igual c none g = (refl, refl, refl)
  abrir_firma-Igual c (some p) g = ground (arith, abierta-Igual p (s.abrir c p) g)

  firmada-Igual :
      (r : Resultado (T.Firmado × List ℕ)) (g : Gasto T) → Igual g (firmada s enviar k r g).1
  firmada-Igual (error e) g = (refl, refl, refl)
  firmada-Igual (sale (x, share)) g = (refl, refl, refl)

  firmar_con-Igual :
      (x : Option T.SesionPago) (p : Option (List ℕ)) (g : Gasto T)
      → Igual g (firmar_con s enviar k x p g).1
  firmar_con-Igual none p g = (refl, refl, refl)
  firmar_con-Igual (some x) none g = (refl, refl, refl)
  firmar_con-Igual (some x) (some p) g =
      ground (arith, firmada-Igual (s.firmar x p) (record g { session = none }))

  abbrev pub Publicable : Bool → Gasto T → Gasto T → Text × List ℕ → Type 0
  Publicable ocupado g h t =
      (ocupado ≡ false)
      × (g.soy_mandante ≡ true)
      × (g.blob ≡ none)
      × (h.txid ≡ some t.0)
      × (h.blob ≡ some t.1)
      × (signed : T.Firmado) × (share : List ℕ) × (g.share_otro ≡ some share)
      × (s.completar signed share ≡ sale t)

  cerrada-publica :
      (r : Resultado (Text × List ℕ)) (g : Gasto T) (t : Text × List ℕ)
      → (cerrada s enviar k r g).2 ≡ some t
      → (r ≡ sale t)
        × (g.soy_mandante ≡ true)
        × ((cerrada s enviar k r g).1.txid ≡ some t.0)
        × ((cerrada s enviar k r g).1.blob ≡ some t.1)
  cerrada-publica (error e) g t h = cc
  cerrada-publica (sale (x, b)) g t h = ground (arith, h)

  cerrar_con-Publicable :
      (ocupado : Bool) (x : Option T.Firmado) (c : Option (List ℕ)) (g : Gasto T)
      (t : Text × List ℕ)
      → g.share_otro ≡ c
      → (cerrar_con s enviar k ocupado x c g).2 ≡ some t
      → Publicable ocupado g (cerrar_con s enviar k ocupado x c g).1 t
  cerrar_con-Publicable ocupado none c g t e h = cc
  cerrar_con-Publicable ocupado (some x) none g t e h = cc
  cerrar_con-Publicable ocupado (some x) (some c) g t e h =
      elim (Bool-cases (is_none g.blob && is_none g.error && not (g.soy_mandante && ocupado))) [
        | inl y ↦
            let q =
              cerrada-publica (s.completar x c) (record g { signed = none }) t
                (ground (arith, y, h)) in
            (
              ground (arith, y, q.1),
              q.1,
              ground (arith, y),
              ground (arith, y, q.2),
              ground (arith, y, q.3),
              x,
              c,
              e,
              q.0,
            )
        | inr y ↦ absurd (ground (arith, y, h))
      ]

  -- A transaction that is published was completed from the two shares, by the client, while nothing else
  -- was being published, for a payment that had none yet; afterwards the payment holds its id and its
  -- bytes.
  pub firmar_uno-Publicable :
      (c : Option T.Cuenta) (ocupado : Bool) (g : Gasto T) (t : Text × List ℕ)
      → (firmar_uno s enviar k c ocupado g).2 ≡ some t
      → Publicable ocupado g (firmar_uno s enviar k c ocupado g).1 t
  unfolding firmar_uno
  firmar_uno-Publicable none ocupado g t h = cc
  firmar_uno-Publicable (some c) ocupado g t h =
      elim (Bool-cases (is_some g.error || not (text_eq (s.obra_id c) k.0))) [
        | inl y ↦ absurd (ground (arith, y, h))
        | inr y ↦ rw y (todo (ground (arith, y, h)))
      ]
    where
      g1 : Gasto T
      g1 = (abrir_firma s enviar k c g.propuesta g).1

      g2 : Gasto T
      g2 = (firmar_con s enviar k g1.session g1.pre_otro g1).1

      i1 : Igual g g1
      i1 = abrir_firma-Igual c g.propuesta g

      i2 : Igual g1 g2
      i2 = firmar_con-Igual g1.session g1.pre_otro g1

      todo :
          (cerrar_con s enviar k ocupado g2.signed g2.share_otro g2).2 ≡ some t
          → Publicable ocupado g (cerrar_con s enviar k ocupado g2.signed g2.share_otro g2).1 t
      todo e =
          let q = cerrar_con-Publicable ocupado g2.signed g2.share_otro g2 t refl e in
          (
            q.0,
            sym (i2.2 ∙ i1.2) ∙ q.1,
            sym (i2.0 ∙ i1.0) ∙ q.2,
            q.3,
            q.4,
            q.5,
            q.6,
            sym (i2.1 ∙ i1.1) ∙ q.7,
            q.8,
          )
