-- ===== src/Motor/Sesiones/Firmas.antt =====
-- caja.rs of the motor, `firmar_si_puede`: how a payment that was proposed is signed by both parties and
-- published. The signatures are the fields of the record `Firmas`; the files are left out.
use home_builder_pay.Base.{
  ℕ, Bool, false, ◌&&◌, ◌||◌, not, Option, none, some, List, [], ◌∷◌, ◌++◌, if◌then◌else◌, is_some,
  is_none, chars, Text, text_eq,
}
use home_builder_pay.Motor.Mapa.{Clave}
use home_builder_pay.Motor.Sesiones.{Tipos, Gasto}
use home_builder_pay.Motor.Sesiones.Cartas.{Carta, una_carta}
use home_builder_pay.Motor.Avisos.{poner_aviso}

-- A result of the library of signatures; an error is its text.
pub data Resultado (A : Type 0) : Type 0 where
  sale : A → Resultado A
  error : Text → Resultado A

-- `SpendSession::open` and `sign`, `SpendSigned::complete` (the id and the bytes of the transaction), and
-- the body of `spend-open`.
pub record Firmas (T : Tipos) : Type 0 where
  pub obra_id : T.Cuenta → Text
  pub abrir : T.Cuenta → T.PropuestaPago → Resultado (T.SesionPago × List ℕ)
  pub firmar : T.SesionPago → List ℕ → Resultado (T.Firmado × List ℕ)
  pub completar : T.Firmado → List ℕ → Resultado (Text × List ℕ)
  pub sobre : T.PropuestaPago → List ℕ → Option (List ℕ)

module _ {T : Tipos} (s : Firmas T) (enviar : Carta → Bool) (k : Clave) where
  abbrev pub con_cuerpo : (para paso : Text) → List ℕ → Carta
  con_cuerpo para paso cuerpo = record { obra = k.0; para = para; paso = paso; cuerpo = cuerpo }

  -- `fallar`
  abbrev pub falla_gasto : Text → Gasto T → List Carta × Gasto T
  falla_gasto msg g = (
    una_carta k g.peer (chars "spend-error") (poner_aviso k.1 msg),
    record g { error = some msg; avisar = false },
  )

  abbrev pub manda_open : T.SesionPago → Option (List ℕ) → Gasto T → List Carta × Gasto T
  manda_open sesion none g = ([], g)
  manda_open sesion (some body) g =
      let c = con_cuerpo g.peer (chars "spend-open") body in
      (c ∷ [], record g { envie_open = enviar c; session = some sesion })

  abbrev pub abierta :
      T.PropuestaPago → Resultado (T.SesionPago × List ℕ) → Gasto T → List Carta × Gasto T
  abierta p (error e) g = falla_gasto e g
  abierta p (sale (sesion, pre)) g =
      let c = con_cuerpo g.peer (chars "spend-pre") pre in
      if g.soy_mandante
      then manda_open sesion (s.sobre p pre) g
      else (c ∷ [], record g { envie_pre = enviar c; session = some sesion })

  abbrev pub abrir_firma : T.Cuenta → Option T.PropuestaPago → Gasto T → List Carta × Gasto T
  abrir_firma cuenta none g = ([], g)
  abrir_firma cuenta (some p) g =
      if is_none g.session && is_none g.signed then abierta p (s.abrir cuenta p) g else ([], g)

  abbrev pub firmada : Resultado (T.Firmado × List ℕ) → Gasto T → List Carta × Gasto T
  firmada (error e) g = falla_gasto e g
  firmada (sale (signed, share)) g =
      let c = con_cuerpo g.peer (chars "spend-share") share in
      (c ∷ [], record g { signed = some signed; envie_share = enviar c })

  abbrev pub firmar_con : Option T.SesionPago → Option (List ℕ) → Gasto T → List Carta × Gasto T
  firmar_con (some sesion) (some pre) g =
      if is_none g.signed && is_none g.error
      then firmada (s.firmar sesion pre) (record g { session = none })
      else ([], g)
  firmar_con _ _ g = ([], g)

  -- The transaction to be published, if there is one.
  abbrev pub cerrada :
      Resultado (Text × List ℕ) → Gasto T → List Carta × Gasto T × Option (Text × List ℕ)
  cerrada (error e) g = let (cs, h) = falla_gasto e g in (cs, h, none)
  cerrada (sale (txid, blob)) g = (
    [],
    record g { blob = some blob; txid = some txid },
    if g.soy_mandante then some (txid, blob) else none,
  )

  abbrev pub cerrar_con :
      (ocupado : Bool)
      → Option T.Firmado
      → Option (List ℕ)
      → Gasto T
      → List Carta × Gasto T × Option (Text × List ℕ)
  cerrar_con ocupado (some signed) (some share) g =
      if is_none g.blob && is_none g.error && not (g.soy_mandante && ocupado)
      then cerrada (s.completar signed share) (record g { signed = none })
      else ([], g, none)
  cerrar_con ocupado _ _ g = ([], g, none)

  -- The body of the loop for one payment; `ocupado`: something is being published or asked.
  unfoldable pub firmar_uno :
      (cuenta : Option T.Cuenta) (ocupado : Bool)
      → Gasto T
      → List Carta × Gasto T × Option (Text × List ℕ)
  firmar_uno none ocupado g = ([], g, none)
  firmar_uno (some cuenta) ocupado g =
      let (c1, g1) = abrir_firma cuenta g.propuesta g in
      let (c2, g2) = firmar_con g1.session g1.pre_otro g1 in
      let (c3, g3, tx) = cerrar_con ocupado g2.signed g2.share_otro g2 in
      if is_some g.error || not (text_eq (s.obra_id cuenta) k.0)
      then ([], g, none)
      else (c1 ++ (c2 ++ c3), g3, tx)
