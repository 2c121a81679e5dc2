-- ===== src/Motor/Sesiones/Armado.antt =====
-- caja.rs of the motor, `armar_fondeo`, `cerrar_si_puede`, the loop of `firmar_si_puede` and the answer to
-- a publication: how a funding is built by both parties and published. What crates/xmr-joint/src/fund.rs
-- computes with the Monero library is the record `Fondos`.
use home_builder_pay.Base.{
  ℕ, ◌+◌, ◌%◌, Bool, true, false, ◌&&◌, ◌||◌, Option, none, some, List, [], ◌∷◌, map, filter,
  if◌then◌else◌, leb, ◌==◌, is_some, is_none, chars, Text,
}
use home_builder_pay.Base.Dict.{get}
use home_builder_pay.Montos.{u32_mod}
use home_builder_pay.Motor.Mapa.{Clave, Mapa, leer_clave, cambiar_clave}
use home_builder_pay.Motor.Sesiones.{Tipos, SobreFondeo, Fondeo, Motor}
use home_builder_pay.Motor.Sesiones.Cartas.{Carta, fallar}
use home_builder_pay.Motor.Sesiones.Firmas.{Resultado, sale, error}

-- `mandante_proposal`, the body of `fund-proposal`, `decode_bincode` of the hexadecimal proposal,
-- `hex::decode` of the view key, `view_del_mandante` with `contratista_responde`, the body of
-- `fund-skeleton`, and `mandante_cierra` (the id and the bytes of the transaction).
pub record Fondos (T : Tipos) : Type 0 where
  pub caja : T.Cuenta → Text
  pub proponer :
      (obra : Text) (partida : ℕ) (caja : Text) (capital : ℕ)
      → T.Decoys
      → T.Billetera
      → ℕ × ℕ
      → Resultado T.Propuesta
  pub sobre : T.Billetera → T.Propuesta → List ℕ
  pub leer_propuesta : Text → Option T.Propuesta
  pub leer_view : Text → Option (List ℕ)
  pub responder :
      (caja : Text) (capital : ℕ)
      → T.Propuesta
      → (direccion : Text) (view : List ℕ) → T.Decoys
      → T.Billetera
      → Resultado T.Esqueleto
  pub cuerpo : T.Esqueleto → List ℕ
  pub cerrar : T.Propuesta → T.Esqueleto → T.Decoys → T.Billetera → Resultado (Text × List ℕ)

abbrev pub bytes_carta : Clave → (para paso : Text) → List ℕ → Carta
bytes_carta k para paso cuerpo = record { obra = k.0; para = para; paso = paso; cuerpo = cuerpo }

-- `to_ascii_lowercase`
abbrev minuscula : ℕ → ℕ
minuscula c = if leb 65 c && leb c 90 then c + 32 else c

abbrev empieza : Text → Text → Bool
empieza [] s = true
empieza (c ∷ p) [] = false
empieza (c ∷ p) (d ∷ s) = c == d && empieza p s

-- `str::contains`
unfoldable pub contiene : Text → Text → Bool
contiene p [] = empieza p []
contiene p (c ∷ s) = empieza p (c ∷ s) || contiene p s

unfoldable pub es_rechazo_fondeo : Text → Bool
unfolding contiene
es_rechazo_fondeo msg =
    let low = map minuscula msg in
    contiene (chars "rejected") low
    || contiene (chars "double spend") low
    || contiene (chars "key image") low
    || contiene (chars "already spent") low
    || contiene (chars "decoy") low
    || contiene (chars "failed to get") low
    || contiene (chars "not in the mainchain") low
    || contiene (chars "invalid input") low

module _ {T : Tipos} where
  abbrev pub poner_propuesta : T.Propuesta → T.Decoys → Fondeo T → Fondeo T
  poner_propuesta p d f = record f { propuesta = some p; outputs = some d; error = none }

  abbrev pub con_respuesta : T.Esqueleto → Fondeo T → Fondeo T
  con_respuesta e f = record f { esqueleto = some e; error = none }

  abbrev pub con_tx : Text × List ℕ → Fondeo T → Fondeo T
  con_tx t f = record f { blob = some t.1; txid = some t.0 }

  module _ (r : Fondos T) where
    abbrev pub propone :
        Clave
        → (peer : Text) → T.Billetera
        → T.Decoys
        → Resultado T.Propuesta
        → Motor T
        → List Carta × Motor T
    propone k peer w d (error e) m = fallar k false e m
    propone k peer w d (sale p) m = (
      bytes_carta k peer (chars "fund-proposal") (r.sobre w p) ∷ [],
      record m { fondeos = cambiar_clave k (poner_propuesta p d) m.fondeos },
    )

    abbrev pub responde :
        Clave → (peer : Text) → Resultado T.Esqueleto → Motor T → List Carta × Motor T
    responde k peer (error e) m = fallar k false e m
    responde k peer (sale e) m = (
      bytes_carta k peer (chars "fund-skeleton") (r.cuerpo e) ∷ [],
      record m { fondeos = cambiar_clave k (con_respuesta e) m.fondeos },
    )

    abbrev pub lee_y_responde :
        Clave
        → Fondeo T
        → Text
        → T.Billetera
        → T.Decoys
        → (direccion : Text) → Option T.Propuesta
        → Option (List ℕ)
        → Motor T
        → List Carta × Motor T
    lee_y_responde k f caja w d dir (some p) (some view) m =
        responde k f.peer (r.responder caja f.capital p dir view d w) m
    lee_y_responde k f caja w d dir _ _ m = fallar k false (chars "propuesta ilegible") m

    abbrev pub contesta :
        Clave
        → Fondeo T
        → Text
        → T.Billetera
        → T.Decoys
        → Option SobreFondeo
        → Motor T
        → List Carta × Motor T
    contesta k f caja w d none m = ([], m)
    contesta k f caja w d (some s) m =
        lee_y_responde k f caja w d s.direccion (r.leer_propuesta s.proposal) (r.leer_view s.view) m

    abbrev pub armar_con :
        Clave
        → T.Decoys
        → ℕ × ℕ
        → T.Billetera
        → Text
        → Option (Fondeo T)
        → Motor T
        → List Carta × Motor T
    armar_con k d fee w caja none m = ([], m)
    armar_con k d fee w caja (some f) m =
        if f.soy_mandante
        then propone k f.peer w d (r.proponer k.0 (k.1 % u32_mod) caja f.capital d w fee) m
        else contesta k f caja w d f.sobre m

    abbrev pub armar_en :
        Clave
        → T.Decoys
        → ℕ × ℕ
        → Option T.Billetera
        → Option T.Cuenta
        → Motor T
        → List Carta × Motor T
    armar_en k d fee none c m = fallar k false (chars "sin-semilla") m
    armar_en k d fee (some w) none m = fallar k false (chars "sin-caja") m
    armar_en k d fee (some w) (some c) m = armar_con k d fee w (r.caja c) (leer_clave k m.fondeos) m

    unfoldable pub armar_fondeo : Clave → T.Decoys → (fee : ℕ × ℕ) → Motor T → List Carta × Motor T
    armar_fondeo k d fee m = armar_en k d fee m.wallet (get k.0 m.cuentas) m

    abbrev pub por_cerrar : Mapa (Fondeo T) → Mapa (Fondeo T)
    por_cerrar m =
        filter
          (λ e.
            e.1.soy_mandante
            && is_some e.1.esqueleto
            && is_none e.1.blob
            && is_some e.1.propuesta
            && is_some e.1.outputs
            && is_none e.1.error
            && is_none e.1.aviso)
          m

    abbrev pub cierra_con : Clave → Resultado (Text × List ℕ) → Motor T → List Carta × Motor T
    cierra_con k (error e) m = fallar k false e m
    cierra_con k (sale t) m = ([], record m { fondeos = cambiar_clave k (con_tx t) m.fondeos })
