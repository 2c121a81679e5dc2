-- ===== src/Red/Nodo/Sesiones.antt =====
-- dht.rs: the sessions of a node that open and close, and the messages that are sent over them.
use home_builder_pay.Base.{
  ℕ, Bool, false, ◌||◌, not, Option, none, some, List, [], ◌∷◌, ◌++◌, map, if◌then◌else◌, ◌==◌,
  Text, text_eq, filter,
}
use home_builder_pay.Base.Dict
use home_builder_pay.Base.Dict.{Dict}
use home_builder_pay.Red.{Msg, Externo, red, o_nada}
use home_builder_pay.Red.Nodo.{Envio, Nodo, ruta}

abbrev pub es_sesion : Option ℕ → ℕ → Bool
es_sesion none sid = false
es_sesion (some s) sid = s == sid

module _ {V : Type 0} where
  -- What `registrar_vivo` says to a session that opens, before what waited for the node.
  abbrev pub saludos : Text → Bool → Nodo V → List (Msg V)
  saludos node entrante n =
      (if entrante then Msg.hola n.id n.addr red ∷ [] else [])
      ++ (elim n.persona [ none ↦ [] | some p ↦ Msg.soy n.id p ∷ [] ]
          ++ map (λ k. Msg.soy k.1 k.0) (filter (λ k. not (text_eq k.1 node)) n.personas))

  unfoldable pub registrar_vivo : Text → ℕ → Bool → Nodo V → List (Msg V) × Nodo V
  registrar_vivo node sid entrante n = if text_eq node n.id then ([], n) else (
    saludos node entrante n ++ o_nada [] (Dict.get node n.buzon),
    record n { vivos = Dict.insert node sid n.vivos; buzon = Dict.remove node n.buzon },
  )

  -- The end of a session (`Drop`): a newer session with the same node stays.
  unfoldable pub soltar_vivo : Text → ℕ → Nodo V → Nodo V
  soltar_vivo node sid n =
      if es_sesion (Dict.get node n.vivos) sid
      then record n { vivos = Dict.remove node n.vivos }
      else n

-- Another node with a session, to which a message for `node` may be given (`relay`).
unfoldable pub otro_vivo : Text → Dict ℕ → Option Text
otro_vivo node [] = none
otro_vivo node ((k, sid) ∷ vs) = if text_eq k node then otro_vivo node vs else some k

module _ {V : Type 0} (e : Externo V) where
  abbrev por_relevo : Option Text → Msg V → List (Envio V)
  por_relevo none m = []
  por_relevo (some k) m = Envio.por_sesion k m ∷ []

  -- `enviar_caja`: what is sent; nothing is where the code returns `false` at once.
  unfoldable pub enviar_caja : Text → Text → Text → Text → List ℕ → Nodo V → List (Envio V)
  unfolding ruta otro_vivo
  enviar_caja obra para de paso cuerpo n = elim (Dict.get para n.personas) [
    | none ↦ []
    | some node ↦
        let msg = Msg.caja obra para de paso (e.hex_encode cuerpo) 0 in
        if Dict.contains_key node n.peers || Dict.contains_key node n.vivos
        then elim (ruta n node msg) [
          | some envio ↦ envio ∷ []
          | none ↦ por_relevo (otro_vivo node n.vivos) msg
        ]
        else []
  ]
