-- ===== src/Red/Nodo/Api.antt =====
-- dht.rs, the calls that the programs make of a node. The gossip that a call may start (`spawn_gossip`)
-- only sends, and is left out.
use home_builder_pay.Base.{
  ℕ, ◌+◌, Bool, false, ◌&&◌, ◌||◌, not, none, some, List, [], ◌∷◌, ◌++◌, map, if◌then◌else◌, leb,
  length, ltb_ℤ, pos, pos_part, neg_part, ◌==◌, ℤ, Text, text_eq, is_empty, filter, any,
}
use home_builder_pay.Base.Dict
use home_builder_pay.Base.Dict.{Dict}
use home_builder_pay.Acuerdo.{Persona, Oferta, Obra}
use home_builder_pay.Retiro.{RetiroOferta, sin_retiradas}
use home_builder_pay.Red.{Externo, CajaMsg, encode, clave_tablero, clave_obras, clave_presentes}
use home_builder_pay.Red.Almacen.{merge_retiradas, tablero_de, obras_de, presentes_de, retiradas_de}
use home_builder_pay.Red.Nodo.{Nodo}

abbrev pub con_store : {V : Type 0} → Dict V → Nodo V → Nodo V
con_store s n = record n { store = s }

-- `HashSet::insert` and `HashSet::remove`.
abbrev pub quitar_id : Text → List Text → List Text
quitar_id id xs = filter (λ x. not (text_eq x id)) xs

abbrev pub agregar_id : Text → List Text → List Text
agregar_id id xs = if any (λ x. text_eq x id) xs then xs else id ∷ xs

module _ {V : Type 0} (e : Externo V) where
  unfoldable pub publicar : Oferta → Nodo V → Nodo V
  publicar oferta n =
      let resto = filter (λ o. not (text_eq o.id oferta.id)) (tablero_de e n.store) in
      con_store (Dict.insert (clave_tablero e) (encode e e.ofertas (oferta ∷ resto)) n.store) n

  unfoldable pub tablero : Nodo V → List Oferta
  tablero n = sin_retiradas e.sha256 (tablero_de e n.store) (retiradas_de e n.store)

  unfoldable pub retirar : RetiroOferta → Nodo V → Nodo V
  retirar retiro n = con_store (merge_retiradas e (encode e e.retiradas (retiro ∷ [])) n.store) n

  unfoldable pub fijar_retiradas : List RetiroOferta → Nodo V → Nodo V
  fijar_retiradas [] n = n
  fijar_retiradas (r ∷ rs) n =
      con_store (merge_retiradas e (encode e e.retiradas (r ∷ rs)) n.store) n

  unfoldable pub quitar : Text → Nodo V → Nodo V
  quitar oferta_id n =
      let resto = filter (λ o. not (text_eq o.id oferta_id)) (tablero_de e n.store) in
      con_store (Dict.insert (clave_tablero e) (encode e e.ofertas resto) n.store) n

  unfoldable pub publicar_obra : Obra → Nodo V → Nodo V
  publicar_obra obra n =
      let resto = filter (λ o. not (text_eq o.id obra.id)) (obras_de e n.store) in
      record n {
        obras_salidas = quitar_id obra.id n.obras_salidas;
        store = Dict.insert (clave_obras e) (encode e e.obras (obra ∷ resto)) n.store;
      }

  -- `obras`, without the jobs that were archived on this machine; `obras_todas` is `obras_de`.
  unfoldable pub obras : Nodo V → List Obra
  obras n = filter (λ o. not (any (λ id. text_eq id o.id) n.obras_salidas)) (obras_de e n.store)

  abbrev con_mandante : Persona → Oferta → Oferta
  con_mandante p o = if text_eq o.mandante.id p.id then record o { mandante = p } else o

  abbrev con_partes : Persona → Obra → Obra
  con_partes p o = record o {
    mandante = if text_eq o.mandante.id p.id then p else o.mandante;
    contratista = if text_eq o.contratista.id p.id then p else o.contratista;
  }

  unfoldable pub anunciar : ℤ → Persona → Nodo V → Nodo V
  anunciar now persona n =
      let resto = filter (λ p. not (text_eq p.id persona.id)) (presentes_de e n.store) in
      con_store
        (Dict.insert (clave_presentes e)
          (encode e e.presentes (resto ++ record persona { visto = now } ∷ [])) n.store)
        n

  unfoldable pub actualizar_yo : ℤ → Persona → Nodo V → Nodo V
  unfolding anunciar
  actualizar_yo now p n =
      let s1 =
        Dict.insert (clave_tablero e)
          (encode e e.ofertas (map (con_mandante p) (tablero_de e n.store))) n.store in
      let s2 =
        Dict.insert (clave_obras e) (encode e e.obras (map (con_partes p) (obras_de e s1))) s1 in
      anunciar now p (con_store s2 n)

  abbrev hidratar_ofertas : List Oferta → Dict V → Dict V
  hidratar_ofertas [] s = s
  hidratar_ofertas (o ∷ os) s =
      Dict.insert (clave_tablero e)
        (encode e e.ofertas (sin_retiradas e.sha256 (o ∷ os) (retiradas_de e s))) s

  abbrev hidratar_obras : List Obra → Dict V → Dict V
  hidratar_obras [] s = s
  hidratar_obras (o ∷ os) s = Dict.insert (clave_obras e) (encode e e.obras (o ∷ os)) s

  abbrev hidratar_presentes : List Persona → Dict V → Dict V
  hidratar_presentes [] s = s
  hidratar_presentes (p ∷ ps) s = Dict.insert (clave_presentes e) (encode e e.presentes (p ∷ ps)) s

  unfoldable pub hidratar : List Oferta → List Obra → List Persona → Nodo V → Nodo V
  hidratar ofertas obras presentes n =
      con_store
        (hidratar_presentes presentes (hidratar_obras obras (hidratar_ofertas ofertas n.store))) n

module _ {V : Type 0} where
  unfoldable pub salir_obra_local : Text → Nodo V → Nodo V
  salir_obra_local id n = record n { obras_salidas = agregar_id id n.obras_salidas }

  unfoldable pub olvidar_salida_obra : Text → Nodo V → Nodo V
  olvidar_salida_obra id n = record n { obras_salidas = quitar_id id n.obras_salidas }

  unfoldable pub tomar_caja : Nodo V → List CajaMsg × Nodo V
  tomar_caja n = (n.caja, record n { caja = [] })

  unfoldable pub fijar_persona : Text → Nodo V → Nodo V
  fijar_persona id n = if is_empty id then n else record n { persona = some id }

  unfoldable pub conoce_persona : Text → Nodo V → Bool
  conoce_persona id n = elim (Dict.get id n.personas) [
    | none ↦ false
    | some node ↦ Dict.contains_key node n.peers || Dict.contains_key node n.vivos
  ]

-- `t.saturating_sub(v) <= k`: the difference of two times is below the bounds of an `i64` or on the same
-- side of `k` as they are.
abbrev pub desde_hace : (t v : ℤ) → ℕ → Bool
desde_hace t v k = leb (pos_part t + neg_part v) (pos_part v + neg_part t + k)

module _ {V : Type 0} (e : Externo V) where
  -- The counterparty was seen less than 26 seconds ago, and there is a peer.
  unfoldable pub sesion_viva : ℤ → Text → Nodo V → Bool
  sesion_viva t otro_id n =
      if length n.peers == 0
      then false
      else any (λ p. text_eq p.id otro_id && desde_hace t p.visto 25) (presentes_de e n.store)

  unfoldable pub sync_reciente : ℤ → Nodo V → Bool
  sync_reciente t n = ltb_ℤ (pos 0) n.sync_at && desde_hace t n.sync_at 30

  unfoldable pub trato_alineado : ℤ → Text → Nodo V → Bool
  unfolding sesion_viva sync_reciente
  trato_alineado t otro_id n = sesion_viva t otro_id n && sync_reciente t n

  -- The identifiers become a set.
  unfoldable pub fijar_obras_salidas : List Text → Nodo V → Nodo V
  fijar_obras_salidas ids n = record n { obras_salidas = foldr_id ids }
    where
      foldr_id : List Text → List Text
      foldr_id [] = []
      foldr_id (x ∷ xs) = agregar_id x (foldr_id xs)
