-- ===== src/Red/Nodo.antt =====
-- crates/konstruado-net/src/dht.rs, the node: its state and what it does with each message. A message
-- that a node sends is an `Envio`: over a session that is open (`v.tx.send`), or by dialling an address
-- (`spawn` and `send`), which may fail later. `Externo` is what the code calls of other libraries. Of the
-- state, the sockets, the Tor process and the times of the last push are left out.
pub mod Api
pub mod Sesiones
pub mod Maquina
pub mod Validez
pub mod Eventos
pub mod Relevo
pub mod Camino
pub mod Anuncio
use home_builder_pay.Base.{
  ℕ, suc, zero, ◌+◌, ◌≤◌, Bool, true, false, ◌&&◌, ◌||◌, not, Option, none, some, List, [], ◌∷◌,
  ◌++◌, map, if◌then◌else◌, ltb, leb, ◌==◌, ℤ, pos, Text, text_eq, is_empty, is_some, length,
  filter,
}
use home_builder_pay.Base.Dict
use home_builder_pay.Base.Dict.{Dict}
use home_builder_pay.Red.{PeerAddr, marcable, Msg, CajaMsg, Externo, red, o_nada}
use home_builder_pay.Red.Almacen.{merge_store, put_de}

pub data Envio (V : Type 0) : Type 0 where
  por_sesion : (node : Text) → Msg V → Envio V
  por_marcado : (node : Text) → PeerAddr → Msg V → Envio V

-- `Inner`. A session is known by its number `sid`.
pub record Nodo (V : Type 0) : Type 0 where
  pub id : Text
  pub addr : PeerAddr
  pub peers : Dict PeerAddr
  pub store : Dict V
  pub sync_at : ℤ
  pub persona : Option Text
  pub personas : Dict Text
  pub caja : List CajaMsg
  pub vivos : Dict ℕ
  pub buzon : Dict (List (Msg V))
  pub obras_salidas : List Text

-- A queue of at most `n`: the oldest element makes room.
abbrev pub sin_primero {ℓ} : {A : Type ℓ} → List A → List A
sin_primero [] = []
sin_primero (x ∷ xs) = xs

unfoldable pub empujar {ℓ} : {A : Type ℓ} → ℕ → A → List A → List A
empujar n x xs = (if leb n (length xs) then sin_primero xs else xs) ++ x ∷ []

unfoldable pub max_buzon : ℕ
max_buzon = 64

unfoldable pub max_caja : ℕ
max_caja = 32

abbrev pub max_saltos : ℕ
max_saltos = 3

-- `opcion == Some(texto)`
abbrev pub es_texto : Option Text → Text → Bool
es_texto none t = false
es_texto (some s) t = text_eq s t

-- `Msg::Peers`: the peers that are not this node.
unfoldable pub sumar_pares : Text → List (Text × PeerAddr) → Dict PeerAddr → Dict PeerAddr
sumar_pares me [] ps = ps
sumar_pares me ((id, addr) ∷ list) ps =
    sumar_pares me list (if text_eq id me then ps else Dict.insert id addr ps)

unfoldable pub hay_ajenos : Text → List (Text × PeerAddr) → Bool
hay_ajenos me [] = false
hay_ajenos me ((id, addr) ∷ list) = not (text_eq id me) || hay_ajenos me list

module _ {V : Type 0} where
  unfoldable pub encolar_en : Dict (List (Msg V)) → Text → Msg V → Dict (List (Msg V))
  encolar_en buzon node msg =
      Dict.insert node (empujar max_buzon msg (o_nada [] (Dict.get node buzon))) buzon

  unfoldable pub encolar : Text → Msg V → Nodo V → Nodo V
  unfolding encolar_en
  encolar node msg n = record n { buzon = encolar_en n.buzon node msg }

  abbrev pub marcar_sync : ℤ → Nodo V → Nodo V
  marcar_sync now n = record n { sync_at = now }

  -- The peers of the node and the node itself.
  abbrev pub lista_de_pares : Nodo V → List (Text × PeerAddr)
  lista_de_pares n = n.peers ++ (n.id, n.addr) ∷ []

  -- `ruta`
  abbrev pub marcar_par : Text → Option PeerAddr → Msg V → Option (Envio V)
  marcar_par node none m = none
  marcar_par node (some a) m = if marcable a then some (Envio.por_marcado node a m) else none

  unfoldable pub ruta : Nodo V → Text → Msg V → Option (Envio V)
  ruta n node m =
      if Dict.contains_key node n.vivos
      then some (Envio.por_sesion node m)
      else marcar_par node (Dict.get node n.peers) m

  -- `Msg::Soy`: the persona that another node announces.
  abbrev pub reenviar_soy : Option Text → Text → Text → Dict ℕ → List (Envio V)
  reenviar_soy origen node persona vivos =
      map (λ k. Envio.por_sesion k.0 (Msg.soy node persona))
        (filter (λ k. not (es_texto origen k.0) && not (text_eq k.0 node)) vivos)

  unfoldable pub recibir_soy : Text → Text → Option Text → Nodo V → List (Envio V) × Nodo V
  recibir_soy node persona origen n =
      if is_empty node || is_empty persona || text_eq node n.id
      then ([], n)
      else if es_texto (Dict.get persona n.personas) node
      then ([], n)
      else (
        reenviar_soy origen node persona n.vivos,
        record n { personas = Dict.insert persona node n.personas },
      )

-- `Msg::Caja` for the persona of this node.
abbrev pub guardar_caja : {V : Type 0} → Text → Text → Text → Option (List ℕ) → Nodo V → Nodo V
guardar_caja obra de paso none n = n
guardar_caja obra de paso (some bytes) n =
    if leb (length bytes) 900_000
    then record n {
      caja = empujar max_caja (record { obra = obra; de = de; paso = paso; cuerpo = bytes }) n.caja;
    }
    else n

-- `Msg::Caja` for another persona, on its way to the node that announced it.
abbrev pub relevar_por :
    {V : Type 0} → Text → Option (Envio V) → Msg V → Nodo V → List (Envio V) × Nodo V
relevar_por dest (some envio) fwd n = (envio ∷ [], n)
relevar_por dest none fwd n = ([], encolar dest fwd n)

abbrev pub relevar : {V : Type 0} → Text → Option Text → Msg V → Nodo V → List (Envio V) × Nodo V
relevar dest origen fwd n =
    if es_texto origen dest || text_eq dest n.id
    then ([], n)
    else relevar_por dest (ruta n dest fwd) fwd n

abbrev pub relevar_a :
    {V : Type 0} → Option Text → Option Text → Msg V → Nodo V → List (Envio V) × Nodo V
relevar_a none origen fwd n = ([], n)
relevar_a (some dest) origen fwd n = relevar dest origen fwd n

module _ {V : Type 0} (e : Externo V) where
  unfoldable pub recibir_caja :
      Text → Text → Text → Text → Text → ℕ → Option Text → Nodo V → List (Envio V) × Nodo V
  unfolding ruta encolar
  recibir_caja obra para de paso cuerpo saltos origen n =
      if es_texto n.persona para
      then ([], guardar_caja obra de paso (e.hex_decode cuerpo) n)
      else if leb max_saltos saltos
      then ([], n)
      else relevar_a (Dict.get para n.personas) origen
          (Msg.caja obra para de paso cuerpo (saltos + 1)) n

  unfoldable pub recibir_hola : ℤ → Text → PeerAddr → Text → Nodo V → List (Msg V) × Nodo V
  recibir_hola now node addr swarm n =
      if not (text_eq swarm red)
      then ([], n)
      else let n1 =
          if text_eq node n.id then n else record n { peers = Dict.insert node addr n.peers } in
        (
          Msg.peers (lista_de_pares n1) ∷ map (put_de e) n.store,
          if text_eq node n.id then n1 else marcar_sync now n1,
        )

  unfoldable pub recibir_peers : ℤ → List (Text × PeerAddr) → Nodo V → Nodo V
  unfolding sumar_pares hay_ajenos
  recibir_peers now list n =
      let n1 = record n { peers = sumar_pares n.id list n.peers } in
      if hay_ajenos n.id list then marcar_sync now n1 else n1

  abbrev pub fundir_valor : ℤ → Text → V → Nodo V → Nodo V
  fundir_valor now key val n = marcar_sync now (record n { store = merge_store e key val n.store })

  -- `handle`
  unfoldable pub handle : ℤ → Msg V → Nodo V → List (Msg V) × Nodo V
  unfolding recibir_hola recibir_peers
  handle now (Msg.hola node addr swarm) n = recibir_hola now node addr swarm n
  handle now (Msg.peers list) n = ([], recibir_peers now list n)
  handle now (Msg.put key val) n = ([], fundir_valor now key val n)
  handle now (Msg.get key) n = (Msg.got key (Dict.get key n.store) ∷ [], n)
  handle now (Msg.got key none) n = ([], n)
  handle now (Msg.got key (some val)) n = ([], fundir_valor now key val n)
  handle now Msg.ping n = (Msg.pong ∷ [], n)
  handle now Msg.pong n = ([], n)
  handle now (Msg.soy node persona) n = ([], n)
  handle now (Msg.caja obra para de paso cuerpo saltos) n = ([], n)

  -- `handle_de`: the answers, what goes to other nodes, and the node.
  unfoldable pub handle_de :
      ℤ → Msg V → Option Text → Nodo V → List (Msg V) × List (Envio V) × Nodo V
  unfolding recibir_soy recibir_caja handle
  handle_de now (Msg.soy node persona) origen n =
      let r = recibir_soy node persona origen n in ([], r.0, r.1)
  handle_de now (Msg.caja obra para de paso cuerpo saltos) origen n =
      let r = recibir_caja obra para de paso cuerpo saltos origen n in ([], r.0, r.1)
  handle_de now m origen n = let r = handle now m n in (r.0, [], r.1)
