-- ===== src/Red/Nodo/Eventos.antt =====
-- dht.rs: every event keeps a node valid.
use home_builder_pay.Base.{
  ℕ, ◌+◌, Option, none, some, List, [], ◌∷◌, leb, ℤ, Text, text_eq, Bool-cases, inl, inr, arith,
}
use home_builder_pay.Base.Dict
use home_builder_pay.Base.Dict.{Dict}
use home_builder_pay.Red.{PeerAddr, Msg, Externo, red}
use home_builder_pay.Red.Almacen.{merge_store}
use home_builder_pay.Red.Nodo.{
  Nodo, sumar_pares, hay_ajenos, recibir_caja, recibir_hola, recibir_peers, handle, handle_de,
  es_texto, max_saltos, max_caja,
}
use home_builder_pay.Red.Nodo.Api.{
  fijar_persona, tomar_caja, publicar, retirar, quitar, publicar_obra, anunciar, actualizar_yo,
  hidratar, salir_obra_local, olvidar_salida_obra, fijar_obras_salidas,
}
use home_builder_pay.Red.Nodo.Maquina.{Evento, ocurre, ocurren}
use home_builder_pay.Red.Nodo.Sesiones.{soltar_vivo, es_sesion}
use home_builder_pay.Red.Nodo.Validez.{
  NodoValido, encolar-NodoValido, sumar_pares-propio, recibir_soy-NodoValido,
  guardar_caja-NodoValido, relevar_a-NodoValido, con_pares-NodoValido, con_estado-NodoValido,
  registrar_vivo-NodoValido,
}

module _ {V : Type 0} (e : Externo V) where
  con_store-NodoValido :
      (s : Dict V) (n : Nodo V) → NodoValido n → NodoValido (record n { store = s })
  con_store-NodoValido s n v = con_estado-NodoValido s n.sync_at n.persona n.obras_salidas n v

  con_sync-NodoValido :
      (s : Dict V) (now : ℤ) (n : Nodo V)
      → NodoValido n
      → NodoValido (record n { store = s; sync_at = now })
  con_sync-NodoValido s now n v = con_estado-NodoValido s now n.persona n.obras_salidas n v

  recibir_caja-NodoValido :
      (obra para de paso cuerpo : Text) (k : ℕ) (origen : Option Text) (n : Nodo V)
      → NodoValido n
      → NodoValido (recibir_caja e obra para de paso cuerpo k origen n).1
  unfolding recibir_caja
  recibir_caja-NodoValido obra para de paso cuerpo k origen n v =
      elim (Bool-cases (es_texto n.persona para)) [
        | inl mia ↦ rw mia (guardar_caja-NodoValido obra de paso (e.hex_decode cuerpo) n v)
        | inr ajena ↦ elim (Bool-cases (leb max_saltos k)) [
          | inl lejos ↦ rw (ajena, lejos) v
          | inr cerca ↦
              rw (ajena, cerca)
                (relevar_a-NodoValido (Dict.get para n.personas) origen
                  (Msg.caja obra para de paso cuerpo (k + 1)) n v)
        ]
      ]

  recibir_hola-NodoValido :
      (now : ℤ) (node : Text) (addr : PeerAddr) (swarm : Text) (n : Nodo V)
      → NodoValido n
      → NodoValido (recibir_hola e now node addr swarm n).1
  unfolding recibir_hola
  recibir_hola-NodoValido now node addr swarm n v = elim (Bool-cases (text_eq swarm red)) [
    | inr otra ↦ rw otra v
    | inl esta ↦ elim (Bool-cases (text_eq node n.id)) [
      | inl yo ↦ rw (esta, yo) v
      | inr otro ↦
          rw (esta, otro)
            (con_sync-NodoValido n.store now (record n { peers = Dict.insert node addr n.peers })
              (con_pares-NodoValido (Dict.insert node addr n.peers) n
                (ground (arith, v.sin_par_propio, Dict.get-insert node n.id addr n.peers)) v))
    ]
  ]

  recibir_peers-NodoValido :
      (now : ℤ) (list : List (Text × PeerAddr)) (n : Nodo V)
      → NodoValido n
      → NodoValido (recibir_peers e now list n)
  unfolding recibir_peers
  recibir_peers-NodoValido now list n v =
      let w =
        con_pares-NodoValido (sumar_pares n.id list n.peers) n
          (sumar_pares-propio n.id list n.peers v.sin_par_propio) v in
      elim (Bool-cases (hay_ajenos n.id list)) [
        | inl hay ↦
            rw hay (
              con_sync-NodoValido n.store now (record n { peers = sumar_pares n.id list n.peers })
                w)
        | inr ninguno ↦ rw ninguno w
      ]

  handle_de-NodoValido :
      (now : ℤ) (m : Msg V) (origen : Option Text) (n : Nodo V)
      → NodoValido n
      → NodoValido (handle_de e now m origen n).2
  unfolding handle_de handle
  handle_de-NodoValido now (Msg.hola node addr swarm) origen n v =
      recibir_hola-NodoValido now node addr swarm n v
  handle_de-NodoValido now (Msg.peers list) origen n v = recibir_peers-NodoValido now list n v
  handle_de-NodoValido now (Msg.put key val) origen n v =
      con_sync-NodoValido (merge_store e key val n.store) now n v
  handle_de-NodoValido now (Msg.get key) origen n v = v
  handle_de-NodoValido now (Msg.got key none) origen n v = v
  handle_de-NodoValido now (Msg.got key (some val)) origen n v =
      con_sync-NodoValido (merge_store e key val n.store) now n v
  handle_de-NodoValido now Msg.ping origen n v = v
  handle_de-NodoValido now Msg.pong origen n v = v
  handle_de-NodoValido now (Msg.soy node p) origen n v = recibir_soy-NodoValido node p origen n v
  handle_de-NodoValido now (Msg.caja obra para de paso cuerpo k) origen n v =
      recibir_caja-NodoValido obra para de paso cuerpo k origen n v

  soltar_vivo-NodoValido :
      (node : Text) (sid : ℕ) (n : Nodo V) → NodoValido n → NodoValido (soltar_vivo node sid n)
  unfolding soltar_vivo
  soltar_vivo-NodoValido node sid n v = elim (Bool-cases (es_sesion (Dict.get node n.vivos) sid)) [
    | inr otra ↦ rw otra v
    | inl esta ↦ rw esta (
        let r : NodoValido (record n { vivos = Dict.remove node n.vivos }) = record {
          sin_par_propio = v.sin_par_propio;
          sin_sesion_propia =
              ground (arith, v.sin_sesion_propia, Dict.get-remove node n.id n.vivos);
          personas_ajenas = v.personas_ajenas;
          caja_acotada = v.caja_acotada;
          buzon_acotado = v.buzon_acotado;
        } in
        r)
  ]

  tomar_caja-NodoValido : (n : Nodo V) → NodoValido n → NodoValido (tomar_caja n).1
  unfolding tomar_caja
  tomar_caja-NodoValido n v = record {
    sin_par_propio = v.sin_par_propio;
    sin_sesion_propia = v.sin_sesion_propia;
    personas_ajenas = v.personas_ajenas;
    caja_acotada = unfold max_caja in omega arith;
    buzon_acotado = v.buzon_acotado;
  }

  fijar_persona-NodoValido :
      (id : Text) (n : Nodo V) → NodoValido n → NodoValido (fijar_persona id n)
  unfolding fijar_persona
  fijar_persona-NodoValido [] n v = v
  fijar_persona-NodoValido (c ∷ cs) n v =
      con_estado-NodoValido n.store n.sync_at (some (c ∷ cs)) n.obras_salidas n v

  ocurre-NodoValido :
      (now : ℤ) (ev : Evento V) (n : Nodo V) → NodoValido n → NodoValido (ocurre e now ev n)
  unfolding ocurre fijar_obras_salidas publicar retirar quitar publicar_obra anunciar actualizar_yo
      hidratar salir_obra_local olvidar_salida_obra
  ocurre-NodoValido now (Evento.llega origen m) n v = handle_de-NodoValido now m origen n v
  ocurre-NodoValido now (Evento.abre node sid entrante) n v =
      registrar_vivo-NodoValido node sid entrante n v
  ocurre-NodoValido now (Evento.cierra node sid) n v = soltar_vivo-NodoValido node sid n v
  ocurre-NodoValido now (Evento.falla node m) n v = encolar-NodoValido node m n v
  ocurre-NodoValido now (Evento.persona id) n v = fijar_persona-NodoValido id n v
  ocurre-NodoValido now Evento.toma_caja n v = tomar_caja-NodoValido n v
  ocurre-NodoValido now (Evento.publica o) n v = con_store-NodoValido (publicar e o n).store n v
  ocurre-NodoValido now (Evento.retira r) n v = con_store-NodoValido (retirar e r n).store n v
  ocurre-NodoValido now (Evento.quita id) n v = con_store-NodoValido (quitar e id n).store n v
  ocurre-NodoValido now (Evento.publica_obra o) n v =
      con_estado-NodoValido (publicar_obra e o n).store n.sync_at n.persona
        (publicar_obra e o n).obras_salidas n v
  ocurre-NodoValido now (Evento.anuncia p) n v = con_store-NodoValido (anunciar e now p n).store n v
  ocurre-NodoValido now (Evento.actualiza p) n v =
      con_store-NodoValido (actualizar_yo e now p n).store n v
  ocurre-NodoValido now (Evento.hidrata os bs ps) n v =
      con_store-NodoValido (hidratar e os bs ps n).store n v
  ocurre-NodoValido now (Evento.archiva id) n v =
      con_estado-NodoValido n.store n.sync_at n.persona (salir_obra_local id n).obras_salidas n v
  ocurre-NodoValido now (Evento.olvida id) n v =
      con_estado-NodoValido n.store n.sync_at n.persona (olvidar_salida_obra id n).obras_salidas n v
  ocurre-NodoValido now (Evento.archivadas ids) n v =
      con_estado-NodoValido n.store n.sync_at n.persona (fijar_obras_salidas e ids n).obras_salidas
        n v

  -- After any events (messages from whomever, sessions that open and close, calls of the program) a node
  -- that was valid is valid: it has no address of itself among its peers and no session with itself, it
  -- gives nobody's persona as its own node, it holds at most 32 messages for its persona, and at most 64
  -- for each node that it cannot reach.
  pub ocurren-NodoValido :
      (evs : List (ℤ × Evento V)) (n : Nodo V) → NodoValido n → NodoValido (ocurren e evs n)
  unfolding ocurren
  ocurren-NodoValido [] n v = v
  ocurren-NodoValido ((now, ev) ∷ evs) n v =
      ocurren-NodoValido evs (ocurre e now ev n) (ocurre-NodoValido now ev n v)
