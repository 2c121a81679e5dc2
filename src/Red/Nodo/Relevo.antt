-- ===== src/Red/Nodo/Relevo.antt =====
-- dht.rs: the way of a message of the box from node to node, and of the announcement of a persona.
use home_builder_pay.Base.{
  ℕ, ◌+◌, ◌≡◌, ◌⊎◌, refl, true, ◌||◌, Option, none, some, List, [], ◌∷◌, if◌then◌else◌, leb, ℤ,
  Text, text_eq, text_eq_iff, arith, Option-cases, Bool-cases, inl, inr, is_empty,
}
use home_builder_pay.Base.Dict
use home_builder_pay.Base.Dict.{Dict}
use home_builder_pay.Red.{PeerAddr, marcable, Msg, Externo}
use home_builder_pay.Red.Nodo.{
  Envio, Nodo, max_saltos, encolar, recibir_soy, recibir_caja, guardar_caja, relevar_por, relevar_a,
  ruta, handle_de, es_texto,
}

-- The message that a node passes on, if it passes `m` on at all.
abbrev pasa_a : {V : Type 0} → Option Text → Option Text → Msg V → Nodo V → Option (Msg V)
pasa_a none origen fwd n = none
pasa_a (some dest) origen fwd n =
    if es_texto origen dest || text_eq dest n.id then none else some fwd

abbrev pub pasa : {V : Type 0} → Msg V → Option Text → Nodo V → Option (Msg V)
pasa (Msg.caja obra para de paso cuerpo saltos) origen n =
    if es_texto n.persona para || leb max_saltos saltos
    then none
    else pasa_a (Dict.get para n.personas) origen (Msg.caja obra para de paso cuerpo (saltos + 1)) n
pasa _ origen n = none

-- What a node does to pass `fwd` on: it sends it to one node, or keeps it for a node.
abbrev pub Sale : {V : Type 0} → Option (Msg V) → List (Envio V) → Nodo V → Nodo V → Type 0
Sale none envios n x = (envios ≡ []) × (x.buzon ≡ n.buzon)
Sale {V} (some fwd) envios n x =
    (dest : Text) × (((envios ≡ Envio.por_sesion dest fwd ∷ []) × (x ≡ n))
      ⊎ ((addr : PeerAddr) × (envios ≡ Envio.por_marcado dest addr fwd ∷ []) × (x ≡ n))
      ⊎ ((envios ≡ []) × (x ≡ encolar dest fwd n)))

-- Where `ruta` leads.
ruta-cases :
    {V : Type 0} (dest : Text) (fwd : Msg V) (n : Nodo V)
    → (ruta n dest fwd ≡ none)
      ⊎ (ruta n dest fwd ≡ some (Envio.por_sesion dest fwd))
      ⊎ ((addr : PeerAddr) × (ruta n dest fwd ≡ some (Envio.por_marcado dest addr fwd)))
unfolding ruta
ruta-cases dest fwd n = elim (Bool-cases (Dict.contains_key dest n.vivos)) [
  | inl vivo ↦ inr (inl (rw vivo refl))
  | inr frio ↦ elim (Option-cases (Dict.get dest n.peers)) [
    | inl nadie ↦ inl (rw (frio, nadie) refl)
    | inr (addr, par) ↦ elim (Bool-cases (marcable addr)) [
      | inl si ↦ inr (inr (addr, rw (frio, par, si) refl))
      | inr buzon ↦ inl (rw (frio, par, buzon) refl)
    ]
  ]
]

relevar_por-Sale :
    {V : Type 0} (dest : Text) (fwd : Msg V) (n : Nodo V)
    → Sale
        (some fwd)
        (relevar_por dest (ruta n dest fwd) fwd n).0
        n
        (relevar_por dest (ruta n dest fwd) fwd n).1
relevar_por-Sale dest fwd n = elim (ruta-cases dest fwd n) [
  | inl nada ↦ rw nada (dest, inr (inr (refl, refl)))
  | inr (inl sesion) ↦ rw sesion (dest, inl (refl, refl))
  | inr (inr (addr, marca)) ↦ rw marca (dest, inr (inl (addr, refl, refl)))
]

relevar_a-Sale :
    {V : Type 0} (dest origen : Option Text) (fwd : Msg V) (n : Nodo V)
    → Sale
        (pasa_a dest origen fwd n)
        (relevar_a dest origen fwd n).0
        n
        (relevar_a dest origen fwd n).1
relevar_a-Sale none origen fwd n = (refl, refl)
relevar_a-Sale (some dest) origen fwd n =
    elim (Bool-cases (es_texto origen dest || text_eq dest n.id)) [
      | inl vuelve ↦ rw vuelve (refl, refl)
      | inr sigue ↦ rw sigue (relevar_por-Sale dest fwd n)
    ]

guardar_caja-buzon :
    {V : Type 0} (obra de paso : Text) (b : Option (List ℕ)) (n : Nodo V)
    → (guardar_caja obra de paso b n).buzon ≡ n.buzon
guardar_caja-buzon obra de paso none n = refl
guardar_caja-buzon obra de paso (some b) n = ground arith

module _ {V : Type 0} (e : Externo V) where
  -- A node that gets a message of the box sends it to one node, or keeps it for one, exactly where
  -- `pasa` says, with one more hop; otherwise it sends and keeps nothing for others.
  pub handle_de-Sale :
      (now : ℤ) (obra para de paso cuerpo : Text) (k : ℕ) (origen : Option Text) (n : Nodo V)
      → let r = handle_de e now (Msg.caja obra para de paso cuerpo k) origen n in
        Sale (pasa (Msg.caja obra para de paso cuerpo k) origen n) r.1 n r.2
  unfolding handle_de recibir_caja
  handle_de-Sale now obra para de paso cuerpo k origen n =
      elim (Bool-cases (es_texto n.persona para)) [
        | inl mia ↦ rw mia (refl, guardar_caja-buzon obra de paso (e.hex_decode cuerpo) n)
        | inr ajena ↦ elim (Bool-cases (leb max_saltos k)) [
          | inl lejos ↦ rw (ajena, lejos) (refl, refl)
          | inr cerca ↦
              rw (ajena, cerca)
                (relevar_a-Sale (Dict.get para n.personas) origen
                  (Msg.caja obra para de paso cuerpo (k + 1)) n)
        ]
      ]

module _ {V : Type 0} where
  -- An announcement that comes again changes nothing and is not passed on, so it does not go round.
  pub recibir_soy_idem :
      (node persona : Text) (origen otro : Option Text) (n : Nodo V)
      → recibir_soy node persona otro (recibir_soy node persona origen n).1
        ≡ ([], (recibir_soy node persona origen n).1)
  unfolding recibir_soy
  recibir_soy_idem node persona origen otro n =
      elim (Bool-cases (is_empty node || is_empty persona || text_eq node n.id)) [
        | inl a ↦ rw (a, a) refl
        | inr a ↦ elim (Bool-cases (es_texto (Dict.get persona n.personas) node)) [
          | inl b ↦ rw (a, b, a, b) refl
          | inr b ↦ rw (a, b, a, sabe) refl
        ]
      ]
    where
      sabe : es_texto (Dict.get persona (Dict.insert persona node n.personas)) node ≡ true
      sabe = ground (
        arith,
        Dict.get-insert persona persona node n.personas,
        text_eq_iff persona persona,
        text_eq_iff node node,
      )
