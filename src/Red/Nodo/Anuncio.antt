-- ===== src/Red/Nodo/Anuncio.antt =====
-- dht.rs: what a node says of its jobs to other nodes. The note and the proposed extra installment may
-- stand in clear in the store of the node itself.
use home_builder_pay.Base.{
  ◌≡◌, refl, false, Option, none, some, List, [], ◌∷◌, map, if◌then◌else◌, ℤ, Text, text_eq, any,
  All, arith, Bool-cases, inl, inr,
}
use home_builder_pay.Base.Dict
use home_builder_pay.Base.Dict.{Dict}
use home_builder_pay.Acuerdo.{Obra}
use home_builder_pay.Sellado.{sin_texto_claro}
use home_builder_pay.Sellado.Claro.{nota_con_texto, extra_con_texto, sin_texto_claro_lem}
use home_builder_pay.Red.{PeerAddr, Msg, Externo, red, decode, clave_obras}
use home_builder_pay.Red.Almacen.{valor_para_red, put_de, obras_de}
use home_builder_pay.Red.Almacen.Vista.{Fiel}
use home_builder_pay.Red.Nodo.{Nodo, handle_de, recibir_hola}

-- No note of the job and no proposed extra installment has a text in clear.
abbrev pub SinTexto : Obra → Type 0
SinTexto o =
    (any (λ p. any nota_con_texto p.notas) o.partidas ≡ false) × (extra_con_texto o.extra ≡ false)

SinTexto-map : (os : List Obra) → All SinTexto (map sin_texto_claro os)
SinTexto-map [] = tt
SinTexto-map (o ∷ os) = (((sin_texto_claro_lem o).0, (sin_texto_claro_lem o).1), SinTexto-map os)

module _ {V : Type 0} (e : Externo V) where
  -- A message that announces jobs announces them without texts in clear.
  abbrev pub anunciadas : Text → V → List Obra
  anunciadas key val = if text_eq key (clave_obras e) then decode e e.obras val else []

  abbrev pub Callado : Msg V → Type 0
  Callado (Msg.put key val) = All SinTexto (anunciadas key val)
  Callado _ = Unit {0}

  module _ (f : Fiel e) where
    put_de-Callado : (kv : Text × V) → Callado (put_de e kv)
    unfolding valor_para_red
    put_de-Callado (key, val) = elim (Bool-cases (text_eq key (clave_obras e))) [
      | inl si ↦
          rw (si, f.obras_lem (map sin_texto_claro (decode e e.obras val)))
            (SinTexto-map (decode e e.obras val))
      | inr otra ↦ rw otra tt
    ]

    puts-Callado : (s : Dict V) → All Callado (map (put_de e) s)
    puts-Callado [] = tt
    puts-Callado (kv ∷ s) = (put_de-Callado kv, puts-Callado s)

    hola-Callado :
        (now : ℤ) (node : Text) (addr : PeerAddr) (swarm : Text) (n : Nodo V)
        → All Callado (recibir_hola e now node addr swarm n).0
    unfolding recibir_hola
    hola-Callado now node addr swarm n = elim (Bool-cases (text_eq swarm red)) [
      | inr otra ↦ rw otra tt
      | inl esta ↦ rw esta (tt, puts-Callado n.store)
    ]

    -- If lists are read back as they were written (`Fiel`): whatever message arrives, the
    -- announcements (`Put`) in the answer carry no note and no proposed extra installment in clear.
    pub handle_de-Callado :
        (now : ℤ) (m : Msg V) (origen : Option Text) (n : Nodo V)
        → All Callado (handle_de e now m origen n).0
    unfolding handle_de
    handle_de-Callado now (Msg.hola node addr swarm) origen n = hola-Callado now node addr swarm n
    handle_de-Callado now (Msg.peers list) origen n = tt
    handle_de-Callado now (Msg.put key val) origen n = tt
    handle_de-Callado now (Msg.get key) origen n = (tt, tt)
    handle_de-Callado now (Msg.got key none) origen n = tt
    handle_de-Callado now (Msg.got key (some val)) origen n = tt
    handle_de-Callado now Msg.ping origen n = (tt, tt)
    handle_de-Callado now Msg.pong origen n = tt
    handle_de-Callado now (Msg.soy node p) origen n = tt
    handle_de-Callado now (Msg.caja obra para de paso cuerpo k) origen n = tt

  -- Where jobs are stored, the answer to a `Get` of them is what is stored, with the texts that stand
  -- in clear there: read back, it is every job of the store, and the store is unchanged.
  pub handle_de-get :
      (now : ℤ) (origen : Option Text) (n : Nodo V) (b : V)
      → Dict.get (clave_obras e) n.store ≡ some b
      → (handle_de e now (Msg.get (clave_obras e)) origen n
          ≡ (Msg.got (clave_obras e) (some b) ∷ [], [], n))
        × (decode e e.obras b ≡ obras_de e n.store)
  unfolding handle_de
  handle_de-get now origen n b h = (rw h refl, ground arith)
