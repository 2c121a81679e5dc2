-- ===== src/Red.antt =====
-- crates/konstruado-net/src/proto.rs and lib.rs: the messages of the swarm, the values of the store and
-- the keys that they stand under. A stored value is read and written by `serde_json` only: its bytes are
-- the type `V`.
pub mod Almacen
pub mod Nodo
use home_builder_pay.Base.{
  ℕ, Bool, true, false, Option, none, some, List, [], ◌∷◌, ◌++◌, Text, chars,
}
use home_builder_pay.Acuerdo.{Persona, Oferta, Obra}
use home_builder_pay.Retiro.{RetiroOferta, utf8}

pub data PeerAddr : Type 0 where
  tcp onion : Text → ℕ → PeerAddr
  buzon : Text → PeerAddr

-- `PeerAddr::marcable`
abbrev pub marcable : PeerAddr → Bool
marcable (tcp host port) = true
marcable (onion host port) = true
marcable (buzon node) = false

-- `cuerpo` is hex; `saltos` is a `u8`.
pub data Msg (V : Type 0) : Type 0 where
  hola : Text → PeerAddr → Text → Msg V
  peers : List (Text × PeerAddr) → Msg V
  put : Text → V → Msg V
  get : Text → Msg V
  got : Text → Option V → Msg V
  ping pong : Msg V
  soy : (node persona : Text) → Msg V
  caja : (obra para de paso cuerpo : Text) → (saltos : ℕ) → Msg V

pub record CajaMsg : Type 0 where
  pub obra : Text
  pub de : Text
  pub paso : Text
  pub cuerpo : List ℕ

-- `serde_json::to_vec` and `serde_json::from_slice` at a list of `A`.
pub record Json (V A : Type 0) : Type 0 where
  pub to_vec : List A → Option V
  pub from_slice : V → Option (List A)

-- What the program calls of other libraries: JSON, SHA-256, hex. `vacio` is the empty byte string.
pub record Externo (V : Type 0) : Type 0 where
  pub vacio : V
  pub ofertas : Json V Oferta
  pub obras : Json V Obra
  pub presentes : Json V Persona
  pub retiradas : Json V RetiroOferta
  pub sha256 : List ℕ → List ℕ
  pub hex_encode : List ℕ → Text
  pub hex_decode : Text → Option (List ℕ)

abbrev pub red : Text
red = chars "konstruado-red-1"

abbrev pub o_nada {ℓ} : {A : Type ℓ} → A → Option A → A
o_nada a none = a
o_nada a (some b) = b

module _ {V : Type 0} (e : Externo V) where
  -- `encode_*` and `decode_*`: `unwrap_or_default` on both sides.
  abbrev pub encode : {A : Type 0} → Json V A → List A → V
  encode j xs = o_nada e.vacio (j.to_vec xs)

  abbrev pub decode : {A : Type 0} → Json V A → V → List A
  decode j b = o_nada [] (j.from_slice b)

  unfoldable pub swarm_id : List ℕ
  swarm_id = e.sha256 (utf8 red)

  -- `key_hex` of `clave_tablero`, `clave_obras`, `clave_presentes` and `clave_retiradas`.
  unfoldable pub clave_tablero : Text
  clave_tablero = e.hex_encode (e.sha256 (swarm_id ++ utf8 (chars "tablero")))

  unfoldable pub clave_obras : Text
  clave_obras = e.hex_encode (e.sha256 (swarm_id ++ utf8 (chars "obras")))

  unfoldable pub clave_presentes : Text
  clave_presentes = e.hex_encode (e.sha256 (swarm_id ++ utf8 (chars "presentes")))

  unfoldable pub clave_retiradas : Text
  clave_retiradas = e.hex_encode (e.sha256 (swarm_id ++ utf8 (chars "retiradas")))
