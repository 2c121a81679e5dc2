-- ===== src/Sellado.antt =====
-- crates/konstruado-core/src/caja.rs, and the methods of `Obra` in acuerdo.rs that seal its texts. What
-- the code calls of `base64` and `crypto_box` is the record `Cripto`; the nonces that the generator
-- draws are the sequence `azar`, with the number of those already drawn.
pub mod Claro
pub mod Conserva
use home_builder_pay.Base.{
  ℕ, ◌+◌, Bool, true, false, ◌&&◌, ◌||◌, not, Option, none, some, List, [], ◌∷◌, ◌++◌, map, any,
  ◌==◌, if◌then◌else◌, length, Error, Result, ok, err, bind, ok_or, Text, text_eq, is_empty, chars,
}
use home_builder_pay.Acuerdo.{NotaPartida, Partida, ExtraPartida, Obra}
use home_builder_pay.Acuerdo.Partes.{estampar_clave}
use home_builder_pay.Retiro.{utf8}

-- Keys, messages and sealed messages are lists of bytes.
pub record Cripto : Type 0 where
  pub codificar : List ℕ → Text  -- `B64.encode`
  pub decodificar : Text → Option (List ℕ)  -- `B64.decode`
  pub publica : List ℕ → List ℕ  -- `SecretKey::public_key`
  pub cifrar : List ℕ → List ℕ → List ℕ → List ℕ → Option (List ℕ)  -- `ChaChaBox::new`, `encrypt`
  pub azar : ℕ → List ℕ  -- `ChaChaBox::generate_nonce`

-- `SecretKey::from_slice` and `PublicKey::from_slice` take 32 bytes.
abbrev clave_de : List ℕ → Option (List ℕ)
clave_de raw = if length raw == 32 then some raw else none

abbrev luego {ℓ κ} : {A : Type ℓ} {B : Type κ} → Option A → (A → Option B) → Option B
luego none f = none
luego (some a) f = f a

module _ (c : Cripto) where
  -- `pub_de`
  unfoldable pub pub_de : Text → Option Text
  pub_de sec_b64 =
      luego (c.decodificar sec_b64)
        λ raw. luego (clave_de raw) λ sec. some (c.codificar (c.publica sec))

  -- `asegurar_clave`, with the pair that `generar_clave` would make.
  unfoldable pub asegurar_clave : Text × Text → Text → Text → Text × Text
  asegurar_clave nuevas sec pubk = elim (pub_de sec) [
    | none ↦ nuevas
    | some derived ↦ if is_empty pubk || text_eq pubk derived then (sec, derived) else nuevas
  ]

  -- `par`
  unfoldable pub par : Text → Text → Result (List ℕ × List ℕ)
  par mi_sec otro_pub = bind (ok_or (c.decodificar mi_sec) Error.sin_clave) λ sec_raw.
      bind (ok_or (c.decodificar otro_pub) Error.sin_clave) λ pub_raw.
        bind (ok_or (clave_de sec_raw) Error.sin_clave)
          λ sec. bind (ok_or (clave_de pub_raw) Error.sin_clave) λ pubk. ok (sec, pubk)

  -- `sellar` of caja.rs, with the nonce drawn.
  unfoldable pub sellar_caja : List ℕ → Text → Text → Text → Text → Result Text
  unfolding par utf8
  sellar_caja nonce mi_sec otro_pub aad plano = bind (par mi_sec otro_pub) λ k.
      bind (ok_or (c.cifrar k.0 k.1 nonce (utf8 aad ++ 0 ∷ utf8 plano)) Error.sin_clave)
        λ ct. ok (c.codificar (nonce ++ ct))

-- `pub_otro`
unfoldable pub pub_otro : Obra → Text → Result Text
pub_otro o mi_pub =
    if text_eq o.mandante.clave_pub mi_pub
    then ok o.contratista.clave_pub
    else if text_eq o.contratista.clave_pub mi_pub
    then ok o.mandante.clave_pub
    else err Error.sin_clave

abbrev pub nota_clara : NotaPartida → Bool
nota_clara n = is_empty n.caja && not (is_empty n.texto)

abbrev pub extra_clara : Option ExtraPartida → Bool
extra_clara none = false
extra_clara (some e) = is_empty e.detalle_caja && not (is_empty e.detalle)

-- `hay_texto_claro`
unfoldable pub hay_texto_claro : Obra → Bool
hay_texto_claro o = any (λ p. any nota_clara p.notas) o.partidas || extra_clara o.extra

abbrev pub sin_nota : NotaPartida → NotaPartida
sin_nota n = record n { texto = [] }

abbrev pub limpiar_nota : NotaPartida → NotaPartida
limpiar_nota n = if is_empty n.caja then n else sin_nota n

abbrev pub con_notas : (NotaPartida → NotaPartida) → Partida → Partida
con_notas f p = record p { notas = map f p.notas }

abbrev pub sin_detalle : Option ExtraPartida → Option ExtraPartida
sin_detalle none = none
sin_detalle (some e) = some (record e { detalle = [] })

abbrev pub limpiar_extra : Option ExtraPartida → Option ExtraPartida
limpiar_extra none = none
limpiar_extra (some e) =
    if is_empty e.detalle_caja then some e else some (record e { detalle = [] })

-- `limpiar_claro_sellado`
unfoldable pub limpiar_claro_sellado : Obra → Obra
limpiar_claro_sellado o = record o {
  partidas = map (con_notas limpiar_nota) o.partidas;
  extra = limpiar_extra o.extra;
}

-- `sin_texto_claro`
unfoldable pub sin_texto_claro : Obra → Obra
sin_texto_claro o = record o {
  partidas = map (con_notas sin_nota) o.partidas;
  extra = sin_detalle o.extra;
}

module _ (c : Cripto) (mi_sec otro id : Text) where
  -- The two loops of `sellar`: what they return, the nonces drawn, and the list as they leave it, which on
  -- an error is sealed up to the note that failed.
  unfoldable pub sellar_notas : ℕ → List NotaPartida → Result (Unit {0}) × (ℕ × List NotaPartida)
  sellar_notas k [] = (ok tt, (k, []))
  sellar_notas k (n ∷ ns) =
      let mas = sellar_notas (if nota_clara n then k + 1 else k) ns in
      if nota_clara n
      then elim (sellar_caja c (c.azar k) mi_sec otro (id ++ chars ":nota") n.texto) [
        | err e ↦ (err e, (k + 1, n ∷ ns))
        | ok caja ↦ (mas.0, (mas.1.0, record n { caja = caja; texto = [] } ∷ mas.1.1))
      ]
      else (mas.0, (mas.1.0, n ∷ mas.1.1))

  unfoldable pub sellar_partidas : ℕ → List Partida → Result (Unit {0}) × (ℕ × List Partida)
  sellar_partidas k [] = (ok tt, (k, []))
  sellar_partidas k (p ∷ ps) =
      let r = sellar_notas k p.notas in
      let mas = sellar_partidas r.1.0 ps in
      elim r.0 [
        | err e ↦ (err e, (r.1.0, record p { notas = r.1.1 } ∷ ps))
        | ok _ ↦ (mas.0, (mas.1.0, record p { notas = r.1.1 } ∷ mas.1.1))
      ]

  unfoldable pub sellar_el_extra : ℕ → Option ExtraPartida → Result (Option ExtraPartida)
  sellar_el_extra k none = ok none
  sellar_el_extra k (some e) =
      if extra_clara (some e)
      then bind (sellar_caja c (c.azar k) mi_sec otro (id ++ chars ":extra") e.detalle)
          (λ caja. ok (some (record e { detalle_caja = caja; detalle = [] })))
      else ok (some e)

-- The body of `Obra::sellar` behind its checks.
unfoldable pub sellar_con : Cripto → Text → Text → Obra → Result (Unit {0}) × Obra
sellar_con c mi_sec otro o =
    let r = sellar_partidas c mi_sec otro o.id 0 o.partidas in
    let o1 = record o { partidas = r.1.1 } in
    elim r.0 [
      | err e ↦ (err e, o1)
      | ok _ ↦ elim (sellar_el_extra c mi_sec otro o.id r.1.0 o.extra) [
        | err e ↦ (err e, o1)
        | ok ex ↦ (ok tt, record o1 { extra = ex })
      ]
    ]

-- `Obra::sellar` once the key of the other side is looked up.
abbrev pub sellar_para : Cripto → Text → Obra → Result Text → Result (Unit {0}) × Obra
sellar_para c mi_sec o (err e) = (err e, o)
sellar_para c mi_sec o (ok otro) =
    if is_empty otro then (err Error.sin_clave, o) else sellar_con c mi_sec otro o

-- `Obra::sellar`
unfoldable pub sellar : Cripto → Text → Obra → Result (Unit {0}) × Obra
sellar c mi_sec o =
    if not (hay_texto_claro o)
    then (ok tt, limpiar_claro_sellado o)
    else sellar_para c mi_sec o (bind (ok_or (pub_de c mi_sec) Error.sin_clave) (pub_otro o))

-- `Obra::preparar_para_red`
unfoldable pub preparar_para_red : Cripto → Text → Text → Text → Obra → Result (Unit {0}) × Obra
preparar_para_red c mi_id mi_pub mi_sec o = sellar c mi_sec (estampar_clave mi_id mi_pub o)
