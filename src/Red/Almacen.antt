-- ===== src/Red/Almacen.antt =====
-- dht.rs: the replicated store and how a value that arrives is merged into it (`merge_store`).
pub mod Vista
pub mod Refinamiento
pub mod Tablero
pub mod Obras
pub mod Lapidas
pub mod Copias
pub mod Lectura
use home_builder_pay.Base.{
  ℕ, suc, zero, ◌+◌, Bool, true, false, ◌&&◌, ◌||◌, not, Option, none, some, List, [], ◌∷◌, ◌++◌,
  map, if◌then◌else◌, ltb, leb, ◌==◌, ltb_ℤ, ℤ, Text, text_eq, is_empty, is_some, length, take, any,
  filter,
}
use home_builder_pay.Base.Dict
use home_builder_pay.Base.Dict.{Dict}
use home_builder_pay.Acuerdo.{Persona, Oferta, Obra}
use home_builder_pay.Fusion.{fusionar}
use home_builder_pay.Sellado.{sin_texto_claro}
use home_builder_pay.Retiro.{RetiroOferta, mejor_que, sin_retiradas}
use home_builder_pay.Red.{
  Json, Msg, Externo, encode, decode, o_nada, clave_tablero, clave_obras, clave_presentes,
  clave_retiradas,
}

-- `iter_mut().find(…)`: the first element that fits is replaced; where none does, the new one is pushed.
unfoldable pub reemplazar {ℓ} : {A : Type ℓ} → (A → Bool) → (A → A) → A → List A → List A
reemplazar p f nuevo [] = nuevo ∷ []
reemplazar p f nuevo (x ∷ xs) = if p x then f x ∷ xs else x ∷ reemplazar p f nuevo xs

-- The body of the loop over the offers that arrive.
unfoldable pub unir_oferta : Oferta → List Oferta → List Oferta
unfolding reemplazar
unir_oferta o a = reemplazar (λ x. text_eq x.id o.id) (λ ex. if mejor_que o ex then o else ex) o a

unfoldable pub unir_ofertas : List Oferta → List Oferta → List Oferta
unir_ofertas a [] = a
unir_ofertas a (o ∷ b) = unir_ofertas (unir_oferta o a) b

abbrev pub retiro_igual : RetiroOferta → RetiroOferta → Bool
retiro_igual r x =
    text_eq x.oferta_id r.oferta_id && text_eq x.autor_id r.autor_id && text_eq x.prueba r.prueba

unfoldable pub unir_retiro : RetiroOferta → List RetiroOferta → List RetiroOferta
unir_retiro r a =
    if is_empty r.oferta_id || is_empty r.autor_id
    then a
    else if any (retiro_igual r) a
    then a
    else a ++ r ∷ []

unfoldable pub unir_retiros : List RetiroOferta → List RetiroOferta → List RetiroOferta
unir_retiros a [] = a
unir_retiros a (r ∷ b) = unir_retiros (unir_retiro r a) b

-- `sort_by(|x, y| y.cuando.cmp(&x.cuando))`: stable, the newest first.
unfoldable pub ubicar : RetiroOferta → List RetiroOferta → List RetiroOferta
ubicar r [] = r ∷ []
ubicar r (x ∷ xs) = if ltb_ℤ r.cuando x.cuando then x ∷ ubicar r xs else r ∷ x ∷ xs

unfoldable pub por_fecha : List RetiroOferta → List RetiroOferta
unfolding ubicar
por_fecha [] = []
por_fecha (r ∷ rs) = ubicar r (por_fecha rs)

unfoldable pub max_retiradas : ℕ
max_retiradas = 512

unfoldable pub fundir_retiros : List RetiroOferta → List RetiroOferta → List RetiroOferta
fundir_retiros a b = take max_retiradas (por_fecha (unir_retiros a b))

unfoldable pub unir_obra : Obra → List Obra → List Obra
unfolding reemplazar
unir_obra o a = reemplazar (λ x. text_eq x.id o.id) (λ ex. fusionar ex o) o a

unfoldable pub unir_obras : List Obra → List Obra → List Obra
unir_obras a [] = a
unir_obras a (o ∷ b) = unir_obras (unir_obra o a) b

unfoldable pub unir_presente : Persona → List Persona → List Persona
unfolding reemplazar
unir_presente p a =
    reemplazar (λ x. text_eq x.id p.id) (λ ex. if ltb_ℤ p.visto ex.visto then ex else p) p a

unfoldable pub unir_presentes : List Persona → List Persona → List Persona
unir_presentes a [] = a
unir_presentes a (p ∷ b) = unir_presentes (unir_presente p a) b

module _ {V : Type 0} (e : Externo V) where
  -- `store.get(&key).map(decode).unwrap_or_default()`
  abbrev pub leer_en : {A : Type 0} → Json V A → Text → Dict V → List A
  leer_en j k s = elim (Dict.get k s) [ none ↦ [] | some b ↦ decode e j b ]

  abbrev pub tablero_de : Dict V → List Oferta
  tablero_de s = leer_en e.ofertas (clave_tablero e) s

  abbrev pub obras_de : Dict V → List Obra
  obras_de s = leer_en e.obras (clave_obras e) s

  abbrev pub presentes_de : Dict V → List Persona
  presentes_de s = leer_en e.presentes (clave_presentes e) s

  abbrev pub retiradas_de : Dict V → List RetiroOferta
  retiradas_de s = leer_en e.retiradas (clave_retiradas e) s

  -- The branches of `merge_store`.
  unfoldable pub merge_tablero : V → Dict V → Dict V
  merge_tablero val s =
      Dict.insert (clave_tablero e)
        (encode e e.ofertas (
          sin_retiradas e.sha256 (unir_ofertas (tablero_de s) (decode e e.ofertas val))
            (retiradas_de s)))
        s

  -- The last lines of the branch of the withdrawals: what they take from the board that is stored.
  abbrev pub limpiar_valor : List RetiroOferta → Dict V → Option V → Dict V
  limpiar_valor a s none = s
  limpiar_valor a s (some b) =
      let tab = decode e e.ofertas b in
      let queda = sin_retiradas e.sha256 tab a in
      if length queda == length tab
      then s
      else Dict.insert (clave_tablero e) (encode e e.ofertas queda) s

  unfoldable pub limpiar_tablero : List RetiroOferta → Dict V → Dict V
  limpiar_tablero a s = limpiar_valor a s (Dict.get (clave_tablero e) s)

  unfoldable pub merge_retiradas : V → Dict V → Dict V
  merge_retiradas val s =
      let a = fundir_retiros (retiradas_de s) (decode e e.retiradas val) in
      limpiar_tablero a (Dict.insert (clave_retiradas e) (encode e e.retiradas a) s)

  unfoldable pub merge_obras : V → Dict V → Dict V
  merge_obras val s =
      Dict.insert (clave_obras e)
        (encode e e.obras (unir_obras (obras_de s) (decode e e.obras val))) s

  unfoldable pub merge_presentes : V → Dict V → Dict V
  merge_presentes val s =
      Dict.insert (clave_presentes e)
        (encode e e.presentes (unir_presentes (presentes_de s) (decode e e.presentes val))) s

  unfoldable pub merge_store : Text → V → Dict V → Dict V
  merge_store key val s =
      if text_eq key (clave_tablero e)
      then merge_tablero val s
      else if text_eq key (clave_retiradas e)
      then merge_retiradas val s
      else if text_eq key (clave_obras e)
      then merge_obras val s
      else if text_eq key (clave_presentes e)
      then merge_presentes val s
      else if Dict.contains_key key s
      then s
      else Dict.insert key val s

  -- `valor_para_red` and `put_de`: the announcement of a stored value.
  unfoldable pub valor_para_red : Text → V → V
  valor_para_red key val =
      if text_eq key (clave_obras e)
      then encode e e.obras (map sin_texto_claro (decode e e.obras val))
      else val

  abbrev pub put_de : Text × V → Msg V
  put_de (key, val) = Msg.put key (valor_para_red key val)
