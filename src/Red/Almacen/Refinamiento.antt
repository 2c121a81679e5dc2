-- ===== src/Red/Almacen/Refinamiento.antt =====
-- dht.rs `merge_store`: each merge is a change of one or two of the four lists of the store.
use home_builder_pay.Base.{
  ◌≡◌, refl, ap, ◌∙◌, Bool, false, not, Option, none, some, List, [], ◌∷◌, if◌then◌else◌, ◌==◌,
  arith, Text, text_eq, length, filter, any, Bool-cases, inl, inr, ==_iff, ◌≤◌,
}
use home_builder_pay.Base.Dict
use home_builder_pay.Base.Dict.{Dict}
use home_builder_pay.Retiro.{RetiroOferta, sin_retiradas, vale_para}
use home_builder_pay.Red.{
  Externo, encode, decode, clave_tablero, clave_obras, clave_presentes, clave_retiradas,
}
use home_builder_pay.Red.Almacen.{
  fundir_retiros, tablero_de, retiradas_de, merge_tablero, merge_retiradas, merge_obras,
  merge_presentes, merge_store, limpiar_tablero, limpiar_valor,
}
use home_builder_pay.Red.Almacen.Vista.{
  Fiel, Vista, retiradas, fundir, vista, llegada, vista-tablero, vista-obras, vista-presentes,
  vista-retiradas, otra_clave,
}

length-filter-le {ℓ} : {A : Type ℓ} (p : A → Bool) (xs : List A) → length (filter p xs) ≤ length xs
length-filter-le p [] = omega arith
length-filter-le p (x ∷ xs) = ground (arith, length-filter-le p xs)

-- A filter that keeps the length keeps the list.
filter_full {ℓ} :
    {A : Type ℓ} (p : A → Bool) (xs : List A) → length (filter p xs) ≡ length xs → filter p xs ≡ xs
filter_full p [] h = refl
filter_full p (x ∷ xs) h = ground (arith, length-filter-le p xs, filter_full p xs)

module _ {V : Type 0} (e : Externo V) (f : Fiel e) where
  vista-limpiar_valor :
      (a : List RetiroOferta) (s : Dict V) (m : Option V)
      → Dict.get (clave_tablero e) s ≡ m
      → vista e (limpiar_valor e a s m)
        ≡ record (vista e s) { tablero = sin_retiradas e.sha256 (tablero_de e s) a }
  unfolding vista sin_retiradas
  vista-limpiar_valor a s none h = let k : tablero_de e s ≡ [] = ground arith in rw k refl
  vista-limpiar_valor a s (some b) h =
      let tab = decode e e.ofertas b in
      let k : tablero_de e s ≡ tab = ground arith in
      elim (Bool-cases (length (sin_retiradas e.sha256 tab a) == length tab)) [
        | inl todo ↦
            rw
              (
                todo,
                k,
                filter_full (λ o. not (any (λ r. vale_para e.sha256 r o) a)) tab
                    ((==_iff _ _).0 todo),
              )
              refl
        | inr menos ↦ rw (menos, k) (vista-tablero e f s (sin_retiradas e.sha256 tab a))
      ]

  vista-limpiar_tablero :
      (a : List RetiroOferta) (s : Dict V)
      → vista e (limpiar_tablero e a s)
        ≡ record (vista e s) { tablero = sin_retiradas e.sha256 (tablero_de e s) a }
  unfolding limpiar_tablero
  vista-limpiar_tablero a s = vista-limpiar_valor a s (Dict.get (clave_tablero e) s) refl

  vista-clave_nueva :
      (k : Text) (v : V) (s : Dict V)
      → text_eq k (clave_tablero e) ≡ false
      → text_eq k (clave_retiradas e) ≡ false
      → text_eq k (clave_obras e) ≡ false
      → text_eq k (clave_presentes e) ≡ false
      → vista e (if Dict.contains_key k s then s else Dict.insert k v s) ≡ vista e s
  vista-clave_nueva k v s a b c d = elim (Bool-cases (Dict.contains_key k s)) [
    | inl ya ↦ rw ya refl
    | inr no_esta ↦ rw no_esta (otra_clave e f k v s a b c d)
  ]

  vista-merge_retiradas :
      (val : V) (s : Dict V)
      → vista e (merge_retiradas e val s)
        ≡ fundir e.sha256 (retiradas (decode e e.retiradas val)) (vista e s)
  unfolding merge_retiradas fundir vista
  vista-merge_retiradas val s =
      let a = fundir_retiros (retiradas_de e s) (decode e e.retiradas val) in
      vista-limpiar_tablero a (Dict.insert (clave_retiradas e) (encode e e.retiradas a) s)
      ∙ ap (λ (w : Vista). record w { tablero = sin_retiradas e.sha256 w.tablero a })
          (vista-retiradas e f s a)

  -- What `merge_store` does to the four lists of the store is what `fundir` does with the value that
  -- arrives, read at its key.
  pub vista-merge_store :
      (key : Text) (val : V) (s : Dict V)
      → vista e (merge_store e key val s) ≡ fundir e.sha256 (llegada e key val) (vista e s)
  unfolding merge_store llegada fundir vista
  vista-merge_store key val s = elim (Bool-cases (text_eq key (clave_tablero e))) [
    | inl a ↦ rw a (unfold merge_tablero in vista-tablero e f s _)
    | inr a ↦ elim (Bool-cases (text_eq key (clave_retiradas e))) [
      | inl b ↦ rw (a, b) (vista-merge_retiradas val s)
      | inr b ↦ elim (Bool-cases (text_eq key (clave_obras e))) [
        | inl c ↦ rw (a, b, c) (unfold merge_obras in vista-obras e f s _)
        | inr c ↦ elim (Bool-cases (text_eq key (clave_presentes e))) [
          | inl d ↦ rw (a, b, c, d) (unfold merge_presentes in vista-presentes e f s _)
          | inr d ↦ rw (a, b, c, d) (vista-clave_nueva key val s a b c d)
        ]
      ]
    ]
  ]
