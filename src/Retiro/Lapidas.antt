-- ===== src/Retiro/Lapidas.antt =====
-- retiro.rs: who can withdraw an offer, and what a withdrawal does to the board. That the digest gives
-- bytes is the hypothesis `en_bytes` on the parameter `sha256`.
use home_builder_pay.Base.{
  ℕ, ◌<◌, ◌≡◌, refl, sym, ap, ◌∙◌, true, false, ◌||◌, Option, none, some, List, [], ◌∷◌, ◌++◌, All,
  arith, Text, text_eq_iff, is_empty, any, ℤ, ok,
}
use home_builder_pay.Precio.{trim}
use home_builder_pay.Acuerdo.{Oferta, Obra}
use home_builder_pay.Acuerdo.Partes.{oferta_en_tablero}
use home_builder_pay.Retiro.{
  RetiroOferta, hex, unhex, utf8, dominio, secreto, hash_hex, sellar_retiro, con_retiro, vale_para,
  lapida, retirar_oferta, sin_retiradas, prueba_vale,
}
use home_builder_pay.Retiro.Hex.{unhex-hex, hex-injective}

module _ (sha256 : List ℕ → List ℕ) where
  -- Every withdrawal that is made is valid for its offer, and the offer is the withdrawer's own and is
  -- on the board.
  pub retirar_oferta-vale :
      (o : Oferta) (yo clave : Text) (obras : List Obra) (now : ℤ) (r : RetiroOferta)
      → retirar_oferta sha256 o yo clave obras now ≡ ok r
      → (vale_para sha256 r o ≡ true) × (o.mandante.id ≡ yo) × (oferta_en_tablero o.id obras ≡ true)
  unfolding retirar_oferta
  retirar_oferta-vale o yo clave obras now r h = ground (arith, text_eq_iff o.mandante.id yo)

  any-append :
      (o : Oferta) (rs ss : List RetiroOferta)
      → any (λ r. vale_para sha256 r o) (rs ++ ss)
        ≡ any (λ r. vale_para sha256 r o) ss || any (λ r. vale_para sha256 r o) rs
  any-append o [] ss = ground arith
  any-append o (r ∷ rs) ss = ground (arith, any-append o rs ss)

  -- The board that is left by two lists of withdrawals together is the one left by the first on the board
  -- left by the second, and their order does not matter.
  pub sin_retiradas-append :
      (os : List Oferta) (rs ss : List RetiroOferta)
      → (sin_retiradas sha256 os (rs ++ ss) ≡ sin_retiradas sha256 (sin_retiradas sha256 os ss) rs)
        × (sin_retiradas sha256 os (rs ++ ss) ≡ sin_retiradas sha256 os (ss ++ rs))
  unfolding sin_retiradas
  sin_retiradas-append [] rs ss = (refl, refl)
  sin_retiradas-append (o ∷ os) rs ss =
      ground (arith, any-append o rs ss, any-append o ss rs, sin_retiradas-append os rs ss)

  -- The offer that is withdrawn leaves every board, whatever other withdrawals are known.
  pub sin_retiradas-retirar_oferta :
      (o : Oferta) (yo clave : Text) (obras : List Obra) (now : ℤ) (r : RetiroOferta)
      (os : List Oferta) (rs : List RetiroOferta)
      → retirar_oferta sha256 o yo clave obras now ≡ ok r
      → sin_retiradas sha256 (o ∷ os) (r ∷ rs) ≡ sin_retiradas sha256 os (r ∷ rs)
  unfolding sin_retiradas
  sin_retiradas-retirar_oferta o yo clave obras now r os rs h =
      rw (retirar_oferta-vale o yo clave obras now r h).0 refl

  module _ (en_bytes : (m : List ℕ) → All (λ b. b < 256) (sha256 m)) where
    con_retiro_lem :
        (o : Oferta) (m : Option (List ℕ))
        → ((con_retiro sha256 o m).id ≡ o.id) × ((con_retiro sha256 o m).mandante ≡ o.mandante)
    con_retiro_lem o none = (refl, refl)
    con_retiro_lem o (some s) = (refl, refl)

    prueba_vale-hex :
        (s : List ℕ)
        → All (λ b. b < 256) s
        → prueba_vale sha256 (unhex (hex s)) (hash_hex sha256 s) ≡ true
    prueba_vale-hex s h =
        rw (unhex-hex s h) ((text_eq_iff (hash_hex sha256 s) (hash_hex sha256 s)).1 refl)

    lapida-vale :
        (o : Oferta) (clave : Text) (now : ℤ)
        → is_empty (trim clave) ≡ false
        → vale_para sha256
            (lapida sha256 (sellar_retiro sha256 clave o) o.mandante.id clave now)
            (sellar_retiro sha256 clave o)
          ≡ true
    unfolding vale_para sellar_retiro secreto
    lapida-vale o clave now h =
        let s = sha256 (utf8 dominio ++ (utf8 clave ++ 0 ∷ utf8 o.id)) in
        ground (
          arith,
          text_eq_iff o.id o.id,
          text_eq_iff o.mandante.id o.mandante.id,
          prueba_vale-hex s (en_bytes (utf8 dominio ++ (utf8 clave ++ 0 ∷ utf8 o.id))),
        )

    -- If digests are bytes, the author of an offer that was sealed with a key that is not blank can
    -- withdraw it with that key as long as nobody has a live job for it.
    pub retirar_oferta-sellar_retiro :
        (o : Oferta) (clave : Text) (obras : List Obra) (now : ℤ)
        → is_empty (trim clave) ≡ false
        → oferta_en_tablero o.id obras ≡ true
        → retirar_oferta sha256 (sellar_retiro sha256 clave o) o.mandante.id clave obras now
          ≡ ok (lapida sha256 (sellar_retiro sha256 clave o) o.mandante.id clave now)
    unfolding retirar_oferta sellar_retiro
    retirar_oferta-sellar_retiro o clave obras now h k =
        let e = con_retiro_lem o (secreto sha256 clave o.id) in
        rw
          (lapida-vale o clave now h, e.1, e.0, (text_eq_iff o.mandante.id o.mandante.id).1 refl, k)
          refl

    prueba_vale-preimagen :
        (m : Option (List ℕ)) (s : List ℕ)
        → prueba_vale sha256 m (hash_hex sha256 s) ≡ true
        → (raw : List ℕ) × (m ≡ some raw) × (sha256 raw ≡ sha256 s)
    unfolding hash_hex
    prueba_vale-preimagen none s h = absurd (ground arith)
    prueba_vale-preimagen (some raw) s h = (
      raw,
      refl,
      hex-injective (sha256 raw) (sha256 s) (en_bytes raw) (en_bytes s)
          ((text_eq_iff (hex (sha256 raw)) (hex (sha256 s))).0 h),
    )

    vale_para-prueba :
        (o : Oferta) (r : RetiroOferta)
        → is_empty o.retiro_hash ≡ false
        → vale_para sha256 r o ≡ true
        → prueba_vale sha256 (unhex r.prueba) o.retiro_hash ≡ true
    unfolding vale_para
    vale_para-prueba o r k v = ground arith

    -- If digests are bytes, and the one of the secret of a key and an offer is not empty, a withdrawal
    -- that is valid for the offer sealed with that key reveals bytes with the same digest as the secret.
    pub vale_para-preimagen :
        (o : Oferta) (clave : Text) (r : RetiroOferta) (s : List ℕ)
        → secreto sha256 clave o.id ≡ some s
        → is_empty (hash_hex sha256 s) ≡ false
        → vale_para sha256 r (sellar_retiro sha256 clave o) ≡ true
        → (raw : List ℕ) × (unhex r.prueba ≡ some raw) × (sha256 raw ≡ sha256 s)
    unfolding sellar_retiro
    vale_para-preimagen o clave r s h k v =
        let e : sellar_retiro sha256 clave o ≡ record o { retiro_hash = hash_hex sha256 s } =
          ap (con_retiro sha256 o) h in
        prueba_vale-preimagen (unhex r.prueba) s (
          vale_para-prueba (record o { retiro_hash = hash_hex sha256 s }) r k
            (sym (ap (vale_para sha256 r) e) ∙ v))
