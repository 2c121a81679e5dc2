-- ===== src/Sobre/Vuelta.antt =====
-- sobre.rs: what is sealed is opened again.
use home_builder_pay.Base.{
  ℕ, suc, zero, ◌+◌, ◌≤◌, ◌<◌, ◌≡◌, refl, ap, ◌∙◌, subst, true, some, List, [], ◌∷◌, ◌++◌, arith,
  Text, text_eq, length, take, leb, Option-cases, inl, inr, ◌⊎◌, length-append, Bool-cases,
}
use home_builder_pay.Sobre.{
  Cifra, ParamsKdf, sanos, Intento, ErrorSobre, bien, mal, magia, le_bytes, de_le_bytes, saltar,
  rebanada, byte, es_sobre, revisar_cabecera, escribir_cabecera, derivar, sellar_con, abrir,
}

-- What the cipher promises: what it encrypts it decrypts with the same key, nonce and header, and it adds
-- the 16 bytes of the tag.
pub record FielCifra (c : Cifra) : Type 0 where
  pub vuelta :
      (k nonce aad plano ct : List ℕ)
      → c.cifrar k nonce aad plano ≡ some ct
      → c.descifrar k nonce aad ct ≡ some plano
  pub largo :
      (k nonce aad plano ct : List ℕ)
      → c.cifrar k nonce aad plano ≡ some ct
      → length ct ≡ length plano + 16

de_le_bytes-le_bytes : (n : ℕ) → n < 4_294_967_296 → de_le_bytes (le_bytes n) ≡ n
unfolding de_le_bytes le_bytes
de_le_bytes-le_bytes n h = omega arith

pub take-append : (n : ℕ) (xs ys : List ℕ) → length xs ≡ n → take n (xs ++ ys) ≡ xs
take-append zero [] ys h = refl
take-append zero (x ∷ xs) ys h = absurd (omega arith)
take-append (suc n) [] ys h = absurd (omega arith)
take-append (suc n) (x ∷ xs) ys h = ap (◌∷◌ x) (take-append n xs ys (omega arith))

saltar-append : (n : ℕ) (xs ys : List ℕ) → length xs ≡ n → saltar n (xs ++ ys) ≡ ys
saltar-append zero [] ys h = refl
saltar-append zero (x ∷ xs) ys h = absurd (omega arith)
saltar-append (suc n) [] ys h = absurd (omega arith)
saltar-append (suc n) (x ∷ xs) ys h = saltar-append n xs ys (omega arith)

append_assoc : (xs ys zs : List ℕ) → (xs ++ ys) ++ zs ≡ xs ++ (ys ++ zs)
append_assoc [] ys zs = refl
append_assoc (x ∷ xs) ys zs = ap (◌∷◌ x) (append_assoc xs ys zs)

acotados :
    (p : ParamsKdf) → sanos p ≡ true → (p.memoria_kib < 4_294_967_296) × (p.pasadas < 4_294_967_296)
unfolding sanos
acotados p h = ground arith

revisar_de :
    (datos : List ℕ) (p : ParamsKdf)
    → es_sobre datos ≡ true
    → 75 ≤ length datos
    → byte 8 datos ≡ 1
    → byte 9 datos ≡ 1
    → de_le_bytes (rebanada 10 14 datos) ≡ p.memoria_kib
    → de_le_bytes (rebanada 14 18 datos) ≡ p.pasadas
    → byte 18 datos ≡ p.hilos
    → sanos p ≡ true
    → revisar_cabecera datos ≡ bien p
unfolding revisar_cabecera es_sobre sanos
revisar_de datos p a b c d e f g h = ground arith

Intento-cases :
    {A : Type 0} (x : Intento A) → ((a : A) × (x ≡ bien a)) ⊎ ((e : ErrorSobre) × (x ≡ mal e))
Intento-cases (bien a) = inl (a, refl)
Intento-cases (mal e) = inr (e, refl)

module _ (p : ParamsKdf) (sal nonce ct : List ℕ) (hs : length sal ≡ 16)
    (hn : length nonce ≡ 24) where
  length-cabecera : length (escribir_cabecera p sal nonce) ≡ 59
  unfolding escribir_cabecera le_bytes
  length-cabecera = omega (arith, length-append sal nonce)

  empieza : text_eq (take 8 (escribir_cabecera p sal nonce ++ ct)) magia ≡ true
  unfolding escribir_cabecera le_bytes text_eq
  empieza = refl

  cabecera_sal : rebanada 19 35 (escribir_cabecera p sal nonce ++ ct) ≡ sal
  unfolding escribir_cabecera le_bytes
  cabecera_sal = ap (take 16) (append_assoc sal nonce ct) ∙ take-append 16 sal (nonce ++ ct) hs

  cabecera_nonce : rebanada 35 59 (escribir_cabecera p sal nonce ++ ct) ≡ nonce
  unfolding escribir_cabecera le_bytes
  cabecera_nonce =
      ap (λ xs. take 24 (saltar 16 xs)) (append_assoc sal nonce ct)
      ∙ ap (take 24) (saltar-append 16 sal (nonce ++ ct) hs)
      ∙ take-append 24 nonce ct hn

  es_sobre-escribir_cabecera : es_sobre (escribir_cabecera p sal nonce ++ ct) ≡ true
  unfolding es_sobre
  es_sobre-escribir_cabecera =
      let largo : leb 8 (length (escribir_cabecera p sal nonce ++ ct)) ≡ true =
        ground (arith, length-append (escribir_cabecera p sal nonce) ct, length-cabecera) in
      rw largo empieza

  revisar_cabecera-escribir :
      sanos p ≡ true
      → 16 ≤ length ct
      → revisar_cabecera (escribir_cabecera p sal nonce ++ ct) ≡ bien p
  unfolding escribir_cabecera le_bytes
  revisar_cabecera-escribir h k =
      revisar_de (escribir_cabecera p sal nonce ++ ct) p es_sobre-escribir_cabecera
        (omega (arith, length-append (escribir_cabecera p sal nonce) ct, length-cabecera, k)) refl
        refl (de_le_bytes-le_bytes p.memoria_kib (acotados p h).0)
        (de_le_bytes-le_bytes p.pasadas (acotados p h).1) refl h

abrir_escrito :
    (c : Cifra) (plano : List ℕ) (pass : Text) (p : ParamsKdf) (sal nonce ct k : List ℕ)
    → FielCifra c
    → length sal ≡ 16
    → length nonce ≡ 24
    → sanos p ≡ true
    → derivar c pass sal p ≡ bien k
    → c.cifrar k nonce (escribir_cabecera p sal nonce) plano ≡ some ct
    → abrir c (escribir_cabecera p sal nonce ++ ct) pass ≡ bien plano
unfolding abrir
abrir_escrito c plano pass p sal nonce ct k f hs hn sano ek ec =
    rw
      (
        revisar_cabecera-escribir p sal nonce ct hs hn sano
            (omega (arith, f.largo k nonce (escribir_cabecera p sal nonce) plano ct ec)),
        cabecera_sal p sal nonce ct hs hn,
        ek,
        cabecera_nonce p sal nonce ct hs hn,
        take-append 59 (escribir_cabecera p sal nonce) ct (length-cabecera p sal nonce ct hs hn),
        saltar-append 59 (escribir_cabecera p sal nonce) ct (length-cabecera p sal nonce ct hs hn),
        f.vuelta k nonce (escribir_cabecera p sal nonce) plano ct ec,
      )
      refl

-- What is sealed with a password is opened with it: where the seal gives an envelope, its opening gives
-- what was sealed, if the cipher decrypts what it encrypts and adds its tag of 16 bytes, and the salt and
-- the nonce that are drawn have 16 and 24 bytes.
pub abrir-sellar_con :
    (c : Cifra) (plano : List ℕ) (pass : Text) (p : ParamsKdf) (sal nonce out : List ℕ)
    → FielCifra c
    → length sal ≡ 16
    → length nonce ≡ 24
    → sellar_con c plano pass p sal nonce ≡ bien out
    → abrir c out pass ≡ bien plano
unfolding sellar_con
abrir-sellar_con c plano pass p sal nonce out f hs hn h = elim (Bool-cases (sanos p)) [
  | inr malo ↦ absurd (ground (arith, malo))
  | inl sano ↦ elim (Intento-cases (derivar c pass sal p)) [
    | inr (e, ek) ↦ absurd (ground (arith, ek))
    | inl (k, ek) ↦ elim (Option-cases (c.cifrar k nonce (escribir_cabecera p sal nonce) plano)) [
      | inl ec ↦ absurd (ground (arith, ek, ec))
      | inr (ct, ec) ↦
          subst (λ x. abrir c x pass ≡ bien plano) (ground (arith, sano, ek, ec))
            (abrir_escrito c plano pass p sal nonce ct k f hs hn sano ek ec)
    ]
  ]
]
