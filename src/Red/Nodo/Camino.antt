-- ===== src/Red/Nodo/Camino.antt =====
-- dht.rs: a message of the box from its sender to the persona, through any nodes.
use home_builder_pay.Base.{
  map, ◌++◌, ℕ, suc, zero, ◌+◌, ◌≤◌, ◌<◌, ◌≡◌, ◌⊎◌, refl, sym, ap, subst, true, Option, none, some,
  List, [], ◌∷◌, leb, ℤ, Text, text_eq, text_eq_iff, length, arith, Option-cases, Bool-cases, inl,
  inr,
}
use home_builder_pay.Base.Dict
use home_builder_pay.Base.Dict.{Dict}
use home_builder_pay.Red.{Msg, Externo, o_nada}
use home_builder_pay.Red.Nodo.{
  Envio, Nodo, empujar, max_caja, max_saltos, encolar, encolar_en, max_buzon, recibir_caja,
  handle_de, es_texto,
}
use home_builder_pay.Red.Nodo.Relevo.{pasa, Sale, handle_de-Sale}

-- What goes out of a node, or comes to stand in one of its queues, when it gets a message.
abbrev Esta : {A : Type 0} → A → List A → Type 0
Esta x [] = ⊥
Esta x (y ∷ ys) = (x ≡ y) ⊎ Esta x ys

abbrev mensaje : {V : Type 0} → Envio V → Msg V
mensaje (Envio.por_sesion node m) = m
mensaje (Envio.por_marcado node addr m) = m

abbrev cola : {V : Type 0} → Text → Nodo V → List (Msg V)
cola dest n = o_nada [] (Dict.get dest n.buzon)

abbrev pub Emite : {V : Type 0} → Msg V → List (Envio V) → Nodo V → Nodo V → Type 0
Emite m envios n x =
    Esta m (map mensaje envios) ⊎ ((dest : Text) × Esta m (cola dest x) × ¬ Esta m (cola dest n))

Esta-append : {A : Type 0} (m x : A) (xs : List A) → Esta m (xs ++ x ∷ []) → (m ≡ x) ⊎ Esta m xs
Esta-append m x [] (inl h) = inl h
Esta-append m x [] (inr h) = absurd h
Esta-append m x (y ∷ ys) (inl h) = inr (inl h)
Esta-append m x (y ∷ ys) (inr h) = elim (Esta-append m x ys h) [
  | inl e ↦ inl e
  | inr k ↦ inr (inr k)
]

Esta-empujar :
    {A : Type 0} (k : ℕ) (m x : A) (xs : List A) → Esta m (empujar k x xs) → (m ≡ x) ⊎ Esta m xs
unfolding empujar
Esta-empujar k m x [] h = elim (Bool-cases (leb k 0)) [
  | inl a ↦ Esta-append m x [] (rw a at h)
  | inr a ↦ Esta-append m x [] (rw a at h)
]
Esta-empujar k m x (y ∷ ys) h = elim (Bool-cases (leb k (length (y ∷ ys)))) [
  | inl a ↦ elim (Esta-append m x ys (rw a at h)) [ inl i ↦ inl i | inr i ↦ inr (inr i) ]
  | inr a ↦ Esta-append m x (y ∷ ys) (rw a at h)
]

module _ {V : Type 0} where
  Esta-encolar :
      (m fwd : Msg V) (d dest : Text) (n : Nodo V)
      → Esta m (cola dest (encolar d fwd n))
      → (m ≡ fwd) ⊎ Esta m (cola dest n)
  unfolding encolar encolar_en
  Esta-encolar m fwd d dest n h =
      let q = Dict.get-insert d dest (empujar max_buzon fwd (cola d n)) n.buzon in
      let h2 = rw q at h in
      elim (Bool-cases (text_eq d dest)) [
        | inl si ↦
            let igual : d ≡ dest = (text_eq_iff d dest).0 si in
            subst (λ k. (m ≡ fwd) ⊎ Esta m (cola k n)) igual
              (Esta-empujar max_buzon m fwd (cola d n) (rw si at h2))
        | inr otro ↦ inr (rw otro at h2)
      ]

  uno_sale :
      (m fwd : Msg V) (envios : List (Envio V)) (n x : Nodo V)
      → map mensaje envios ≡ fwd ∷ []
      → x ≡ n
      → Emite m envios n x
      → some fwd ≡ some m
  uno_sale m fwd envios n x es ex (inl h) = elim (subst (Esta m) es h) [
    | inl i ↦ ap some (sym i)
    | inr i ↦ absurd i
  ]
  uno_sale m fwd envios n x es ex (inr (dest, h, k)) =
      absurd (k (subst (λ (z : Nodo V). Esta m (cola dest z)) ex h))

  Emite-Sale :
      (m : Msg V) (fwd : Option (Msg V)) (envios : List (Envio V)) (n x : Nodo V)
      → Sale fwd envios n x
      → Emite m envios n x
      → fwd ≡ some m
  Emite-Sale m none envios n x s (inl h) = absurd (subst (λ l. Esta m (map mensaje l)) s.0 h)
  Emite-Sale m none envios n x s (inr (dest, h, k)) =
      absurd (k (subst (λ (b : Dict (List (Msg V))). Esta m (o_nada [] (Dict.get dest b))) s.1 h))
  Emite-Sale m (some fwd) envios n x (d, inl (es, ex)) h =
      uno_sale m fwd envios n x (ap (map mensaje) es) ex h
  Emite-Sale m (some fwd) envios n x (d, inr (inl (addr, es, ex))) h =
      uno_sale m fwd envios n x (ap (map mensaje) es) ex h
  Emite-Sale m (some fwd) envios n x (d, inr (inr (es, ex))) (inl h) =
      absurd (subst (λ l. Esta m (map mensaje l)) es h)
  Emite-Sale m (some fwd) envios n x (d, inr (inr (es, ex))) (inr (dest, h, k)) =
      elim (Esta-encolar m fwd d dest n (subst (λ (z : Nodo V). Esta m (cola dest z)) ex h)) [
        | inl i ↦ ap some (sym i)
        | inr i ↦ absurd (k i)
      ]

pasa_lem :
    {V : Type 0} (obra para de paso cuerpo : Text) (k : ℕ) (origen : Option Text) (n : Nodo V)
    (m2 : Msg V)
    → pasa (Msg.caja obra para de paso cuerpo k) origen n ≡ some m2
    → (k < 3) × (m2 ≡ Msg.caja obra para de paso cuerpo (k + 1))
pasa_lem obra para de paso cuerpo k origen n m2 h = elim (Option-cases (Dict.get para n.personas)) [
  | inl nadie ↦ absurd (ground arith)
  | inr (dest, hay) ↦ ground arith
]

-- A message on its way: handled by a node, sent by it or put in a queue of it, and so on, `k` times, at
-- any nodes in any states.
pub data Cadena {V : Type 0} (e : Externo V) (m : Msg V) : ℕ → Msg V → Type 0 where
  aqui : Cadena e m zero m
  sigue :
      {k : ℕ} {m1 m2 : Msg V}
      → Cadena e m k m1
      → (now : ℤ) (origen : Option Text) (n : Nodo V)
      → Emite m2 (handle_de e now m1 origen n).1 n (handle_de e now m1 origen n).2
      → Cadena e m (suc k) m2

module _ {V : Type 0} (e : Externo V) where
  Cadena_lem :
      (obra para de paso cuerpo : Text) {k : ℕ} {m : Msg V}
      → Cadena e (Msg.caja obra para de paso cuerpo 0) k m
      → (k ≤ 3) × (m ≡ Msg.caja obra para de paso cuerpo k)
  Cadena_lem obra para de paso cuerpo aqui = (omega arith, refl)
  Cadena_lem obra para de paso cuerpo (sigue {k} {m1} {m2} c now origen n h) =
      let p = Cadena_lem obra para de paso cuerpo c in
      let carta : Msg V = Msg.caja obra para de paso cuerpo k in
      let h2 =
        subst
          (λ (x : Msg V). Emite m2 (handle_de e now x origen n).1 n (handle_de e now x origen n).2)
          p.1 h in
      let q = pasa_lem obra para de paso cuerpo k origen n m2 (
        Emite-Sale m2 (pasa carta origen n) (handle_de e now carta origen n).1 n
          (handle_de e now carta origen n).2
          (handle_de-Sale e now obra para de paso cuerpo k origen n) h2) in
      (omega (arith, q.0), ground (arith, q.1))

  -- A message of the box that has made no hop is passed on at most three times, whatever nodes handle
  -- it and in whatever states they are, and what is passed on is the same message but for the number
  -- of its hops.
  pub Cadena-le :
      (obra para de paso cuerpo : Text) (k : ℕ) (m : Msg V)
      → Cadena e (Msg.caja obra para de paso cuerpo 0) k m
      → (k ≤ max_saltos) × (m ≡ Msg.caja obra para de paso cuerpo k)
  Cadena-le obra para de paso cuerpo k m c = Cadena_lem obra para de paso cuerpo c

  -- A message that is sent to a persona and reaches, by whatever way, a node of that persona is put into
  -- its box with the bytes that were sent, and goes no further, if hex is read back as it was written
  -- and there are at most 900,000 bytes.
  pub handle_de-entrega :
      (now : ℤ) (obra para de paso : Text) (cuerpo : List ℕ) (k : ℕ) (m : Msg V)
      (origen : Option Text) (n : Nodo V)
      → Cadena e (Msg.caja obra para de paso (e.hex_encode cuerpo) 0) k m
      → n.persona ≡ some para
      → e.hex_decode (e.hex_encode cuerpo) ≡ some cuerpo
      → length cuerpo ≤ 900_000
      → handle_de e now m origen n ≡ (
        [],
        [],
        record n {
          caja =
              empujar max_caja
                (record { obra = obra; de = de; paso = paso; cuerpo = cuerpo })
                n.caja;
        },
      )
  unfolding handle_de recibir_caja
  handle_de-entrega now obra para de paso cuerpo k m origen n c hp hx hl =
      let q = Cadena_lem obra para de paso (e.hex_encode cuerpo) c in
      subst
        (λ (x : Msg V). handle_de e now x origen n ≡ (
          [],
          [],
          record n {
            caja =
                empujar max_caja (record { obra = obra; de = de; paso = paso; cuerpo = cuerpo })
                  n.caja;
          },
        ))
        (sym q.1) (rw (mia hp, hx, cabe hl) refl)
    where
      mia : n.persona ≡ some para → es_texto n.persona para ≡ true
      mia h = ground (arith, text_eq_iff para para)

      cabe : length cuerpo ≤ 900_000 → leb (length cuerpo) 900_000 ≡ true
      cabe h = ground arith
