-- ===== src/Motor/Salidas/Eleccion.antt =====
-- caja.rs of the motor: the output that a wallet spends, and what it says when it has none.
use home_builder_pay.Base.{
  ℕ, suc, ◌+◌, ◌-◌, ◌≤◌, ◌≡◌, refl, ◌⊎◌, ◌↔◌, inl, inr, Bool, true, false, ◌&&◌, ◌||◌, not, Option,
  none, some, [], ◌∷◌, arith, ltb, leb, any, all, get_elem?, Bool-cases, Option-cases, is_some,
}
use home_builder_pay.Motor.{max_historia}
use home_builder_pay.Motor.Salidas.{
  Entradas, suelta, mejora, elegir_desde, indice_salida_libre, EstadoMonedas, estado_monedas,
  es_trabada,
}

-- The output can be spent and covers `minimo`.
abbrev pub sirve : (tip minimo : ℕ) → ℕ × ℕ → Bool
sirve tip minimo e = leb minimo e.0 && suelta tip e.1

-- No output of the list that serves is smaller than `m`.
abbrev pub minima : (tip minimo m : ℕ) → Entradas → Bool
minima tip minimo m es = all (λ e. not (sirve tip minimo e) || leb m e.0) es

abbrev cota : ℕ → Option (ℕ × ℕ) → Bool
cota m none = true
cota m (some (j, otra)) = leb m otra

-- The result stands in the list, or was the best before it.
abbrev Viene : Entradas → (tip minimo i : ℕ) → Option (ℕ × ℕ) → (k m : ℕ) → Type 0
Viene es tip minimo i mejor k m =
    (mejor ≡ some (k, m))
    ⊎ ((j : ℕ) × (altura : ℕ) × (k ≡ i + j)
        × (get_elem? es j ≡ some (m, altura))
        × (sirve tip minimo (m, altura) ≡ true))

module _ (tip minimo : ℕ) where
  cota-elegir_desde :
      (es : Entradas) (i : ℕ) (mejor : Option (ℕ × ℕ)) (k m : ℕ)
      → elegir_desde es tip minimo i mejor ≡ some (k, m)
      → (cota m mejor ≡ true) × (minima tip minimo m es ≡ true)
  unfolding elegir_desde
  cota-elegir_desde [] i none k m h = absurd (ground arith)
  cota-elegir_desde [] i (some (j, otra)) k m h = ground arith
  cota-elegir_desde ((a, b) ∷ es) i none k m h =
      ground (
        arith,
        cota-elegir_desde es (suc i) none k m,
        cota-elegir_desde es (suc i) (some (i, a)) k m,
      )
  cota-elegir_desde ((a, b) ∷ es) i (some (j, otra)) k m h = ground (
    arith,
    cota-elegir_desde es (suc i) (some (j, otra)) k m,
    cota-elegir_desde es (suc i) (some (i, a)) k m,
  )

  Viene-suc :
      (a b i : ℕ) (es : Entradas) (mejor : Option (ℕ × ℕ)) (k m : ℕ)
      → Viene es tip minimo (suc i) mejor k m
      → Viene ((a, b) ∷ es) tip minimo i mejor k m
  Viene-suc a b i es mejor k m (inl h) = inl h
  Viene-suc a b i es mejor k m (inr (j, altura, e, g, s)) = inr (suc j, altura, omega arith, g, s)

  Viene-nueva :
      (a b i : ℕ) (es : Entradas) (mejor : Option (ℕ × ℕ)) (k m : ℕ)
      → sirve tip minimo (a, b) ≡ true
      → Viene es tip minimo (suc i) (some (i, a)) k m
      → Viene ((a, b) ∷ es) tip minimo i mejor k m
  Viene-nueva a b i es mejor k m s (inl h) =
      inr (0, b, ground (arith, h), ground (arith, h), ground (arith, h, s))
  Viene-nueva a b i es mejor k m s (inr (j, altura, e, g, t)) =
      inr (suc j, altura, omega arith, g, t)

  Viene-elegir_desde :
      (es : Entradas) (i : ℕ) (mejor : Option (ℕ × ℕ)) (k m : ℕ)
      → elegir_desde es tip minimo i mejor ≡ some (k, m)
      → Viene es tip minimo i mejor k m
  unfolding elegir_desde
  Viene-elegir_desde [] i mejor k m h = inl h
  Viene-elegir_desde ((a, b) ∷ es) i mejor k m h =
      elim (Bool-cases (ltb a minimo || not (suelta tip b))) [
        | inl fuera ↦
            Viene-suc a b i es mejor k m (Viene-elegir_desde es (suc i) mejor k m (rw fuera at h))
        | inr dentro ↦ elim (Bool-cases (mejora a mejor)) [
          | inl gana ↦
              Viene-nueva a b i es mejor k m (ground (arith, dentro))
                (Viene-elegir_desde es (suc i) (some (i, a)) k m (rw (dentro, gana) at h))
          | inr pierde ↦
              Viene-suc a b i es mejor k m
                (Viene-elegir_desde es (suc i) mejor k m (rw (dentro, pierde) at h))
        ]
      ]

  is_some-elegir_desde :
      (es : Entradas) (i : ℕ) (mejor : Option (ℕ × ℕ))
      → is_some (elegir_desde es tip minimo i mejor) ≡ (is_some mejor || any (sirve tip minimo) es)
  unfolding elegir_desde
  is_some-elegir_desde [] i none = refl
  is_some-elegir_desde [] i (some a) = refl
  is_some-elegir_desde ((a, b) ∷ es) i none =
      ground
        (arith, is_some-elegir_desde es (suc i) none, is_some-elegir_desde es (suc i) (some (i, a)))
  is_some-elegir_desde ((a, b) ∷ es) i (some (j, otra)) = ground (
    arith,
    is_some-elegir_desde es (suc i) (some (j, otra)),
    is_some-elegir_desde es (suc i) (some (i, a)),
  )

  -- The output that is taken is one that can be spent and covers the amount, and no such output is
  -- smaller.
  pub indice_salida_libre_lem :
      (es : Entradas) (i : ℕ)
      → indice_salida_libre es tip minimo ≡ some i
      → (m : ℕ) × (altura : ℕ) × (get_elem? es i ≡ some (m, altura))
        × (sirve tip minimo (m, altura) ≡ true)
        × (minima tip minimo m es ≡ true)
  unfolding indice_salida_libre
  indice_salida_libre_lem es i h = elim (Option-cases (elegir_desde es tip minimo 0 none)) [
    | inl e ↦ absurd (ground (arith, e))
    | inr ((k, m), e) ↦ elim (Viene-elegir_desde es 0 none k m e) [
      | inl n ↦ absurd (ground (arith, n))
      | inr (j, altura, kj, g, s) ↦
          (m, altura, ground (arith, e, kj, g), s, (cota-elegir_desde es 0 none k m e).1)
    ]
  ]

  is_some-indice_salida_libre :
      (es : Entradas) → is_some (indice_salida_libre es tip minimo) ≡ any (sirve tip minimo) es
  unfolding indice_salida_libre
  is_some-indice_salida_libre es = elim (Option-cases (elegir_desde es tip minimo 0 none)) [
    | inl e ↦ ground (arith, e, is_some-elegir_desde es 0 none)
    | inr ((k, m), e) ↦ ground (arith, e, is_some-elegir_desde es 0 none)
  ]

  chicas :
      (es : Entradas)
      → any (sirve tip minimo) es ≡ false
      → any (es_trabada tip minimo) es ≡ false
      → all (λ e. ltb e.0 minimo) es ≡ true
  chicas [] h k = refl
  chicas ((a, b) ∷ es) h k = ground (arith, chicas es)

  -- `sin_saldo` is said only where it is so: every output that is known is smaller than the amount, what
  -- was asked for is read up to the tip, and the history is read `max_historia` blocks back.
  pub estado_monedas-sin_saldo :
      (es : Entradas) (listo : Bool) (desde hasta retro : ℕ)
      → estado_monedas es (some tip) listo desde hasta retro minimo ≡ EstadoMonedas.sin_saldo
      → (all (λ e. ltb e.0 minimo) es ≡ true)
        × (listo ≡ true)
        × (tip ≤ hasta)
        × (retro ≡ 0)
        × (desde ≤ tip - max_historia)
  unfolding estado_monedas
  estado_monedas-sin_saldo es listo desde hasta retro h =
      ground (arith, is_some-indice_salida_libre es, chicas es)

  -- `libre` is said exactly where an output can be spent and covers the amount.
  pub estado_monedas-libre :
      (es : Entradas) (listo : Bool) (desde hasta retro : ℕ)
      → (estado_monedas es (some tip) listo desde hasta retro minimo ≡ EstadoMonedas.libre)
        ↔ (any (sirve tip minimo) es ≡ true)
  unfolding estado_monedas
  estado_monedas-libre es listo desde hasta retro = ground (arith, is_some-indice_salida_libre es)
