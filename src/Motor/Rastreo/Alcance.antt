-- ===== src/Motor/Rastreo/Alcance.antt =====
-- caja.rs of the motor: no output of the blocks that were read is missed.
use home_builder_pay.Base.{
  ℕ, suc, ◌+◌, ◌-◌, ◌≤◌, ◌≡◌, refl, sym, subst, ◌⊎◌, inl, inr, Bool, true, false, ◌&&◌, Option,
  none, some, List, [], ◌∷◌, arith, ltb, leb, ◌==◌, all, All, Text, Bool-cases,
}
use home_builder_pay.Motor.{suma_sat, usize_max, minimo}
use home_builder_pay.Motor.Rastreo.{
  Entrada, LibroCaja, nueva, siguiente_trozo, fundir_caja, recibir_trozo, hallar, o_igual,
  por_trozo, trozo, pedir_atras, sumar_atras, Turno, turno, turnos,
}
use home_builder_pay.Motor.Rastreo.Hallazgos.{sabida, all-fundir_caja, all-sabida, all-hallar}

-- What `siguiente_trozo` gives: nothing; the first look; the next blocks; blocks further back.
siguiente_trozo-cases :
    (tip desde hasta : ℕ) (listo : Bool) (retro : ℕ)
    → tip ≤ usize_max
    → (siguiente_trozo tip desde hasta listo retro ≡ none)
      ⊎ ((d : ℕ) × (h : ℕ) × (siguiente_trozo tip desde hasta listo retro ≡ some (d, h, false))
          × (listo ≡ false)
          × (d ≤ h))
      ⊎ ((d : ℕ) × (h : ℕ) × (siguiente_trozo tip desde hasta listo retro ≡ some (d, h, false))
          × (listo ≡ true)
          × (d ≡ hasta + 1)
          × (d ≤ h))
      ⊎ ((d : ℕ) × (h : ℕ) × (siguiente_trozo tip desde hasta listo retro ≡ some (d, h, true))
          × (listo ≡ true)
          × (desde ≡ h + 1)
          × (d ≤ h))
unfolding siguiente_trozo suma_sat usize_max
siguiente_trozo-cases tip desde hasta false retro ht =
    inr (inl (tip - 40, tip, refl, refl, omega arith))
siguiente_trozo-cases tip desde hasta true retro ht = elim (Bool-cases (ltb hasta tip)) [
  | inl detras ↦
      inr (inr (inl (hasta + 1, minimo (hasta + 8) tip, ground arith, refl, refl, ground arith)))
  | inr al_dia ↦ elim (Bool-cases (ltb 0 retro && ltb 0 desde)) [
    | inl pedido ↦ inr (
        inr (
          inr (
            desde - minimo (minimo retro 8) desde,
            desde - 1,
            ground arith,
            refl,
            ground arith,
            ground arith,
          )))
    | inr otro ↦ inl (ground arith)
  ]
]

-- The tip of a turn fits a `usize`.
abbrev pub Posible : Turno → Type 0
Posible (Turno.mira tip) = tip ≤ usize_max
Posible (Turno.pide tip) = Unit {0}

no_menor : (a b : ℕ) → a ≤ b → ltb b a ≡ false
no_menor a b h = ground arith

module _ (cadena : ℕ → List Entrada) where
  -- Every output of the blocks from `desde` to `hasta` is known.
  abbrev Sabe : LibroCaja → Type 0
  Sabe l = (b : ℕ) → l.desde ≤ b → b ≤ l.hasta → all (sabida l.entradas) (cadena b) ≡ true

  -- And the two bounds enclose what was read.
  abbrev Completo : LibroCaja → Type 0
  Completo l = l.listo ≡ true → (l.desde ≤ l.hasta + 1) × Sabe l

  Completo-campos :
      (l : LibroCaja) (d h : ℕ) (es : List Entrada)
      → l.desde ≡ d
      → l.hasta ≡ h
      → l.entradas ≡ es
      → d ≤ h + 1
      → ((b : ℕ) → d ≤ b → b ≤ h → all (sabida es) (cadena b) ≡ true)
      → Completo l
  Completo-campos l d h es ed eh ee k f = λ _. (
    omega (arith, ed, eh, k),
    λ b lo hi.
        subst (λ x. all (sabida x) (cadena b) ≡ true) (sym ee)
          (f b (omega (arith, ed, lo)) (omega (arith, eh, hi))),
  )

  -- What is read is known.
  nuevos :
      (d h b : ℕ) (es : List Entrada)
      → d ≤ b
      → b ≤ h
      → all (sabida (fundir_caja es (hallar cadena d (suc h - d)))) (cadena b) ≡ true
  nuevos d h b es lo hi =
      all-hallar cadena (sabida (fundir_caja es (hallar cadena d (suc h - d)))) d (suc h - d) b
        (all-fundir_caja es (hallar cadena d (suc h - d))) lo (omega arith)

  -- The three kinds of turn.
  al_empezar :
      (d h : ℕ) (l : LibroCaja)
      → l.listo ≡ false
      → d ≤ h
      → Completo (recibir_trozo d h false (hallar cadena d (suc h - d)) l)
  unfolding recibir_trozo
  al_empezar d h l hl k =
      let r = recibir_trozo d h false (hallar cadena d (suc h - d)) l in
      Completo-campos r d h (fundir_caja l.entradas (hallar cadena d (suc h - d))) (ground arith)
        (ground arith) (ground arith) (omega arith) (λ b. nuevos d h b l.entradas)

  hacia_adelante :
      (d h : ℕ) (l : LibroCaja)
      → l.listo ≡ true
      → d ≡ l.hasta + 1
      → d ≤ h
      → Completo l
      → Completo (recibir_trozo d h false (hallar cadena d (suc h - d)) l)
  unfolding recibir_trozo
  hacia_adelante d h l hl hd k c =
      let r = recibir_trozo d h false (hallar cadena d (suc h - d)) l in
      Completo-campos r l.desde h (fundir_caja l.entradas (hallar cadena d (suc h - d)))
        (ground arith) (ground arith) (ground arith) (omega (arith, (c hl).0))
        (λ b lo hi. elim (Bool-cases (leb b l.hasta)) [
          | inl e ↦
              all-sabida l.entradas (hallar cadena d (suc h - d)) (cadena b)
                ((c hl).1 b lo (ground (arith, e)))
          | inr e ↦ nuevos d h b l.entradas (ground (arith, e, hd)) hi
        ])

  hacia_atras :
      (d h : ℕ) (l : LibroCaja)
      → l.listo ≡ true
      → l.desde ≡ h + 1
      → d ≤ h
      → Completo l
      → Completo (recibir_trozo d h true (hallar cadena d (suc h - d)) l)
  unfolding recibir_trozo
  hacia_atras d h l hl hd k c =
      let r = recibir_trozo d h true (hallar cadena d (suc h - d)) l in
      Completo-campos r d l.hasta (fundir_caja l.entradas (hallar cadena d (suc h - d)))
        (ground arith) (ground arith) (ground arith) (omega (arith, (c hl).0))
        (λ b lo hi. elim (Bool-cases (leb b h)) [
          | inl e ↦ nuevos d h b l.entradas lo (ground (arith, e))
          | inr e ↦
              all-sabida l.entradas (hallar cadena d (suc h - d)) (cadena b)
                ((c hl).1 b (ground (arith, e, hd)) hi)
        ])

  con_trozo :
      (d h : ℕ) (r : Bool) (l : LibroCaja)
      → d ≤ h
      → Completo (recibir_trozo d h r (hallar cadena d (suc h - d)) l)
      → Completo (o_igual cadena (por_trozo cadena (some (d, h, r)) l) l)
  con_trozo d h r l k c = rw (no_menor d h k) c

  trozo-Completo :
      (tip : ℕ) (l : LibroCaja)
      → tip ≤ usize_max
      → Completo l
      → Completo (o_igual cadena (trozo cadena tip l) l)
  unfolding trozo
  trozo-Completo tip l ht c = elim (siguiente_trozo-cases tip l.desde l.hasta l.listo l.retro ht) [
    | inl e ↦ subst Tras (sym e) c
    | inr (inl (d, h, e, hl, k)) ↦
        subst Tras (sym e) (con_trozo d h false l k (al_empezar d h l hl k))
    | inr (inr (inl (d, h, e, hl, hd, k))) ↦
        subst Tras (sym e) (con_trozo d h false l k (hacia_adelante d h l hl hd k c))
    | inr (inr (inr (d, h, e, hl, hd, k))) ↦
        subst Tras (sym e) (con_trozo d h true l k (hacia_atras d h l hl hd k c))
  ]
    where
      Tras : Option (ℕ × ℕ × Bool) → Type 0
      Tras x = Completo (o_igual cadena (por_trozo cadena x l) l)

  turno-Completo :
      (t : Turno) (l : LibroCaja) → Posible t → Completo l → Completo (turno cadena t l)
  unfolding turno pedir_atras
  turno-Completo (Turno.mira tip) l h c = trozo-Completo tip l h c
  turno-Completo (Turno.pide tip) l h c =
      elim (Bool-cases (sumar_atras tip l.desde l.listo l.retro == 0)) [
        | inl e ↦ rw e c
        | inr e ↦ rw e c
      ]

  turnos-Completo :
      (ts : List Turno) (l : LibroCaja)
      → All Posible ts
      → Completo l
      → Completo (turnos cadena ts l)
  unfolding turnos
  turnos-Completo [] l h c = c
  turnos-Completo (t ∷ ts) l h c =
      turnos-Completo ts (turno cadena t l) h.1 (turno-Completo t l h.0 c)

  -- Whatever turns a new book has had, forwards and backwards, with tips below 2^64: of a block between
  -- the bounds of a book that is ready, every output that is worth something stands in the book.
  pub turnos_sabidos :
      (direccion : Text) (ts : List Turno) (b : ℕ)
      → All Posible ts
      → (turnos cadena ts (nueva direccion)).listo ≡ true
      → (turnos cadena ts (nueva direccion)).desde ≤ b
      → b ≤ (turnos cadena ts (nueva direccion)).hasta
      → all (sabida (turnos cadena ts (nueva direccion)).entradas) (cadena b) ≡ true
  turnos_sabidos direccion ts b h hl lo hi =
      (turnos-Completo ts (nueva direccion) h (λ e. absurd (ground (arith, e))) hl).1 b lo hi
