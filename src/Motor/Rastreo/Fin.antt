-- ===== src/Motor/Rastreo/Fin.antt =====
-- caja.rs of the motor: reading the chain ends.
use home_builder_pay.Base.{
  ℕ, suc, zero, ◌+◌, ◌-◌, ◌≤◌, ◌<◌, ◌≡◌, refl, sym, subst, ◌⊎◌, inl, inr, true, none, some, List,
  arith, if◌then◌else◌, Option-cases,
}
use home_builder_pay.Motor.{suma_sat, usize_max}
use home_builder_pay.Motor.Rastreo.{
  Entrada, LibroCaja, siguiente_trozo, recibir_trozo, trozo, rastrear,
}

-- The blocks that are to be read, with one more for a book that is new.
abbrev pub pendiente : ℕ → LibroCaja → ℕ
pendiente tip l = (if l.listo then tip - l.hasta else 1) + l.retro

module _ (cadena : ℕ → List Entrada) (tip : ℕ) where
  trozo-pendiente :
      (l l2 : LibroCaja)
      → tip ≤ usize_max
      → trozo cadena tip l ≡ some l2
      → pendiente tip l2 < pendiente tip l
  unfolding trozo siguiente_trozo recibir_trozo suma_sat usize_max
  trozo-pendiente l l2 ht h = ground arith

  trozo-none :
      (l : LibroCaja)
      → tip ≤ usize_max
      → trozo cadena tip l ≡ none
      → (l.listo ≡ true) × (tip ≤ l.hasta) × ((l.retro ≡ 0) ⊎ (l.desde ≡ 0))
  unfolding trozo siguiente_trozo suma_sat usize_max
  trozo-none l ht h = ground arith

  rastrear_quieto :
      (n : ℕ) (l : LibroCaja) → trozo cadena tip l ≡ none → rastrear cadena n tip l ≡ l
  unfolding rastrear
  rastrear_quieto zero l e = refl
  rastrear_quieto (suc n) l e = rw e (rastrear_quieto n l e)

  rastrear_sigue :
      (n : ℕ) (l l2 : LibroCaja)
      → trozo cadena tip l ≡ some l2
      → rastrear cadena (suc n) tip l ≡ rastrear cadena n tip l2
  unfolding rastrear
  rastrear_sigue n l l2 e = rw e refl

  abbrev pub Acabado : LibroCaja → Type 0
  Acabado l =
      (trozo cadena tip l ≡ none)
      × (l.listo ≡ true)
      × (tip ≤ l.hasta)
      × ((l.retro ≡ 0) ⊎ (l.desde ≡ 0))

  trozo-Acabado : (l : LibroCaja) → tip ≤ usize_max → trozo cadena tip l ≡ none → Acabado l
  trozo-Acabado l ht e = let r = trozo-none l ht e in (e, r.0, r.1, r.2)

  -- After as many turns at a tip below 2^64 as blocks are to be read, nothing is left to read: the
  -- book reaches the tip, and what was asked for further back is read, or it reaches block 0.
  pub rastrear_acaba :
      (n : ℕ) (l : LibroCaja)
      → tip ≤ usize_max
      → pendiente tip l ≤ n
      → Acabado (rastrear cadena n tip l)
  unfolding rastrear
  rastrear_acaba zero l ht h = elim (Option-cases (trozo cadena tip l)) [
    | inl e ↦ trozo-Acabado l ht e
    | inr (l2, e) ↦ absurd (omega (arith, trozo-pendiente l l2 ht e))
  ]
  rastrear_acaba (suc n) l ht h = elim (Option-cases (trozo cadena tip l)) [
    | inl e ↦ subst Acabado (sym (rastrear_quieto (suc n) l e)) (trozo-Acabado l ht e)
    | inr (l2, e) ↦
        subst Acabado (sym (rastrear_sigue n l l2 e))
          (rastrear_acaba n l2 ht (omega (arith, trozo-pendiente l l2 ht e)))
  ]
