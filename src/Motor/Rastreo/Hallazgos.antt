-- ===== src/Motor/Rastreo/Hallazgos.antt =====
-- caja.rs of the motor: what is found in the chain is known to the book afterwards.
use home_builder_pay.Base.{
  ℕ, suc, zero, ◌+◌, ◌≤◌, ◌<◌, ◌≡◌, refl, subst, inl, inr, Bool, true, ◌&&◌, ◌||◌, List, [], ◌∷◌,
  ◌++◌, arith, if◌then◌else◌, ◌==◌, ==_iff, any, all, text_eq_iff, Bool-cases,
}
use home_builder_pay.Motor.Rastreo.{Entrada, misma, fundir_caja, hallar}

-- The output is worth nothing, or stands in the list.
abbrev pub sabida : List Entrada → Entrada → Bool
sabida es n = n.monto == 0 || any (misma n) es

all-append : (p : Entrada → Bool) (xs ys : List Entrada) → all p (xs ++ ys) ≡ (all p xs && all p ys)
all-append p [] ys = refl
all-append p (x ∷ xs) ys = ground (arith, all-append p xs ys)

any-append : (p : Entrada → Bool) (xs ys : List Entrada) → any p (xs ++ ys) ≡ (any p xs || any p ys)
any-append p [] ys = refl
any-append p (x ∷ xs) ys = ground (arith, any-append p xs ys)

any-fundir_caja :
    (p : Entrada → Bool) (es ns : List Entrada) → any p es ≡ true → any p (fundir_caja es ns) ≡ true
unfolding fundir_caja
any-fundir_caja p es [] h = h
any-fundir_caja p es (n ∷ ns) h =
    any-fundir_caja p (if n.monto == 0 then es else if any (misma n) es then es else es ++ n ∷ [])
      ns (ground (arith, any-append p es (n ∷ [])))

sabida-fundir_caja :
    (n : Entrada) (es ns : List Entrada) → sabida es n ≡ true → sabida (fundir_caja es ns) n ≡ true
sabida-fundir_caja n es ns h = ground (arith, any-fundir_caja (misma n) es ns)

-- What was found is known.
pub all-fundir_caja : (es ns : List Entrada) → all (sabida (fundir_caja es ns)) ns ≡ true
unfolding fundir_caja
all-fundir_caja es [] = refl
all-fundir_caja es (n ∷ ns) =
    let e2 = if n.monto == 0 then es else if any (misma n) es then es else es ++ n ∷ [] in
    ground (
      arith,
      all-fundir_caja e2 ns,
      sabida-fundir_caja n e2 ns,
      any-append (misma n) es (n ∷ []),
      text_eq_iff n.tx n.tx,
    )

pub all-sabida :
    (es ns xs : List Entrada)
    → all (sabida es) xs ≡ true
    → all (sabida (fundir_caja es ns)) xs ≡ true
all-sabida es ns [] h = refl
all-sabida es ns (x ∷ xs) h = ground (arith, sabida-fundir_caja x es ns, all-sabida es ns xs)

module _ (cadena : ℕ → List Entrada) where
  pub all-hallar :
      (p : Entrada → Bool) (d n b : ℕ)
      → all p (hallar cadena d n) ≡ true
      → d ≤ b
      → b < d + n
      → all p (cadena b) ≡ true
  unfolding hallar
  all-hallar p d zero b h k l = absurd (omega arith)
  all-hallar p d (suc n) b h k l = elim (Bool-cases (d == b)) [
    | inl e ↦
        subst (λ x. all p (cadena x) ≡ true) ((==_iff d b).0 e)
          (ground (arith, all-append p (cadena d) (hallar cadena (suc d) n)))
    | inr e ↦
        all-hallar p (suc d) n b (ground (arith, all-append p (cadena d) (hallar cadena (suc d) n)))
          (ground (arith, e)) (omega arith)
  ]
