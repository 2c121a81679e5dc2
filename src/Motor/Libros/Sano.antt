-- ===== src/Motor/Libros/Sano.antt =====
-- The book of the personal wallet over any history: what is spent stays out of it.
use home_builder_pay.Base.{
  ℕ, ◌≡◌, refl, subst, sym, inl, inr, Bool, true, false, ◌&&◌, ◌||◌, not, List, [], ◌∷◌, ◌++◌,
  arith, ◌==◌, ==_iff, any, filter, Text, text_eq, text_eq_iff, Bool-cases,
}
use home_builder_pay.Motor.Rastreo.{Entrada, misma}
use home_builder_pay.Motor.Libros.{
  Libro, Salida, es_salida, gastada_en, ya_gastada, sumar_gastadas, marcar_gastadas, sumar_entradas,
  fundir_entradas, recibir_saldo, con_gastada, con_entrada, Suceso, suceso, sucesos, saldo, gasta,
}

-- No output stands twice in the list, none is worth nothing and none is among the spent ones.
unfoldable pub limpias : List Salida → List Entrada → Bool
limpias gs [] = true
limpias gs (e ∷ es) =
    not (e.monto == 0)
    && not (gastada_en gs e.tx e.indice)
    && not (any (misma e) es)
    && limpias gs es

-- No output is spent twice.
unfoldable pub sin_repetir : List Salida → Bool
sin_repetir [] = true
sin_repetir (g ∷ gs) = not (gastada_en gs g.0 g.1) && sin_repetir gs

unfoldable pub libro_limpio : Libro → Bool
unfolding limpias sin_repetir
libro_limpio l = limpias l.gastadas l.entradas && sin_repetir l.gastadas

gastada_en-append :
    (gs hs : List Salida) (t : Text) (i : ℕ)
    → gastada_en (gs ++ hs) t i ≡ (gastada_en gs t i || gastada_en hs t i)
gastada_en-append [] hs t i = refl
gastada_en-append (g ∷ gs) hs t i = ground (arith, gastada_en-append gs hs t i)

any-append : (p : Entrada → Bool) (xs ys : List Entrada) → any p (xs ++ ys) ≡ (any p xs || any p ys)
any-append p [] ys = refl
any-append p (x ∷ xs) ys = ground (arith, any-append p xs ys)

misma_comm : (m n : Entrada) → misma m n ≡ misma n m
misma_comm m n = ground (arith, text_eq_iff m.tx n.tx, text_eq_iff n.tx m.tx)

-- A new output goes behind the others.
limpias-append :
    (gs : List Salida) (es : List Entrada) (n : Entrada)
    → limpias gs es ≡ true
    → (n.monto == 0) ≡ false
    → gastada_en gs n.tx n.indice ≡ false
    → any (misma n) es ≡ false
    → limpias gs (es ++ n ∷ []) ≡ true
unfolding limpias
limpias-append gs [] n h k g m = ground arith
limpias-append gs (e ∷ es) n h k g m =
    ground (arith, any-append (misma e) es (n ∷ []), misma_comm e n, limpias-append gs es n)

limpias-sumar_entradas :
    (gs : List Salida) (es ns : List Entrada)
    → limpias gs es ≡ true
    → limpias gs (sumar_entradas gs es ns) ≡ true
unfolding sumar_entradas
limpias-sumar_entradas gs es [] h = h
limpias-sumar_entradas gs es (n ∷ ns) h =
    limpias-sumar_entradas gs (con_entrada gs es n) ns (ground (arith, h, limpias-append gs es n h))

any-filter :
    (p q : Entrada → Bool) (es : List Entrada) → any p es ≡ false → any p (filter q es) ≡ false
any-filter p q [] h = refl
any-filter p q (e ∷ es) h = ground (arith, any-filter p q es)

-- What is marked leaves the list.
limpias-filter :
    (gs us hs : List Salida) (es : List Entrada)
    → ((t : Text) (i : ℕ) → gastada_en hs t i ≡ (gastada_en gs t i || gastada_en us t i))
    → limpias gs es ≡ true
    → limpias hs (filter (λ e. not (gastada_en us e.tx e.indice)) es) ≡ true
unfolding limpias
limpias-filter gs us hs [] k h = refl
limpias-filter gs us hs (e ∷ es) k h = ground (
  arith,
  k e.tx e.indice,
  any-filter (misma e) (λ x. not (gastada_en us x.tx x.indice)) es,
  limpias-filter gs us hs es k,
)

es_salida-same :
    (u : Salida) (gs : List Salida) (t : Text) (i : ℕ)
    → gastada_en gs u.0 u.1 ≡ true
    → es_salida t i u ≡ true
    → gastada_en gs t i ≡ true
es_salida-same u gs t i h k =
    subst (λ x. gastada_en gs x i ≡ true) ((text_eq_iff u.0 t).0 (ground arith))
      (subst (λ x. gastada_en gs u.0 x ≡ true) ((==_iff u.1 i).0 (ground arith)) h)

gastada_en-sumar_gastadas :
    (gs us : List Salida) (t : Text) (i : ℕ)
    → gastada_en (sumar_gastadas gs us) t i ≡ (gastada_en gs t i || gastada_en us t i)
unfolding sumar_gastadas
gastada_en-sumar_gastadas gs [] t i = ground arith
gastada_en-sumar_gastadas gs (u ∷ us) t i = ground (
  arith,
  gastada_en-sumar_gastadas (con_gastada gs u) us t i,
  gastada_en-append gs (u ∷ []) t i,
  es_salida-same u gs t i,
)

sin_repetir-append :
    (gs : List Salida) (u : Salida)
    → sin_repetir gs ≡ true
    → gastada_en gs u.0 u.1 ≡ false
    → sin_repetir (gs ++ u ∷ []) ≡ true
unfolding sin_repetir
sin_repetir-append [] u h k = refl
sin_repetir-append (g ∷ gs) u h k = ground (
  arith,
  gastada_en-append gs (u ∷ []) g.0 g.1,
  text_eq_iff u.0 g.0,
  text_eq_iff g.0 u.0,
  sin_repetir-append gs u,
)

sin_repetir-sumar_gastadas :
    (gs us : List Salida) → sin_repetir gs ≡ true → sin_repetir (sumar_gastadas gs us) ≡ true
unfolding sumar_gastadas
sin_repetir-sumar_gastadas gs [] h = h
sin_repetir-sumar_gastadas gs (u ∷ us) h =
    sin_repetir-sumar_gastadas (con_gastada gs u) us (ground (arith, h, sin_repetir-append gs u h))

marcar_gastadas-limpio :
    (us : List Salida) (l : Libro)
    → libro_limpio l ≡ true
    → libro_limpio (marcar_gastadas us l) ≡ true
unfolding marcar_gastadas libro_limpio
marcar_gastadas-limpio us l h = ground (
  arith,
  limpias-filter l.gastadas us (sumar_gastadas l.gastadas us) l.entradas
      (gastada_en-sumar_gastadas l.gastadas us),
  sin_repetir-sumar_gastadas l.gastadas us,
)

fundir_entradas-limpio :
    (ns : List Entrada) (l : Libro)
    → libro_limpio l ≡ true
    → libro_limpio (fundir_entradas ns l) ≡ true
unfolding fundir_entradas libro_limpio
fundir_entradas-limpio ns l h = ground (arith, limpias-sumar_entradas l.gastadas l.entradas ns)

recibir_saldo-limpio :
    (desde hasta : ℕ) (retro : Bool) (ns : List Entrada) (us : List Salida) (atras : ℕ) (l : Libro)
    → libro_limpio l ≡ true
    → libro_limpio (recibir_saldo desde hasta retro ns us atras l).0 ≡ true
recibir_saldo-limpio desde hasta retro ns us atras l h =
    let f = fundir_entradas ns l in
    unfold recibir_saldo in
    unfold libro_limpio in
    ground (
      arith,
      fundir_entradas-limpio ns l h,
      marcar_gastadas-limpio us f (fundir_entradas-limpio ns l h),
    )

suceso-limpio :
    (s : Suceso) (r : Libro × ℕ) → libro_limpio r.0 ≡ true → libro_limpio (suceso s r).0 ≡ true
unfolding suceso
suceso-limpio (saldo desde hasta retro ns us) (l, a) h =
    recibir_saldo-limpio desde hasta retro ns us a l h
suceso-limpio (gasta us) (l, a) h = marcar_gastadas-limpio us l h

-- After any history of scans and payments, a book in which no output stands twice, none is worth
-- nothing, none is among the spent ones and none is spent twice is such a book again.
pub sucesos-limpio :
    (ss : List Suceso) (r : Libro × ℕ)
    → libro_limpio r.0 ≡ true
    → libro_limpio (sucesos ss r).0 ≡ true
unfolding sucesos
sucesos-limpio [] r h = h
sucesos-limpio (s ∷ ss) r h = sucesos-limpio ss (suceso s r) (suceso-limpio s r h)

gastada-suceso :
    (s : Suceso) (r : Libro × ℕ) (t : Text) (i : ℕ)
    → ya_gastada r.0 t i ≡ true
    → ya_gastada (suceso s r).0 t i ≡ true
unfolding suceso ya_gastada recibir_saldo marcar_gastadas fundir_entradas
gastada-suceso (saldo desde hasta retro ns us) (l, a) t i h =
    ground (arith, gastada_en-sumar_gastadas l.gastadas us t i)
gastada-suceso (gasta us) (l, a) t i h = ground (arith, gastada_en-sumar_gastadas l.gastadas us t i)

gastada-sucesos :
    (ss : List Suceso) (r : Libro × ℕ) (t : Text) (i : ℕ)
    → ya_gastada r.0 t i ≡ true
    → ya_gastada (sucesos ss r).0 t i ≡ true
unfolding sucesos
gastada-sucesos [] r t i h = h
gastada-sucesos (s ∷ ss) r t i h = gastada-sucesos ss (suceso s r) t i (gastada-suceso s r t i h)

abbrev pub tiene_salida : Text → ℕ → List Entrada → Bool
tiene_salida t i es = any (λ e. text_eq e.tx t && e.indice == i) es

limpias-sin_salida :
    (gs : List Salida) (es : List Entrada) (t : Text) (i : ℕ)
    → limpias gs es ≡ true
    → gastada_en gs t i ≡ true
    → tiene_salida t i es ≡ false
unfolding limpias
limpias-sin_salida gs [] t i h k = refl
limpias-sin_salida gs (e ∷ es) t i h k = elim (Bool-cases (text_eq e.tx t && e.indice == i)) [
  | inr otra ↦ ground (arith, limpias-sin_salida gs es t i)
  | inl igual ↦ absurd (
      ground (
        arith,
        subst (λ x. gastada_en gs x i ≡ true) (sym ((text_eq_iff e.tx t).0 (ground arith))) k,
        ==_iff e.indice i,
      ))
]

marcada :
    (us : List Salida) (l : Libro) (t : Text) (i : ℕ)
    → gastada_en us t i ≡ true
    → ya_gastada (marcar_gastadas us l) t i ≡ true
unfolding ya_gastada marcar_gastadas
marcada us l t i k = ground (arith, gastada_en-sumar_gastadas l.gastadas us t i)

-- An output that a payment has spent never stands in a clean book again, whatever the scans find and
-- whatever else is spent afterwards.
pub gastada_no_vuelve :
    (us : List Salida) (ss : List Suceso) (l : Libro) (atras : ℕ) (t : Text) (i : ℕ)
    → libro_limpio l ≡ true
    → gastada_en us t i ≡ true
    → tiene_salida t i (sucesos (gasta us ∷ ss) (l, atras)).0.entradas ≡ false
gastada_no_vuelve us ss l atras t i h k =
    limpias-sin_salida (sucesos (gasta us ∷ ss) (l, atras)).0.gastadas
      (sucesos (gasta us ∷ ss) (l, atras)).0.entradas t i
      (unfold libro_limpio in ground (arith, limpio)) (unfold ya_gastada in gastada)
  where
    limpio : libro_limpio (sucesos (gasta us ∷ ss) (l, atras)).0 ≡ true
    limpio = sucesos-limpio (gasta us ∷ ss) (l, atras) h

    gastada : ya_gastada (sucesos (gasta us ∷ ss) (l, atras)).0 t i ≡ true
    gastada =
        unfold sucesos in
        unfold suceso in gastada-sucesos ss (marcar_gastadas us l, atras) t i (marcada us l t i k)
