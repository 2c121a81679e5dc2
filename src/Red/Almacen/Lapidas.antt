-- ===== src/Red/Almacen/Lapidas.antt =====
-- dht.rs `merge_store` at the withdrawals: how many are kept, and which.
use home_builder_pay.Base.{
  ℕ, suc, zero, ◌+◌, ◌≡◌, ◌≤◌, refl, ap, ◌∙◌, Bool, true, false, ◌||◌, List, [], ◌∷◌, ◌++◌, arith,
  text_eq_iff, any, length, take, length-take-le, ltb_ℤ, All, is_empty, Bool-cases, inl, inr,
}
use home_builder_pay.Retiro.{RetiroOferta}
use home_builder_pay.Red.Almacen.{
  retiro_igual, unir_retiro, unir_retiros, ubicar, por_fecha, fundir_retiros, max_retiradas,
}

-- The newest first.
abbrev pub EnOrden : List RetiroOferta → Type 0
EnOrden [] = Unit {0}
EnOrden (r ∷ rs) = All (λ x. ltb_ℤ r.cuando x.cuando ≡ false) rs × EnOrden rs

All-ubicar {κ} :
    (P : RetiroOferta → Type κ) (r : RetiroOferta) (xs : List RetiroOferta)
    → P r
    → All P xs
    → All P (ubicar r xs)
unfolding ubicar
All-ubicar P r [] h k = (h, tt)
All-ubicar P r (x ∷ xs) h k = ground (arith, All-ubicar P r xs)

All-mas_viejas :
    (r x : RetiroOferta) (xs : List RetiroOferta)
    → ltb_ℤ r.cuando x.cuando ≡ false
    → All (λ y. ltb_ℤ x.cuando y.cuando ≡ false) xs
    → All (λ y. ltb_ℤ r.cuando y.cuando ≡ false) xs
All-mas_viejas r x [] h k = tt
All-mas_viejas r x (y ∷ ys) h k = (ground (arith, k.0), All-mas_viejas r x ys h k.1)

ubicar-EnOrden : (r : RetiroOferta) (xs : List RetiroOferta) → EnOrden xs → EnOrden (ubicar r xs)
unfolding ubicar
ubicar-EnOrden r [] h = (tt, tt)
ubicar-EnOrden r (x ∷ xs) h = elim (Bool-cases (ltb_ℤ r.cuando x.cuando)) [
  | inl antes ↦ rw antes (
    All-ubicar (λ y. ltb_ℤ x.cuando y.cuando ≡ false) r xs (ground arith) h.0,
    ubicar-EnOrden r xs h.1,
  )
  | inr nueva ↦ rw nueva ((nueva, All-mas_viejas r x xs nueva h.0), h)
]

por_fecha-EnOrden : (rs : List RetiroOferta) → EnOrden (por_fecha rs)
unfolding por_fecha
por_fecha-EnOrden [] = tt
por_fecha-EnOrden (r ∷ rs) = ubicar-EnOrden r (por_fecha rs) (por_fecha-EnOrden rs)

All-take {κ} :
    (P : RetiroOferta → Type κ) (n : ℕ) (xs : List RetiroOferta) → All P xs → All P (take n xs)
All-take P zero xs h = tt
All-take P (suc n) [] h = tt
All-take P (suc n) (x ∷ xs) h = (h.0, All-take P n xs h.1)

take-EnOrden : (n : ℕ) (xs : List RetiroOferta) → EnOrden xs → EnOrden (take n xs)
take-EnOrden zero xs h = tt
take-EnOrden (suc n) [] h = tt
take-EnOrden (suc n) (x ∷ xs) h = (All-take _ n xs h.0, take-EnOrden n xs h.1)

length-ubicar : (r : RetiroOferta) (xs : List RetiroOferta) → length (ubicar r xs) ≡ length xs + 1
unfolding ubicar
length-ubicar r [] = refl
length-ubicar r (x ∷ xs) = ground (arith, length-ubicar r xs)

length-por_fecha : (rs : List RetiroOferta) → length (por_fecha rs) ≡ length rs
unfolding por_fecha
length-por_fecha [] = refl
length-por_fecha (r ∷ rs) = omega (arith, length-ubicar r (por_fecha rs), length-por_fecha rs)

any-ubicar :
    (p : RetiroOferta → Bool) (r : RetiroOferta) (xs : List RetiroOferta)
    → any p (ubicar r xs) ≡ (p r || any p xs)
unfolding ubicar
any-ubicar p r [] = refl
any-ubicar p r (x ∷ xs) = ground (arith, any-ubicar p r xs)

pub any-por_fecha :
    (p : RetiroOferta → Bool) (rs : List RetiroOferta) → any p (por_fecha rs) ≡ any p rs
unfolding por_fecha
any-por_fecha p [] = refl
any-por_fecha p (r ∷ rs) = any-ubicar p r (por_fecha rs) ∙ ap (λ b. p r || b) (any-por_fecha p rs)

take_todo : (n : ℕ) (xs : List RetiroOferta) → length xs ≤ n → take n xs ≡ xs
take_todo zero [] h = refl
take_todo (suc n) [] h = refl
take_todo zero (x ∷ xs) h = absurd (omega arith)
take_todo (suc n) (x ∷ xs) h = ap (◌∷◌ x) (take_todo n xs (omega arith))

pub any-append :
    (p : RetiroOferta → Bool) (xs ys : List RetiroOferta)
    → any p (xs ++ ys) ≡ (any p xs || any p ys)
any-append p [] ys = refl
any-append p (x ∷ xs) ys = ground (arith, any-append p xs ys)

any-unir_retiro :
    (p : RetiroOferta → Bool) (r : RetiroOferta) (a : List RetiroOferta)
    → any p a ≡ true
    → any p (unir_retiro r a) ≡ true
unfolding unir_retiro
any-unir_retiro p r a h = ground (arith, any-append p a (r ∷ []))

any-unir_retiros :
    (p : RetiroOferta → Bool) (a b : List RetiroOferta)
    → any p a ≡ true
    → any p (unir_retiros a b) ≡ true
unfolding unir_retiros
any-unir_retiros p a [] h = h
any-unir_retiros p a (r ∷ b) h = any-unir_retiros p (unir_retiro r a) b (any-unir_retiro p r a h)

any-unir_retiro_self :
    (r : RetiroOferta) (a : List RetiroOferta)
    → is_empty r.oferta_id ≡ false
    → is_empty r.autor_id ≡ false
    → any (retiro_igual r) (unir_retiro r a) ≡ true
unfolding unir_retiro
any-unir_retiro_self r a h k = ground (
  arith,
  any-append (retiro_igual r) a (r ∷ []),
  text_eq_iff r.oferta_id r.oferta_id,
  text_eq_iff r.autor_id r.autor_id,
  text_eq_iff r.prueba r.prueba,
)

pub fundir_todo :
    (a b : List RetiroOferta)
    → length (unir_retiros a b) ≤ max_retiradas
    → fundir_retiros a b ≡ por_fecha (unir_retiros a b)
unfolding fundir_retiros
fundir_todo a b h =
    take_todo max_retiradas (por_fecha (unir_retiros a b))
      (omega (arith, length-por_fecha (unir_retiros a b)))

-- At most `max_retiradas` withdrawals are kept, the newest first.
pub fundir_retiros-EnOrden :
    (a b : List RetiroOferta)
    → (length (fundir_retiros a b) ≤ max_retiradas) × EnOrden (fundir_retiros a b)
unfolding fundir_retiros
fundir_retiros-EnOrden a b = (
  length-take-le max_retiradas (por_fecha (unir_retiros a b)),
  take-EnOrden max_retiradas (por_fecha (unir_retiros a b)) (por_fecha-EnOrden (unir_retiros a b)),
)

-- While there are no more than `max_retiradas` withdrawals in all, none that is known is lost.
pub any-fundir_retiros :
    (p : RetiroOferta → Bool) (a b : List RetiroOferta)
    → length (unir_retiros a b) ≤ max_retiradas
    → any p a ≡ true
    → any p (fundir_retiros a b) ≡ true
any-fundir_retiros p a b l h =
    ap (any p) (fundir_todo a b l) ∙ any-por_fecha p (unir_retiros a b) ∙ any-unir_retiros p a b h

-- While there are no more in all, a withdrawal that arrives with the id of an offer and of an author is
-- kept.
pub any-fundir_retiros_self :
    (r : RetiroOferta) (a b : List RetiroOferta)
    → is_empty r.oferta_id ≡ false
    → is_empty r.autor_id ≡ false
    → length (unir_retiros a (r ∷ b)) ≤ max_retiradas
    → any (retiro_igual r) (fundir_retiros a (r ∷ b)) ≡ true
unfolding unir_retiros
any-fundir_retiros_self r a b h k l =
    ap (any (retiro_igual r)) (fundir_todo a (r ∷ b) l)
    ∙ any-por_fecha (retiro_igual r) (unir_retiros a (r ∷ b))
    ∙ any-unir_retiros (retiro_igual r) (unir_retiro r a) b (any-unir_retiro_self r a h k)
