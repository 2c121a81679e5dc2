-- ===== src/Red/Almacen/Copias.antt =====
-- dht.rs: what is read of an offer, a job or a person, by its id, after the copies that arrive were
-- merged.
use home_builder_pay.Base.{
  ℕ, zero, suc, ◌≡◌, refl, sym, subst, ◌∙◌, get_elem?, true, false, ◌&&◌, not, Option, none, some,
  List, [], ◌∷◌, ◌++◌, if◌then◌else◌, ltb_ℤ, arith, Text, text_eq, text_eq_iff, is_empty, filter,
  All, Bool-cases, inl, inr,
}
use home_builder_pay.Acuerdo.{Persona, Oferta, Obra}
use home_builder_pay.Fusion.{fusionar}
use home_builder_pay.Fusion.Obras.{fusionar-id}
use home_builder_pay.Retiro.{mejor_que}
use home_builder_pay.Red.Almacen.{
  reemplazar, unir_oferta, unir_ofertas, unir_obra, unir_obras, unir_presente, unir_presentes,
}

-- The first element with the id.
abbrev pub busca : {A : Type 0} → (A → Text) → Text → List A → Option A
busca id k [] = none
busca id k (x ∷ xs) = if text_eq (id x) k then some x else busca id k xs

abbrev pub de_id : {A : Type 0} → (A → Text) → Text → List A → List A
de_id id k xs = filter (λ x. text_eq (id x) k) xs

abbrev pub una : {A : Type 0} → (A → A → A) → Option A → A → A
una f none x = x
una f (some r) x = f r x

-- Copies that come one after another, from one that is there or not.
abbrev pub junta : {A : Type 0} → (A → A → A) → Option A → List A → Option A
junta f r [] = r
junta f r (x ∷ xs) = junta f (some (una f r x)) xs

busca-reemplazar :
    {A : Type 0} (id : A → Text) (k : Text) (f : A → A → A) (n : A) (xs : List A)
    → ((x : A) → text_eq (id x) (id n) ≡ true → id (f x n) ≡ id n)
    → busca id k (reemplazar (λ x. text_eq (id x) (id n)) (λ x. f x n) n xs)
      ≡ (if text_eq (id n) k then some (una f (busca id k xs) n) else busca id k xs)
unfolding reemplazar
busca-reemplazar id k f n [] h = ground arith
busca-reemplazar id k f n (x ∷ xs) h = elim (Bool-cases (text_eq (id x) (id n))) [
  | inl mia ↦ ground (arith, h x mia, text_eq_iff (id x) (id n))
  | inr otra ↦ ground (
    arith,
    busca-reemplazar id k f n xs h,
    text_eq_iff (id x) (id n),
    text_eq_iff (id x) k,
    text_eq_iff (id n) k,
  )
]

-- Of two copies of an offer, the first, unless the second alone can be withdrawn.
abbrev pub retirable : Oferta → Oferta → Oferta
retirable x o = if is_empty x.retiro_hash && not (is_empty o.retiro_hash) then o else x

-- Of two, who was seen later; of two seen at once, the second.
abbrev mas_vista : Persona → Persona → Persona
mas_vista x p = if ltb_ℤ p.visto x.visto then x else p

abbrev pub oferta_id : Oferta → Text
oferta_id o = o.id

abbrev pub obra_id : Obra → Text
obra_id o = o.id

abbrev pub persona_id : Persona → Text
persona_id p = p.id

busca-unir_oferta :
    (k : Text) (o : Oferta) (a : List Oferta)
    → busca oferta_id k (unir_oferta o a) ≡ (
        if text_eq o.id k
        then some (una retirable (busca oferta_id k a) o)
        else busca oferta_id k a)
unfolding unir_oferta mejor_que reemplazar
busca-unir_oferta k o [] = ground arith
busca-unir_oferta k o (x ∷ xs) =
    ground (
      arith,
      busca-unir_oferta k o xs,
      text_eq_iff x.id o.id,
      text_eq_iff x.id k,
      text_eq_iff o.id k,
    )

pub busca-unir_ofertas :
    (k : Text) (a b : List Oferta)
    → busca oferta_id k (unir_ofertas a b)
      ≡ junta retirable (busca oferta_id k a) (de_id oferta_id k b)
unfolding unir_ofertas
busca-unir_ofertas k a [] = refl
busca-unir_ofertas k a (o ∷ b) =
    ground (arith, busca-unir_ofertas k (unir_oferta o a) b, busca-unir_oferta k o a)

pub busca-unir_obras :
    (k : Text) (a b : List Obra)
    → busca obra_id k (unir_obras a b) ≡ junta fusionar (busca obra_id k a) (de_id obra_id k b)
unfolding unir_obras unir_obra
busca-unir_obras k a [] = refl
busca-unir_obras k a (o ∷ b) = ground (
  arith,
  busca-unir_obras k (unir_obra o a) b,
  busca-reemplazar obra_id k fusionar o a (λ x h. fusionar-id x o ∙ (text_eq_iff x.id o.id).0 h),
)

busca-unir_presentes :
    (k : Text) (a b : List Persona)
    → busca persona_id k (unir_presentes a b)
      ≡ junta mas_vista (busca persona_id k a) (de_id persona_id k b)
unfolding unir_presentes unir_presente
busca-unir_presentes k a [] = refl
busca-unir_presentes k a (p ∷ b) = ground (
  arith,
  busca-unir_presentes k (unir_presente p a) b,
  busca-reemplazar persona_id k mas_vista p a (λ x h. ground (arith, text_eq_iff x.id p.id, h)),
)

abbrev pub lista : {A : Type 0} → Option A → List A
lista none = []
lista (some x) = x ∷ []

-- Nobody, if there is nobody to choose from; else one of the people, before whom none of them was seen
-- later.
abbrev pub Ultima : List Persona → Option Persona → Type 0
Ultima ps none = ps ≡ []
Ultima ps (some p) =
    ((i : ℕ) × (get_elem? ps i ≡ some p)) × All (λ x. ltb_ℤ p.visto x.visto ≡ false) ps

Ultima-una_mas :
    (q x : Persona) (xs : List Persona) (r : Option Persona)
    → Ultima (mas_vista q x ∷ xs) r
    → Ultima (q ∷ x ∷ xs) r
Ultima-una_mas q x xs none h = cc
Ultima-una_mas q x xs (some p) ((zero, e), h) = elim (Bool-cases (ltb_ℤ x.visto q.visto)) [
  | inl a ↦ ((0, ground arith), (ground arith, (ground arith, h.1)))
  | inr a ↦ ((1, ground arith), (ground arith, (ground arith, h.1)))
]
Ultima-una_mas q x xs (some p) ((suc i, e), h) =
    ((suc (suc i), e), (ground (arith, h.0), (ground (arith, h.0), h.1)))

junta-Ultima :
    (r : Option Persona) (xs : List Persona) → Ultima (lista r ++ xs) (junta mas_vista r xs)
junta-Ultima none [] = refl
junta-Ultima (some q) [] = ((0, refl), (ground arith, tt))
junta-Ultima none (x ∷ xs) = junta-Ultima (some x) xs
junta-Ultima (some q) (x ∷ xs) =
    Ultima-una_mas q x xs (junta mas_vista (some (mas_vista q x)) xs)
      (junta-Ultima (some (mas_vista q x)) xs)

-- The person that is read is the one that was seen last, of the one that was there and those that came.
pub busca-unir_presentes-Ultima :
    (k : Text) (a b : List Persona)
    → Ultima
        (lista (busca persona_id k a) ++ de_id persona_id k b)
        (busca persona_id k (unir_presentes a b))
busca-unir_presentes-Ultima k a b =
    subst (Ultima (lista (busca persona_id k a) ++ de_id persona_id k b))
      (sym (busca-unir_presentes k a b))
      (junta-Ultima (busca persona_id k a) (de_id persona_id k b))
