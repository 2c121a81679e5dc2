-- ===== src/Red/Almacen/Tablero.antt =====
-- dht.rs `merge_store` at the board: copies of offers are merged by their ids, and what was withdrawn
-- stays away.
use home_builder_pay.Base.{
  ℕ, ◌≡◌, refl, sym, ap, ◌∙◌, subst, Bool, true, false, not, List, [], ◌∷◌, if◌then◌else◌, arith,
  Text, text_eq, text_eq_iff, any, All,
}
use home_builder_pay.Base.Dict.{Dict}
use home_builder_pay.Acuerdo.{Oferta}
use home_builder_pay.Retiro.{RetiroOferta, sin_retiradas, vale_para, mejor_que}
use home_builder_pay.Red.{Externo}
use home_builder_pay.Red.Almacen.{
  unir_oferta, unir_ofertas, fundir_retiros, tablero_de, retiradas_de, merge_store,
}
use home_builder_pay.Red.Almacen.Vista.{Fiel, Vista, Llegada, vista, llegada, fundir}
use home_builder_pay.Red.Almacen.Refinamiento.{vista-merge_store}

-- The copy of the offer that stands in the list is no worse than `o`.
abbrev cubre : Oferta → List Oferta → Bool
cubre o [] = false
cubre o (x ∷ xs) = if text_eq x.id o.id then not (mejor_que o x) else cubre o xs

cubre-unir_oferta_self : (o : Oferta) (a : List Oferta) → cubre o (unir_oferta o a) ≡ true
unfolding unir_oferta mejor_que
cubre-unir_oferta_self o [] = ground (arith, text_eq_iff o.id o.id)
cubre-unir_oferta_self o (x ∷ xs) =
    ground (arith, text_eq_iff o.id o.id, text_eq_iff x.id o.id, cubre-unir_oferta_self o xs)

cubre-unir_oferta :
    (o o2 : Oferta) (a : List Oferta) → cubre o a ≡ true → cubre o (unir_oferta o2 a) ≡ true
unfolding unir_oferta mejor_que
cubre-unir_oferta o o2 [] h = absurd (ground arith)
cubre-unir_oferta o o2 (x ∷ xs) h = ground (
  arith,
  text_eq_iff x.id o.id,
  text_eq_iff o2.id o.id,
  text_eq_iff x.id o2.id,
  cubre-unir_oferta o o2 xs,
)

cubre-unir_ofertas :
    (o : Oferta) (a b : List Oferta) → cubre o a ≡ true → cubre o (unir_ofertas a b) ≡ true
unfolding unir_ofertas
cubre-unir_ofertas o a [] h = h
cubre-unir_ofertas o a (o2 ∷ b) h =
    cubre-unir_ofertas o (unir_oferta o2 a) b (cubre-unir_oferta o o2 a h)

unir_oferta_cubierta : (o : Oferta) (a : List Oferta) → cubre o a ≡ true → unir_oferta o a ≡ a
unfolding unir_oferta
unir_oferta_cubierta o [] h = absurd (ground arith)
unir_oferta_cubierta o (x ∷ xs) h = ground (arith, unir_oferta_cubierta o xs)

unir_ofertas_cubiertas : (a b : List Oferta) → All (λ o. cubre o a ≡ true) b → unir_ofertas a b ≡ a
unfolding unir_ofertas
unir_ofertas_cubiertas a [] h = refl
unir_ofertas_cubiertas a (o ∷ b) h =
    ap (λ c. unir_ofertas c b) (unir_oferta_cubierta o a h.0) ∙ unir_ofertas_cubiertas a b h.1

todas_cubiertas : (a b : List Oferta) → All (λ o. cubre o (unir_ofertas a b) ≡ true) b
unfolding unir_ofertas
todas_cubiertas a [] = tt
todas_cubiertas a (o ∷ b) = (
  cubre-unir_ofertas o (unir_oferta o a) b (cubre-unir_oferta_self o a),
  todas_cubiertas (unir_oferta o a) b,
)

-- A board that arrives again changes nothing: neither the offers nor their order.
pub unir_ofertas_idem : (a b : List Oferta) → unir_ofertas (unir_ofertas a b) b ≡ unir_ofertas a b
unir_ofertas_idem a b = unir_ofertas_cubiertas (unir_ofertas a b) b (todas_cubiertas a b)

-- No withdrawal of the list takes away an offer of the board.
abbrev pub Limpio : (List ℕ → List ℕ) → List Oferta → List RetiroOferta → Type 0
Limpio sha256 os rs = All (λ o. any (λ r. vale_para sha256 r o) rs ≡ false) os

Limpio-sin_retiradas :
    (sha256 : List ℕ → List ℕ) (os : List Oferta) (rs : List RetiroOferta)
    → Limpio sha256 (sin_retiradas sha256 os rs) rs
unfolding sin_retiradas
Limpio-sin_retiradas sha256 [] rs = tt
Limpio-sin_retiradas sha256 (o ∷ os) rs = ground (arith, Limpio-sin_retiradas sha256 os rs)

Limpio-fundir :
    (sha256 : List ℕ → List ℕ) (ll : Llegada) (v : Vista)
    → Limpio sha256 v.tablero v.retiradas
    → Limpio sha256 (fundir sha256 ll v).tablero (fundir sha256 ll v).retiradas
unfolding fundir
Limpio-fundir sha256 (Llegada.ofertas b) v h =
    Limpio-sin_retiradas sha256 (unir_ofertas v.tablero b) v.retiradas
Limpio-fundir sha256 (Llegada.obras b) v h = h
Limpio-fundir sha256 (Llegada.presentes b) v h = h
Limpio-fundir sha256 (Llegada.retiradas b) v h =
    Limpio-sin_retiradas sha256 v.tablero (fundir_retiros v.retiradas b)
Limpio-fundir sha256 Llegada.otra v h = h

module _ {V : Type 0} (e : Externo V) where
  -- Values that arrive one after another.
  unfoldable pub merge_todos : List (Text × V) → Dict V → Dict V
  merge_todos [] s = s
  merge_todos ((key, val) ∷ puts) s = merge_todos puts (merge_store e key val s)

  -- If lists are read back as they were written and the keys differ (`Fiel`): however many values
  -- arrive and in whatever order, no withdrawal that the store holds is valid for an offer on its
  -- board, if that is so at first.
  pub merge_todos-Limpio :
      (f : Fiel e) (puts : List (Text × V)) (s : Dict V)
      → Limpio e.sha256 (tablero_de e s) (retiradas_de e s)
      → Limpio e.sha256 (tablero_de e (merge_todos puts s)) (retiradas_de e (merge_todos puts s))
  unfolding merge_todos vista
  merge_todos-Limpio f [] s h = h
  merge_todos-Limpio f ((key, val) ∷ puts) s h =
      merge_todos-Limpio f puts (merge_store e key val s) (
        subst (λ (w : Vista). Limpio e.sha256 w.tablero w.retiradas)
          (sym (vista-merge_store e f key val s))
          (Limpio-fundir e.sha256 (llegada e key val) (vista e s) h))
