-- ===== src/Red/Almacen/Obras.antt =====
-- dht.rs `merge_store` at the jobs: copies that arrive are merged by `Obra::fusionar`, and no job is lost
-- or goes back.
use home_builder_pay.Base.{
  ℕ, ◌≡◌, ◌≤◌, sym, subst, Option, none, some, List, [], ◌∷◌, if◌then◌else◌, arith, Text, text_eq,
  Bool-cases, inl, inr,
}
use home_builder_pay.Base.Dict.{Dict}
use home_builder_pay.Acuerdo.{Obra, rango_obra}
use home_builder_pay.Fusion.{fusionar}
use home_builder_pay.Fusion.Obras.{fusionar-id, fusionar-rango, fusionar-contadores}
use home_builder_pay.Red.{Externo}
use home_builder_pay.Red.Almacen.{unir_obra, unir_obras, obras_de, merge_store}
use home_builder_pay.Red.Almacen.Vista.{Fiel, Vista, Llegada, vista, llegada, fundir}
use home_builder_pay.Red.Almacen.Refinamiento.{vista-merge_store}
use home_builder_pay.Red.Almacen.Tablero.{merge_todos}

abbrev pub buscar : Text → List Obra → Option Obra
buscar id [] = none
buscar id (x ∷ xs) = if text_eq x.id id then some x else buscar id xs

-- `x` is the job `o` at a later time.
pub record Avanza (o x : Obra) : Type 0 where
  pub estado_lem : rango_obra o.estado ≤ rango_obra x.estado
  pub extra_lem : o.extra_seq ≤ x.extra_seq
  pub cierre_lem : o.cierre_seq ≤ x.cierre_seq

-- The list has the job with the id of `o`, at that time or later.
abbrev pub Sigue : Text → Obra → List Obra → Type 0
Sigue id o xs = (x : Obra) × (buscar id xs ≡ some x) × Avanza o x

Avanza-trans : {a b c : Obra} → Avanza a b → Avanza b c → Avanza a c
Avanza-trans h k = ground (arith, h, k)

Avanza-fusionar : (a b : Obra) → Avanza a (fusionar a b)
Avanza-fusionar a b = ground (arith, fusionar-rango a b, fusionar-contadores a b)

-- A copy that arrives, of this job or of another.
Sigue-unir_obra :
    (id : Text) (o q y : Obra) (a : List Obra)
    → buscar id a ≡ some y
    → Avanza o y
    → Sigue id o (unir_obra q a)
unfolding unir_obra
Sigue-unir_obra id o q y [] e h = absurd (ground arith)
Sigue-unir_obra id o q y (x ∷ xs) e h = elim (Bool-cases (text_eq x.id id)) [
  | inl si ↦ elim (Bool-cases (text_eq x.id q.id)) [
    | inl mia ↦ (
      fusionar x q,
      ground (arith, fusionar-id x q),
      Avanza-trans {a = o} {b = x} {c = fusionar x q} (ground (arith, h)) (Avanza-fusionar x q),
    )
    | inr otra ↦ (y, ground arith, h)
  ]
  | inr distinta ↦
      let r = Sigue-unir_obra id o q y xs (ground arith) h in
      elim (Bool-cases (text_eq x.id q.id)) [
        | inl mia ↦ (y, ground (arith, fusionar-id x q), h)
        | inr otra ↦ (r.0, ground (arith, r.1), r.2)
      ]
]

Sigue-unir_obras :
    (id : Text) (o : Obra) (a b : List Obra) → Sigue id o a → Sigue id o (unir_obras a b)
unfolding unir_obras
Sigue-unir_obras id o a [] h = h
Sigue-unir_obras id o a (q ∷ b) h =
    Sigue-unir_obras id o (unir_obra q a) b (Sigue-unir_obra id o q h.0 a h.1 h.2)

Sigue-fundir :
    (sha256 : List ℕ → List ℕ) (id : Text) (o : Obra) (ll : Llegada) (v : Vista)
    → Sigue id o v.obras
    → Sigue id o (fundir sha256 ll v).obras
unfolding fundir
Sigue-fundir sha256 id o (Llegada.ofertas b) v h = h
Sigue-fundir sha256 id o (Llegada.obras b) v h = Sigue-unir_obras id o v.obras b h
Sigue-fundir sha256 id o (Llegada.presentes b) v h = h
Sigue-fundir sha256 id o (Llegada.retiradas b) v h = h
Sigue-fundir sha256 id o Llegada.otra v h = h

module _ {V : Type 0} (e : Externo V) (f : Fiel e) (id : Text) (o : Obra) where
  Sigue-merge_todos :
      (puts : List (Text × V)) (s : Dict V)
      → Sigue id o (obras_de e s)
      → Sigue id o (obras_de e (merge_todos e puts s))
  unfolding merge_todos vista
  Sigue-merge_todos [] s h = h
  Sigue-merge_todos ((key, val) ∷ puts) s h = Sigue-merge_todos puts (merge_store e key val s) (
      subst (λ (w : Vista). Sigue id o w.obras) (sym (vista-merge_store e f key val s))
        (Sigue-fundir e.sha256 id o (llegada e key val) (vista e s) h))

  -- If lists are read back as they were written and the keys differ (`Fiel`), a job of the store is
  -- still there after any values have arrived, in any order: its state comes no earlier than it did,
  -- and the counters of its proposed extra installment and closing are no smaller.
  pub merge_todos-Sigue :
      (puts : List (Text × V)) (s : Dict V)
      → buscar id (obras_de e s) ≡ some o
      → Sigue id o (obras_de e (merge_todos e puts s))
  merge_todos-Sigue puts s h = Sigue-merge_todos puts s (o, h, ground arith)
