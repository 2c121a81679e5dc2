-- ===== src/Acuerdo/Paso.antt =====
-- A method of `Obra` that takes `&mut self` and may return an error: it gets the job and gives a
-- result and the job as it leaves it. `?` is `>>=`.
use mathlib.Core.Bool.{Bool, true, false}
use home_builder_pay.Base.{Error, Result, ok, err, Option, ok_or}
use home_builder_pay.Acuerdo.{Obra}

abbrev pub Paso : Type 0 → Type 0
Paso A = Obra → Result A × Obra

infixl 5 ◌>>=◌ ◌>>◌
abbrev pub ◌>>=◌ : {A B : Type 0} → Paso A → (A → Paso B) → Paso B
◌>>=◌ m f o = let (r, o') = m o in elim r [ ok a ↦ f a o' | err e ↦ (err e, o') ]

abbrev pub ◌>>◌ : {B : Type 0} → Paso (Unit {0}) → Paso B → Paso B
m >> k = m >>= λ _. k

abbrev pub falla : {A : Type 0} → Error → Paso A
falla e o = (err e, o)

abbrev pub hecho : Paso (Unit {0})
hecho o = (ok tt, o)

abbrev pub comprobar : Bool → Error → Result (Unit {0})
comprobar true e = ok tt
comprobar false e = err e

-- An early return with `e` unless the condition holds.
abbrev pub exigir : Bool → Error → Paso (Unit {0})
exigir b e o = (comprobar b e, o)

-- `ok_or(e)?`
abbrev pub exigir_some : {A : Type 0} → Option A → Error → Paso A
exigir_some a e o = (ok_or a e, o)

-- A result of a helper, `helper(…)?`.
abbrev pub lift : {A : Type 0} → Result A → Paso A
lift r o = (r, o)

abbrev pub leer : {A : Type 0} → (Obra → A) → Paso A
leer f o = (ok (f o), o)

abbrev pub modificar : (Obra → Obra) → Paso (Unit {0})
modificar f o = (ok tt, f o)
