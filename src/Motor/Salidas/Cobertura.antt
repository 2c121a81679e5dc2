-- ===== src/Motor/Salidas/Cobertura.antt =====
-- caja.rs of the motor: two outputs of a job cover an installment.
use home_builder_pay.Base.{
  ℕ, suc, zero, ◌+◌, ◌-◌, ◌≤◌, ◌<◌, ◌≡◌, refl, ap, ◌∙◌, Bool, true, ◌&&◌, some, List, [], ◌∷◌, map,
  arith, if◌then◌else◌, leb, ◌==◌, all, filter, length,
}
use home_builder_pay.Motor.{suma_sat}
use home_builder_pay.Motor.Salidas.{
  Entradas, suelta, insertar, ordenar, saltar, alturas_de, CoberturaCaja, cobertura_caja,
}

length-insertar : (a : ℕ) (xs : List ℕ) → length (insertar a xs) ≡ length xs + 1
unfolding insertar
length-insertar a [] = refl
length-insertar a (b ∷ bs) = ground (arith, length-insertar a bs)

length-ordenar : (xs : List ℕ) → length (ordenar xs) ≡ length xs
unfolding ordenar
length-ordenar [] = refl
length-ordenar (a ∷ xs) = omega (arith, length-insertar a (ordenar xs), length-ordenar xs)

all-insertar : (p : ℕ → Bool) (a : ℕ) (xs : List ℕ) → all p (insertar a xs) ≡ (p a && all p xs)
unfolding insertar
all-insertar p a [] = refl
all-insertar p a (b ∷ bs) = ground (arith, all-insertar p a bs)

all-ordenar : (p : ℕ → Bool) (xs : List ℕ) → all p (ordenar xs) ≡ all p xs
unfolding ordenar
all-ordenar p [] = refl
all-ordenar p (a ∷ xs) = all-insertar p a (ordenar xs) ∙ ap (λ b. p a && b) (all-ordenar p xs)

abbrev Creciente : List ℕ → Type 0
Creciente [] = Unit {0}
Creciente (a ∷ xs) = (all (leb a) xs ≡ true) × Creciente xs

all-leb_trans : (a b : ℕ) (xs : List ℕ) → a ≤ b → all (leb b) xs ≡ true → all (leb a) xs ≡ true
all-leb_trans a b [] h k = refl
all-leb_trans a b (x ∷ xs) h k = ground (arith, all-leb_trans a b xs)

insertar-Creciente : (a : ℕ) (xs : List ℕ) → Creciente xs → Creciente (insertar a xs)
unfolding insertar
insertar-Creciente a [] h = (refl, tt)
insertar-Creciente a (b ∷ bs) h =
    ground
      (arith, all-insertar (leb b) a bs, insertar-Creciente a bs, all-leb_trans a b bs, h.0, h.1)

ordenar-Creciente : (xs : List ℕ) → Creciente (ordenar xs)
unfolding ordenar
ordenar-Creciente [] = tt
ordenar-Creciente (a ∷ xs) = insertar-Creciente a (ordenar xs) (ordenar-Creciente xs)

-- In an increasing list, the last ones decide for a test that holds below.
all-saltar :
    (tip k : ℕ) (xs : List ℕ)
    → Creciente xs
    → k < length xs
    → all (suelta tip) (saltar k xs) ≡ all (suelta tip) xs
unfolding suma_sat
all-saltar tip zero xs h l = refl
all-saltar tip (suc k) [] h l = absurd (omega arith)
all-saltar tip (suc k) (x ∷ []) h l = absurd (omega arith)
all-saltar tip (suc k) (x ∷ y ∷ xs) h l = ground (arith, all-saltar tip k (y ∷ xs) h.1, h.0)

abbrev pub exactas : Entradas → ℕ → List ℕ
exactas entradas amount = map (λ e. e.1) (filter (λ e. e.0 == amount) entradas)

-- The same without the order: the outputs of the exact amount are counted, and all of them have waited.
abbrev pub cobertura :
    Entradas → (tip : ℕ) → (listo : Bool) → (hasta retro amount cuantos : ℕ) → CoberturaCaja
cobertura entradas tip listo hasta retro amount cuantos =
    if leb cuantos (length (exactas entradas amount))
    then (if all (suelta tip) (exactas entradas amount)
        then CoberturaCaja.libre
        else CoberturaCaja.trabadas)
    else if listo && leb tip hasta && retro == 0
    then CoberturaCaja.sin_saldo
    else CoberturaCaja.buscando

-- With the tip known, the state of a box does not depend on the order in which its outputs were seen: it
-- is free where there are `cuantos` outputs of the exact amount, at least one, and every output of
-- that amount has waited long enough; the newest ones are enough to tell.
pub cobertura_caja_lem :
    (entradas : Entradas) (tip : ℕ) (listo : Bool) (desde hasta retro amount cuantos : ℕ)
    → 1 ≤ cuantos
    → cobertura_caja entradas (some tip) listo desde hasta retro amount cuantos
      ≡ cobertura entradas tip listo hasta retro amount cuantos
unfolding cobertura_caja
cobertura_caja_lem entradas tip listo desde hasta retro amount cuantos h = ground (
  arith,
  length-ordenar (exactas entradas amount),
  all-ordenar (suelta tip) (exactas entradas amount),
  all-saltar tip (length (exactas entradas amount) - cuantos) (alturas_de entradas amount)
      (ordenar-Creciente (exactas entradas amount)),
)
