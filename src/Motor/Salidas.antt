-- ===== src/Motor/Salidas.antt =====
-- caja.rs of the motor: which of the outputs that a wallet has seen it can spend, and whether two outputs
-- of a job cover an installment. `elegir_montos` is in crates/xmr-joint/src/personal.rs.

pub mod Eleccion
pub mod Cobertura
pub mod Envio
use home_builder_pay.Base.{
  ℕ, suc, zero, ◌+◌, ◌-◌, Bool, true, false, ◌&&◌, ◌||◌, not, Option, none, some, List, [], ◌∷◌,
  ◌++◌, map, if◌then◌else◌, ltb, leb, ◌==◌, any, all, filter, length, is_some, is_none,
}
use home_builder_pay.Motor.{suma_sat, desbloqueo, max_historia}

-- `(monto, altura)` of each output.
abbrev pub Entradas : Type 0
Entradas = List (ℕ × ℕ)

abbrev pub suelta : ℕ → ℕ → Bool
suelta tip altura = leb (suma_sat altura desbloqueo) tip

-- The loop of `indice_salida_libre`, at index `i`.
abbrev mejora : ℕ → Option (ℕ × ℕ) → Bool
mejora monto none = true
mejora monto (some (j, otra)) = ltb monto otra

unfoldable pub elegir_desde : Entradas → ℕ → ℕ → ℕ → Option (ℕ × ℕ) → Option (ℕ × ℕ)
elegir_desde [] tip minimo i mejor = mejor
elegir_desde ((monto, altura) ∷ es) tip minimo i mejor = elegir_desde es tip minimo (suc i) (
    if ltb monto minimo || not (suelta tip altura)
    then mejor
    else if mejora monto mejor
    then some (i, monto)
    else mejor)

abbrev primero : Option (ℕ × ℕ) → Option ℕ
primero none = none
primero (some (i, monto)) = some i

unfoldable pub indice_salida_libre : Entradas → (tip minimo : ℕ) → Option ℕ
unfolding elegir_desde
indice_salida_libre entradas tip minimo = primero (elegir_desde entradas tip minimo 0 none)

pub data EstadoMonedas : Type 0 where
  libre trabadas buscando sin_saldo : EstadoMonedas

abbrev pub es_trabada : ℕ → ℕ → ℕ × ℕ → Bool
es_trabada tip minimo (monto, altura) = leb minimo monto && ltb tip (suma_sat altura desbloqueo)

abbrev monedas_en : Entradas → ℕ → Bool → ℕ → ℕ → ℕ → ℕ → EstadoMonedas
monedas_en entradas tip listo desde hasta retro minimo =
    if not listo || ltb hasta tip || ltb 0 retro
    then EstadoMonedas.buscando
    else if any (es_trabada tip minimo) entradas
    then EstadoMonedas.trabadas
    else if ltb (tip - max_historia) desde
    then EstadoMonedas.buscando
    else EstadoMonedas.sin_saldo

abbrev monedas_de : Option ℕ → EstadoMonedas → EstadoMonedas
monedas_de (some i) e = EstadoMonedas.libre
monedas_de none e = e

unfoldable pub estado_monedas :
    Entradas → (tip : Option ℕ) → (listo : Bool) → (desde hasta retro minimo : ℕ) → EstadoMonedas
unfolding indice_salida_libre
estado_monedas entradas none listo desde hasta retro minimo = EstadoMonedas.buscando
estado_monedas entradas (some tip) listo desde hasta retro minimo =
    monedas_de (indice_salida_libre entradas tip minimo)
      (monedas_en entradas tip listo desde hasta retro minimo)

pub data CoberturaCaja : Type 0 where
  libre trabadas buscando sin_saldo : CoberturaCaja

-- `sort_unstable` of numbers.
unfoldable pub insertar : ℕ → List ℕ → List ℕ
insertar a [] = a ∷ []
insertar a (b ∷ bs) = if ltb b a then b ∷ insertar a bs else a ∷ b ∷ bs

unfoldable pub ordenar : List ℕ → List ℕ
unfolding insertar
ordenar [] = []
ordenar (a ∷ xs) = insertar a (ordenar xs)

-- `&xs[n..]`
abbrev pub saltar {ℓ} : {A : Type ℓ} → ℕ → List A → List A
saltar zero xs = xs
saltar (suc n) [] = []
saltar (suc n) (x ∷ xs) = saltar n xs

abbrev pub alturas_de : Entradas → ℕ → List ℕ
alturas_de entradas amount = ordenar (map (λ e. e.1) (filter (λ e. e.0 == amount) entradas))

abbrev cobertura_en : List ℕ → ℕ → Bool → ℕ → ℕ → ℕ → CoberturaCaja
cobertura_en alturas tip listo hasta retro cuantos =
    if leb cuantos (length alturas)
    then (if all (suelta tip) (saltar (length alturas - cuantos) alturas)
        then CoberturaCaja.libre
        else CoberturaCaja.trabadas)
    else if listo && leb tip hasta && retro == 0
    then CoberturaCaja.sin_saldo
    else CoberturaCaja.buscando

unfoldable pub cobertura_caja :
    Entradas
    → (tip : Option ℕ) → (listo : Bool) → (desde hasta retro amount cuantos : ℕ) → CoberturaCaja
unfolding ordenar
cobertura_caja entradas none listo desde hasta retro amount cuantos = CoberturaCaja.buscando
cobertura_caja entradas (some tip) listo desde hasta retro amount cuantos =
    cobertura_en (alturas_de entradas amount) tip listo hasta retro cuantos

-- `elegir_montos`: `orden` is the sorted list of the amounts with their indices, `n` how many are chosen.
unfoldable pub insertar_monto : ℕ × ℕ → Entradas → Entradas
insertar_monto a [] = a ∷ []
insertar_monto a (b ∷ bs) =
    if ltb b.0 a.0 || (b.0 == a.0 && ltb b.1 a.1) then b ∷ insertar_monto a bs else a ∷ b ∷ bs

unfoldable pub ordenar_montos : List ℕ → ℕ → Entradas
unfolding insertar_monto
ordenar_montos [] i = []
ordenar_montos (m ∷ ms) i = insertar_monto (m, i) (ordenar_montos ms (suc i))

unfoldable pub juntar : Entradas → (suma necesita n : ℕ) → Option (List ℕ)
juntar [] suma necesita n = none
juntar ((m, i) ∷ ms) suma necesita n =
    let salto = juntar ms suma necesita n in
    let resto = juntar ms (suma_sat suma m) necesita (suc n) in
    if m == 0
    then salto
    else if leb necesita (suma_sat suma m)
    then some (i ∷ [])
    else if suc n == 8
    then none
    else elim resto [ none ↦ none | some is ↦ some (i ∷ is) ]

unfoldable pub elegir_montos : List ℕ → ℕ → Option (List ℕ)
unfolding ordenar_montos juntar
elegir_montos montos necesita =
    if necesita == 0 then none else juntar (ordenar_montos montos 0) 0 necesita 0

-- `FEE_CUSHION`, 10^9 piconero.
abbrev pub fee_cushion : ℕ
fee_cushion = 1_000_000_000

pub data Corte : Type 0 where
  codigo_trabadas codigo_sin_saldo : Corte

unfoldable pub suma_total : List ℕ → ℕ → ℕ
suma_total [] acc = acc
suma_total (n ∷ ns) acc = suma_total ns (suma_sat acc n)

unfoldable pub corte_envio : (libres todos : List ℕ) → (monto : ℕ) → (al_dia : Bool) → Option Corte
unfolding suma_total elegir_montos
corte_envio libres todos monto al_dia =
    let need = suma_sat monto fee_cushion in
    if not al_dia
    then none
    else if is_some (elegir_montos libres need)
    then none
    else if leb need (suma_total todos 0)
    then some Corte.codigo_trabadas
    else some Corte.codigo_sin_saldo
