-- ===== src/Motor/Libros.antt =====
-- caja.rs of the motor: the book of the personal wallet, which outputs it has seen and which of them it
-- has spent.
pub mod Sano
use home_builder_pay.Base.{
  ℕ, ◌-◌, Bool, true, false, ◌&&◌, ◌||◌, not, Option, none, some, List, [], ◌∷◌, ◌++◌, map,
  if◌then◌else◌, ltb, leb, ◌==◌, any, filter, get_elem?, is_empty, Text, text_eq,
}
use home_builder_pay.Motor.{suma_sat, desbloqueo, minimo}
use home_builder_pay.Motor.Salidas.{
  Entradas, indice_salida_libre, suelta, EstadoMonedas, estado_monedas, Corte, corte_envio,
  suma_total,
}
use home_builder_pay.Motor.Rastreo.{Entrada, misma}

-- `(tx, indice)` of an output.
abbrev pub Salida : Type 0
Salida = Text × ℕ

pub record Libro : Type 0 where
  pub direccion : Text
  pub desde : ℕ
  pub hasta : ℕ
  pub listo : Bool
  pub entradas : List Entrada
  pub gastadas : List Salida

-- `Libro::nueva`
abbrev pub libro_nuevo : Text → Libro
libro_nuevo direccion = record {
  direccion = direccion;
  desde = 0;
  hasta = 0;
  listo = false;
  entradas = [];
  gastadas = [];
}

unfoldable pub desde_altura : Text → ℕ → Libro
desde_altura direccion altura = record (libro_nuevo direccion) {
  desde = altura;
  hasta = altura - 1;
  listo = true;
}

abbrev pub es_salida : Text → ℕ → Salida → Bool
es_salida tx indice s = text_eq s.0 tx && s.1 == indice

-- `ya_gastada`
abbrev pub gastada_en : List Salida → Text → ℕ → Bool
gastada_en gs tx indice = any (es_salida tx indice) gs

unfoldable pub ya_gastada : Libro → Text → ℕ → Bool
ya_gastada l tx indice = gastada_en l.gastadas tx indice

abbrev pub con_gastada : List Salida → Salida → List Salida
con_gastada gs u = if gastada_en gs u.0 u.1 then gs else gs ++ u ∷ []

-- The loop of `marcar_gastadas`.
unfoldable pub sumar_gastadas : List Salida → List Salida → List Salida
sumar_gastadas gs [] = gs
sumar_gastadas gs (u ∷ us) = sumar_gastadas (con_gastada gs u) us

unfoldable pub marcar_gastadas : List Salida → Libro → Libro
unfolding sumar_gastadas
marcar_gastadas usadas l = record l {
  gastadas = sumar_gastadas l.gastadas usadas;
  entradas = filter (λ e. not (gastada_en usadas e.tx e.indice)) l.entradas;
}

abbrev pub con_entrada : List Salida → List Entrada → Entrada → List Entrada
con_entrada gs es n =
    if n.monto == 0
    then es
    else if gastada_en gs n.tx n.indice
    then es
    else if any (misma n) es
    then es
    else es ++ n ∷ []

-- The loop of `fundir_entradas`.
unfoldable pub sumar_entradas : List Salida → List Entrada → List Entrada → List Entrada
sumar_entradas gs es [] = es
sumar_entradas gs es (n ∷ ns) = sumar_entradas gs (con_entrada gs es n) ns

unfoldable pub fundir_entradas : List Entrada → Libro → Libro
unfolding sumar_entradas
fundir_entradas ns l = record l { entradas = sumar_entradas l.gastadas l.entradas ns }

-- `Listo::Saldo`: the part of it that changes the book and `retro`.
unfoldable pub recibir_saldo :
    (desde hasta : ℕ) (retro : Bool) → List Entrada → List Salida → (atras : ℕ) → Libro → Libro × ℕ
unfolding fundir_entradas marcar_gastadas
recibir_saldo desde hasta retro entradas podar atras l =
    let hubo_scan = not (is_empty entradas) || not (desde == hasta) || retro in
    let f = fundir_entradas entradas l in
    let m = if is_empty podar then f else marcar_gastadas podar f in
    if retro
    then (record m { desde = desde }, atras - suma_sat (hasta - desde) 1)
    else if hubo_scan
    then (record m { hasta = hasta }, atras)
    else (m, atras)

abbrev pub montos_alturas : List Entrada → Entradas
montos_alturas es = map (λ e. (e.monto, e.altura)) es

-- `Motor::estado_de`
unfoldable pub estado_de : Libro → (tip : Option ℕ) → (retro minimo : ℕ) → EstadoMonedas
estado_de l tip retro minimo =
    estado_monedas (montos_alturas l.entradas) tip l.listo l.desde l.hasta retro minimo

abbrev salida_de : Option Entrada → Option (List ℕ × Salida)
salida_de none = none
salida_de (some e) = some (e.raw, (e.tx, e.indice))

abbrev salida_indice : List Entrada → Option ℕ → Option (List ℕ × Salida)
salida_indice es none = none
salida_indice es (some i) = salida_de (get_elem? es i)

unfoldable pub salida_libre_id : Libro → (tip : Option ℕ) → (minimo : ℕ) → Option (List ℕ × Salida)
salida_libre_id l none minimo = none
salida_libre_id l (some tip) minimo =
    salida_indice l.entradas (indice_salida_libre (montos_alturas l.entradas) tip minimo)

unfoldable pub libre_total : Libro → (tip : Option ℕ) → Option ℕ
libre_total l none = none
libre_total l (some tip) =
    some (suma_total (map (λ e. e.monto) (filter (λ e. suelta tip e.altura) l.entradas)) 0)

-- `Motor::corte_envio`
unfoldable pub motor_corte_envio : Libro → (tip : Option ℕ) → (retro monto : ℕ) → Option Corte
motor_corte_envio l none retro monto = none
motor_corte_envio l (some tip) retro monto =
    if not (l.listo && leb tip l.hasta && retro == 0)
    then none
    else corte_envio (map (λ e. e.monto) (filter (λ e. suelta tip e.altura) l.entradas))
        (map (λ e. e.monto) l.entradas) monto true

-- What happens to the book: an answer of the scan, or outputs that a payment has spent.
pub data Suceso : Type 0 where
  saldo : (desde hasta : ℕ) (retro : Bool) (entradas : List Entrada) (podar : List Salida) → Suceso
  gasta : (usadas : List Salida) → Suceso

unfoldable pub suceso : Suceso → Libro × ℕ → Libro × ℕ
unfolding recibir_saldo marcar_gastadas
suceso (saldo desde hasta retro entradas podar) (l, atras) =
    recibir_saldo desde hasta retro entradas podar atras l
suceso (gasta usadas) (l, atras) = (marcar_gastadas usadas l, atras)

unfoldable pub sucesos : List Suceso → Libro × ℕ → Libro × ℕ
unfolding suceso
sucesos [] r = r
sucesos (s ∷ ss) r = sucesos ss (suceso s r)
