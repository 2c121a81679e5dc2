-- ===== src/Motor/Salidas/Envio.antt =====
-- `elegir_montos` of crates/xmr-joint/src/personal.rs and `corte_envio` of caja.rs of the motor: which
-- outputs pay an amount, and what is said where none do.
use home_builder_pay.Base.{
  ℕ, suc, zero, ◌+◌, ◌≤◌, ◌<◌, ◌≡◌, ap, subst, true, ◌&&◌, Option, none, some, List, [], ◌∷◌, map,
  arith, ltb, leb, All, filter, take, length, get_elem?, is_some, Option-cases, inl, inr,
}
use home_builder_pay.Motor.{suma_sat, usize_max}
use home_builder_pay.Motor.Salidas.{
  Entradas, juntar, ordenar_montos, insertar_monto, elegir_montos, Corte, corte_envio, suma_total,
  fee_cushion,
}

abbrev pub total : List ℕ → ℕ
total [] = 0
total (m ∷ ms) = m + total ms

-- The smallest amounts above 0, eight at most.
abbrev pub ocho_menores : List ℕ → List ℕ
ocho_menores montos = take 8 (filter (ltb 0) (map (λ e. e.0) (ordenar_montos montos 0)))

-- `n` are chosen, and `k` may follow.
is_some-juntar :
    (ms : Entradas) (suma necesita n k : ℕ)
    → n + suc k ≡ 8
    → suma < necesita
    → necesita ≤ usize_max
    → is_some (juntar ms suma necesita n)
      ≡ leb necesita (suma + total (take (suc k) (filter (ltb 0) (map (λ e. e.0) ms))))
unfolding juntar suma_sat
is_some-juntar [] suma necesita n k hn hs hm = ground arith
is_some-juntar ((m, i) ∷ ms) suma necesita n zero hn hs hm =
    ground (arith, is_some-juntar ms suma necesita n zero)
is_some-juntar ((m, i) ∷ ms) suma necesita n (suc k) hn hs hm = ground (
  arith,
  is_some-juntar ms suma necesita n (suc k),
  is_some-juntar ms (suma + m) necesita (suc n) k,
)

-- Outputs are found for an amount of at most 2^64 - 1 exactly where it is not 0 and the eight smallest
-- amounts above 0 reach it. A larger output beyond those is not looked at.
pub is_some-elegir_montos :
    (montos : List ℕ) (necesita : ℕ)
    → necesita ≤ usize_max
    → is_some (elegir_montos montos necesita)
      ≡ (ltb 0 necesita && leb necesita (total (ocho_menores montos)))
unfolding elegir_montos
is_some-elegir_montos montos necesita h =
    ground (arith, is_some-juntar (ordenar_montos montos 0) 0 necesita 0 7)

-- What the outputs with these indices are worth.
abbrev o_cero : Option ℕ → ℕ
o_cero none = 0
o_cero (some m) = m

abbrev pub valor : List ℕ → List ℕ → ℕ
valor montos [] = 0
valor montos (i ∷ is) = o_cero (get_elem? montos i) + valor montos is

abbrev En : List ℕ → ℕ × ℕ → Type 0
En montos e = get_elem? montos e.1 ≡ some e.0

En-insertar_monto :
    (montos : List ℕ) (a : ℕ × ℕ) (es : Entradas)
    → En montos a
    → All (En montos) es
    → All (En montos) (insertar_monto a es)
unfolding insertar_monto
En-insertar_monto montos a [] h k = (h, tt)
En-insertar_monto montos a (b ∷ bs) h k = ground (arith, En-insertar_monto montos a bs)

En-ordenar_montos :
    (montos ms : List ℕ) (i : ℕ)
    → ((j : ℕ) → get_elem? montos (i + j) ≡ get_elem? ms j)
    → All (En montos) (ordenar_montos ms i)
unfolding ordenar_montos
En-ordenar_montos montos [] i h = tt
En-ordenar_montos montos (m ∷ ms) i h =
    En-insertar_monto montos (m, i) (ordenar_montos ms (suc i)) (ground (arith, h 0))
      (En-ordenar_montos montos ms (suc i)
        (λ j. subst (λ n. get_elem? montos n ≡ get_elem? ms j) (omega arith) (h (suc j))))

valor-juntar :
    (montos : List ℕ) (ms : Entradas) (suma necesita n k : ℕ) (is : List ℕ)
    → All (En montos) ms
    → n + suc k ≡ 8
    → juntar ms suma necesita n ≡ some is
    → (necesita ≤ suma + valor montos is) × (length is ≤ suc k)
unfolding juntar suma_sat
valor-juntar montos [] suma necesita n k is a hn h = absurd (ground arith)
valor-juntar montos ((m, i) ∷ ms) suma necesita n zero is a hn h =
    ground (arith, a.0, valor-juntar montos ms suma necesita n zero is a.1)
valor-juntar montos ((m, i) ∷ ms) suma necesita n (suc k) is a hn h =
    elim (Option-cases (juntar ms (suma_sat suma m) necesita (suc n))) [
      | inl e ↦ ground (arith, e, a.0, valor-juntar montos ms suma necesita n (suc k) is a.1)
      | inr (js, e) ↦ ground (
        arith,
        e,
        a.0,
        valor-juntar montos ms suma necesita n (suc k) is a.1,
        valor-juntar montos ms (suma_sat suma m) necesita (suc n) k js a.1,
      )
    ]

-- What is chosen is worth what is needed, and is at most eight outputs.
pub valor-elegir_montos :
    (montos : List ℕ) (necesita : ℕ) (is : List ℕ)
    → elegir_montos montos necesita ≡ some is
    → (necesita ≤ valor montos is) × (length is ≤ 8)
unfolding elegir_montos
valor-elegir_montos montos necesita is h = ground (
  arith,
  valor-juntar montos (ordenar_montos montos 0) 0 necesita 0 7 is
      (En-ordenar_montos montos montos 0 (λ j. ap (get_elem? montos) (omega arith))),
)

-- A wallet that is up to date and whose outputs can all be spent is told that its coins are locked
-- (`codigo:trabadas`), where the eight smallest do not reach the amount with its fee and all of them do.
pub corte_envio_sin_candado :
    (todos : List ℕ) (monto : ℕ)
    → suma_sat monto fee_cushion ≤ usize_max
    → total (ocho_menores todos) < suma_sat monto fee_cushion
    → suma_sat monto fee_cushion ≤ suma_total todos 0
    → corte_envio todos todos monto true ≡ some Corte.codigo_trabadas
unfolding corte_envio
corte_envio_sin_candado todos monto hm h k =
    ground (arith, is_some-elegir_montos todos (suma_sat monto fee_cushion))
