-- ===== src/Precio/Rounding.antt =====
-- precio.rs `usd_a_piconero`, `nuevo` and `coherente`: the price that an installment is fixed at.
use native.Mathlib.Nat.{div-add-mod', mod-lt, div-eq_of_lt-le}
use home_builder_pay.Base.{
  ℕ, zero, suc, ◌+◌, ◌*◌, ◌/◌, ◌^◌, ◌≤◌, ◌<◌, ◌≡◌, some, ok, true, ◌↔◌, arith, Text, ℤ,
}
use home_builder_pay.Precio.{
  PrecioFijado, usd_a_piconero, cociente, nuevo, coherente, piconero_pct, piconero,
}
use home_builder_pay.Montos.Percent.{monto_pct_splits}

-- The quotient is the nearest whole number to usd * 10^12 / price, and a tie goes up.
cociente_nearest :
    (u c : ℕ)
    → 0 < c
    → (2 * (cociente u c * c) ≤ 2 * (u * piconero) + c)
      × (2 * (u * piconero) < 2 * (cociente u c * c) + c)
cociente_nearest u c h = (
  omega (arith, div-add-mod' (u * piconero + c / 2) c),
  omega (arith, div-add-mod' (u * piconero + c / 2) c, mod-lt (u * piconero + c / 2) h),
)

-- If an amount of dollars converts to p piconero, then p is positive, fits in 64 bits, and is the
-- nearest whole number to usd * 10^12 / price: twice the error is at most the price, a tie goes up.
pub usd_a_piconero_nearest :
    (u c p : ℕ)
    → usd_a_piconero u c ≡ some p
    → (0 < p)
      × (p < 2 ^ 64)
      × (2 * (p * c) ≤ 2 * (u * piconero) + c)
      × (2 * (u * piconero) < 2 * (p * c) + c)
unfolding usd_a_piconero
usd_a_piconero_nearest u zero p h = cc
usd_a_piconero_nearest u (suc c) p h = ground (arith, cociente_nearest u (suc c))

-- Conversely, a positive p below 2^64 that is the nearest whole number to usd * 10^12 / price, a tie
-- going up, is the result, for a positive amount and price.
pub usd_a_piconero_complete :
    (u c p : ℕ)
    → 0 < u
    → 0 < c
    → 0 < p
    → p < 2 ^ 64
    → 2 * (p * c) ≤ 2 * (u * piconero) + c
    → 2 * (u * piconero) < 2 * (p * c) + c
    → usd_a_piconero u c ≡ some p
unfolding usd_a_piconero
usd_a_piconero_complete u c p hu hc hp hb lo hi = rw quotient (ground arith)
  where
    quotient : cociente u c ≡ p
    quotient = div-eq_of_lt-le c (omega arith) (omega arith)

-- A price is coherent exactly when its piconero are what its amount and its rate convert to.
pub coherente_iff :
    (p : PrecioFijado)
    → (coherente p ≡ true) ↔ (usd_a_piconero p.usd_centavos p.centavos_por_xmr ≡ some p.piconero)
unfolding coherente
coherente_iff p = (λ h. ground arith, λ h. ground arith)

-- A price that `nuevo` fixes is coherent, and keeps the amount, the rate, the source and the time.
pub nuevo-coherente :
    (u c : ℕ) (fuente : Text) (cuando : ℤ) (p : PrecioFijado)
    → nuevo u c fuente cuando ≡ ok p
    → (coherente p ≡ true) × (p.usd_centavos ≡ u) × (p.centavos_por_xmr ≡ c)
unfolding nuevo coherente
nuevo-coherente u c fuente cuando p h = ground arith

-- A coherent price pays out, at any percentage up to 100, no more than its piconero, if their
-- hundredfold fits in 64 bits.
pub piconero_pct-le :
    (p : PrecioFijado) (pct : ℕ)
    → pct ≤ 100
    → p.piconero * 100 < 2 ^ 64
    → piconero_pct p pct ≤ p.piconero
unfolding piconero_pct
piconero_pct-le p pct h b = (monto_pct_splits p.piconero pct b h).0
