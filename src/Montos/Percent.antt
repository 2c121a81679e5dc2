-- ===== src/Montos/Percent.antt =====
-- partida.rs `monto_pct` and `porcentaje`.
use home_builder_pay.Base.{ℕ, ◌+◌, ◌-◌, ◌*◌, ◌≤◌, ◌<◌, ◌≡◌, arith}
use home_builder_pay.Montos.{monto_pct, u64_mod}

-- If a hundredfold total fits in 64 bits and the percentage is at most 100, monto_pct pays no more than
-- the total, all of it at 100 percent, and what two percentages that add up to 100 pay is the total
-- or one less.
pub monto_pct_splits :
    (total pct : ℕ)
    → total * 100 < u64_mod
    → pct ≤ 100
    → (monto_pct total pct ≤ total)
      × (monto_pct total 100 ≡ total)
      × (monto_pct total pct + monto_pct total (100 - pct) ≤ total)
      × (total ≤ monto_pct total pct + monto_pct total (100 - pct) + 1)
unfolding monto_pct
monto_pct_splits total pct h p = grind arith
