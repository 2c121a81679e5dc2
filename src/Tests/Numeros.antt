-- ===== src/Tests/Numeros.antt =====
-- Amounts: the theorems of Montos and Precio at concrete amounts.
use home_builder_pay.Base.{◌*◌, ◌+◌, ◌≡◌, ◌≤◌, ◌<◌, ◌^◌, refl, true, ok, arith}
use home_builder_pay.Montos.{n_partidas, u32_mod}
use home_builder_pay.Montos.Division.{n_partidas_wraps}
use home_builder_pay.Precio.{usd_a_piconero, leer_usd, fmt_usd, piconero}
use home_builder_pay.Precio.Rounding.{usd_a_piconero_nearest}
use home_builder_pay.Precio.Dollars.{leer_usd-fmt_usd}

n_partidas_wraps_example : n_partidas (3 * u32_mod * 2) 2 ≡ ok 0
n_partidas_wraps_example = n_partidas_wraps 3 2 (omega arith) (omega arith)

-- Three dollars at two cents over a dollar.
usd_a_piconero_nearest_example :
    (0 < 2941176470588)
    × (2941176470588 < 2 ^ 64)
    × (2 * (2941176470588 * 102) ≤ 2 * (300 * piconero) + 102)
    × (2 * (300 * piconero) < 2 * (2941176470588 * 102) + 102)
unfolding usd_a_piconero
usd_a_piconero_nearest_example = usd_a_piconero_nearest 300 102 2941176470588 refl

leer_usd-fmt_usd_example : leer_usd (fmt_usd 1234567890 true) ≡ ok 1234567890
leer_usd-fmt_usd_example = leer_usd-fmt_usd 1234567890 true (omega arith)
