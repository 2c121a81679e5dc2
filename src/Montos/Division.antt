-- ===== src/Montos/Division.antt =====
-- partida.rs `n_partidas` and `ajusta_detalles`: when a job divides, and what it divides into.
use native.Mathlib.Nat.{div-lt_iff_lt-mul, mul-mod_left, mul-div_cancel, div-add-mod'}
use home_builder_pay.Base.{
  ℕ, zero, suc, ◌*◌, ◌%◌, ◌<◌, ◌≡◌, List, [], ok, arith, Text, length, map, length-resize,
}
use home_builder_pay.Montos.{n_partidas, ajusta_detalles, limpia_detalle, u32_mod}

-- A job of n bonds divides into n installments, if n and the bond are positive and n is below 2^32.
pub n_partidas_exact :
    (n garantia : ℕ)
    → 0 < n
    → 0 < garantia
    → n < u32_mod
    → n_partidas (n * garantia) garantia ≡ ok n
unfolding n_partidas
n_partidas_exact n garantia hn hg hb = grind arith

-- If n_partidas succeeds on a job of less than 2^32 bonds, its installments of one bond each add up to
-- the job exactly, and there is at least one.
pub n_partidas_sound :
    (trabajo garantia n : ℕ)
    → trabajo < u32_mod * garantia
    → n_partidas trabajo garantia ≡ ok n
    → (n * garantia ≡ trabajo) × (0 < n)
unfolding n_partidas
n_partidas_sound trabajo zero n h e = absurd (omega arith)
n_partidas_sound trabajo (suc g) n h e = ground (
  arith,
  (div-lt_iff_lt-mul {k = suc g} {x = trabajo} {y = u32_mod} (omega arith)).1 h,
  div-add-mod' trabajo (suc g),
)

-- A job of k times 2^32 bonds, k and the bond positive, divides into no installments, and without an
-- error.
pub n_partidas_wraps :
    (k garantia : ℕ) → 0 < k → 0 < garantia → n_partidas (k * u32_mod * garantia) garantia ≡ ok 0
unfolding n_partidas
n_partidas_wraps k garantia hk hg =
    grind (arith, mul-mod_left (k * u32_mod) garantia, mul-div_cancel (k * u32_mod) hg)

pub length-ajusta_detalles : (n : ℕ) (ds : List Text) → length (ajusta_detalles n ds) ≡ n
unfolding ajusta_detalles
length-ajusta_detalles n ds = length-resize n [] (map limpia_detalle ds)

pub n_partidas-lt : (t g n : ℕ) → n_partidas t g ≡ ok n → n % u32_mod ≡ n
unfolding n_partidas
n_partidas-lt t g n h = ground arith
