-- ===== src/Motor.antt =====
-- crates/konstruado-motor/src/caja.rs, the wallet of a job: the decisions that it takes on what it knows.
-- The calls to the Monero node, the threads and the signatures are left out. A `usize` has 64 bits.
pub mod Lineas
pub mod Acciones
pub mod Salidas
pub mod Rastreo
pub mod Bytes
pub mod Avisos
pub mod Libros
pub mod Mapa
pub mod Sesiones
use home_builder_pay.Base.{ℕ, ◌+◌, ◌-◌, ◌*◌, ◌^◌, if◌then◌else◌, ltb}

unfoldable pub usize_max : ℕ
usize_max = 2 ^ 64 - 1

-- `saturating_add` of `usize` and of `u64`.
unfoldable pub suma_sat : ℕ → ℕ → ℕ
suma_sat a b = if ltb usize_max (a + b) then usize_max else a + b

-- How long an output has to wait before it is spent, in blocks.
abbrev pub desbloqueo : ℕ
desbloqueo = 10

abbrev pub lookback : ℕ
lookback = 40

abbrev pub max_historia : ℕ
max_historia = 20_000

abbrev pub paso_atras_caja : ℕ
paso_atras_caja = 200

abbrev pub paso_scan : ℕ
paso_scan = 8

abbrev pub minimo : ℕ → ℕ → ℕ
minimo a b = if ltb a b then a else b
