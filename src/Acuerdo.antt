-- ===== src/Acuerdo.antt =====
-- crates/konstruado-core/src/acuerdo.rs, the data: people, offers, installments (`Partida`) and
-- jobs (`Obra`). The operations and their laws are the modules below this one.
pub mod Paso
pub mod Operaciones
pub mod Partes
pub mod Pedido
pub mod Atomic
pub mod Efecto
pub mod Invariante
pub mod Ofertas
pub mod Encierre
pub mod Pago
use home_builder_pay.Base.{
  ℕ, zero, suc, ◌+◌, ◌-◌, ◌^◌, Bool, true, false, ◌&&◌, Option, none, some, List, [], ◌∷◌, map, ltb,
  leb, ◌==◌, if◌then◌else◌, ℤ, pos, eqb_ℤ, Text, text_eq, is_some, is_none,
}
use home_builder_pay.Precio.{Moneda, PrecioFijado}
use home_builder_pay.Montos.{limpia_detalle}

pub record Persona : Type 0 where
  pub id : Text
  pub nombre : Text
  pub visto : ℤ
  pub clave_pub : Text
  pub direccion : Text

pub data Rol : Type 0 where
  mandante contratista : Rol

pub data EstadoObra : Type 0 where
  publicada contra rechazada acordada en_marcha abandonada cerrada : EstadoObra

pub data PartidaEstado : Type 0 where
  pendiente encerrando encerrada en_trato pagada : PartidaEstado

pub record NotaPartida : Type 0 where
  pub autor_id : Text
  pub autor_nombre : Text
  pub porcentaje : ℕ  -- u32
  pub texto : Text
  pub cuando : ℤ
  pub caja : Text

pub record ReciboPartida : Type 0 where
  pub titulo : Text
  pub porcentaje : ℕ  -- u32
  pub monto : ℕ  -- u64
  pub acepto_nombre : Text
  pub cuando : ℤ

pub record Partida : Type 0 where
  pub detalle : Text
  pub estado : PartidaEstado
  pub propuesto : Option ℕ
  pub pago : Option ℕ
  pub turno : Option Rol
  pub notas : List NotaPartida
  pub encerrado_por : Option Persona
  pub encerrado_cuando : ℤ
  pub recibo : Option ReciboPartida
  pub monto : ℕ  -- u64
  pub encerrar_seq : ℕ  -- u32
  pub fondeo_txid : Option Text
  pub pago_txid : Option Text
  pub precio : Option PrecioFijado

pub record Oferta : Type 0 where
  pub id : Text
  pub nombre : Text
  pub trabajo : ℕ  -- u64
  pub garantia_sugerida : ℕ  -- u64
  pub n_partidas_sugeridas : ℕ  -- u32
  pub mandante : Persona
  pub detalles : List Text
  pub actualizado : ℤ
  pub retiro_hash : Text
  pub moneda : Moneda

pub record Aceptacion : Type 0 where
  pub oferta_id : Text
  pub contratista : Persona
  pub garantia : ℕ  -- u64
  pub n_partidas : ℕ  -- u32
  pub detalles : List Text

pub record ExtraPartida : Type 0 where
  pub detalle : Text
  pub monto : ℕ  -- u64
  pub por : Persona
  pub detalle_caja : Text

pub record Obra : Type 0 where
  pub id : Text
  pub nombre : Text
  pub trabajo : ℕ  -- u64
  pub garantia : ℕ  -- u64
  pub garantia_publicada : ℕ  -- u64
  pub n_partidas : ℕ  -- u32
  pub mandante : Persona
  pub contratista : Persona
  pub estado : EstadoObra
  pub partidas : List Partida
  pub contra : Option Aceptacion
  pub extra : Option ExtraPartida
  pub extra_seq : ℕ  -- u32
  pub actualizado : ℤ
  pub cierre : Option Persona
  pub cierre_seq : ℕ  -- u32
  pub moneda : Moneda

-- `PartidaEstado::rango`
abbrev pub rango_partida : PartidaEstado → ℕ
rango_partida pendiente = 0
rango_partida encerrando = 1
rango_partida encerrada = 2
rango_partida en_trato = 3
rango_partida pagada = 4

-- `EstadoObra::rango`
abbrev pub rango_obra : EstadoObra → ℕ
rango_obra publicada = 0
rango_obra contra = 1
rango_obra rechazada = 2
rango_obra acordada = 3
rango_obra en_marcha = 4
rango_obra abandonada = 5
rango_obra cerrada = 6

-- The derived `==` of the enumerations.
abbrev pub partida_en_estado : Partida → PartidaEstado → Bool
partida_en_estado p e = rango_partida p.estado == rango_partida e

abbrev pub obra_en_estado : Obra → EstadoObra → Bool
obra_en_estado o e = rango_obra o.estado == rango_obra e

abbrev pub rol_num : Rol → ℕ
rol_num mandante = 0
rol_num contratista = 1

-- `p.turno == Some(rol)`, `p.propuesto == Some(pct)`
abbrev pub es_turno : Option Rol → Rol → Bool
es_turno none r = false
es_turno (some t) r = rol_num t == rol_num r

abbrev pub es_propuesto : Option ℕ → ℕ → Bool
es_propuesto none n = false
es_propuesto (some m) n = m == n

abbrev pub otro_rol : Rol → Rol
otro_rol mandante = contratista
otro_rol contratista = mandante

-- The derived `==` of people and of optional people.
unfoldable pub persona_eq : Persona → Persona → Bool
persona_eq a b =
    text_eq a.id b.id
    && text_eq a.nombre b.nombre
    && eqb_ℤ a.visto b.visto
    && text_eq a.clave_pub b.clave_pub
    && text_eq a.direccion b.direccion

abbrev pub misma_persona : Option Persona → Option Persona → Bool
misma_persona none none = true
misma_persona (some a) (some b) = persona_eq a b
misma_persona _ _ = false

abbrev pub u32_max : ℕ
u32_max = 2 ^ 32 - 1

-- `saturating_add(1)` of a `u32`.
abbrev pub sat_suc : ℕ → ℕ
sat_suc n = if ltb n u32_max then n + 1 else u32_max

-- `Partida::pendiente`
unfoldable pub partida_pendiente : Text → Partida
partida_pendiente detalle = record {
  detalle = limpia_detalle detalle;
  estado = pendiente;
  propuesto = none;
  pago = none;
  turno = none;
  notas = [];
  encerrado_por = none;
  encerrado_cuando = pos 0;
  recibo = none;
  monto = 0;
  encerrar_seq = 0;
  fondeo_txid = none;
  pago_txid = none;
  precio = none;
}

-- `Partida::pendiente_monto`
unfoldable pub pendiente_monto : Text → ℕ → Partida
unfolding partida_pendiente
pendiente_monto detalle monto = record (partida_pendiente detalle) { monto = monto }

unfoldable pub capital : Partida → ℕ → ℕ
capital p garantia_obra = if ltb 0 p.monto then p.monto else garantia_obra

-- `Obra::hay_riesgo`
abbrev pub en_riesgo : Partida → Bool
en_riesgo p = leb 1 (rango_partida p.estado)
