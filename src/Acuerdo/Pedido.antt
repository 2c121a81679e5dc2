-- ===== src/Acuerdo/Pedido.antt =====
-- acuerdo.rs: the calls of the methods of `Obra` that change a job, as one type. Whoever holds a job
-- (desktop, FFI) drives it through these calls.
use home_builder_pay.Base.{ℕ, Option, ℤ, Text, List, [], ◌∷◌}
use home_builder_pay.Precio.{PrecioFijado}
use home_builder_pay.Acuerdo.{Persona, Obra}
use home_builder_pay.Acuerdo.Paso.{Paso}
use home_builder_pay.Acuerdo.Operaciones
use home_builder_pay.Acuerdo.Partes

pub data Pedido : Type 0 where
  confirmar_contra rechazar_contra : Text → Pedido
  encerrar_proponer : ℕ → Persona → Option PrecioFijado → Pedido
  encerrar_confirmar encerrar_cancelar : ℕ → Persona → Pedido
  avisar_termino contra_pago : ℕ → Persona → ℕ → Text → Pedido
  aceptar_pago : ℕ → Persona → Pedido
  editar_detalle : ℕ → Persona → Text → Pedido
  proponer_extra : Persona → Text → ℕ → Pedido
  aceptar_extra rechazar_extra abandonar aceptar_cierre rechazar_cierre : Persona → Pedido

unfoldable pub aplicar : Pedido → ℤ → Paso (Unit {0})
aplicar (confirmar_contra m) now = Operaciones.confirmar_contra m now
aplicar (rechazar_contra m) now = Operaciones.rechazar_contra m now
aplicar (encerrar_proponer i q pr) now = Operaciones.encerrar_proponer_con i q pr now
aplicar (encerrar_confirmar i q) now = Operaciones.encerrar_confirmar i q now
aplicar (encerrar_cancelar i q) now = Operaciones.encerrar_cancelar i q now
aplicar (avisar_termino i q n t) now = Operaciones.avisar_termino i q n t now
aplicar (contra_pago i q n t) now = Operaciones.contra_pago i q n t now
aplicar (aceptar_pago i q) now = Operaciones.aceptar_pago i q now
aplicar (editar_detalle i q t) now = Operaciones.editar_detalle i q t now
aplicar (proponer_extra q t m) now = Partes.proponer_extra q t m now
aplicar (aceptar_extra q) now = Partes.aceptar_extra q now
aplicar (rechazar_extra q) now = Partes.rechazar_extra q now
aplicar (abandonar q) now = Partes.abandonar q now
aplicar (aceptar_cierre q) now = Partes.aceptar_cierre q now
aplicar (rechazar_cierre q) now = Partes.rechazar_cierre q now

-- A history of calls, each with the time at which it is made; a call that fails is skipped by the
-- caller, which keeps the job as the call left it.
unfoldable pub correr : List (ℤ × Pedido) → Obra → Obra
correr [] o = o
correr ((now, p) ∷ ps) o = correr ps (aplicar p now o).1
