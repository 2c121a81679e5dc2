-- ===== src/Acuerdo/Atomic.antt =====
-- acuerdo.rs: what a failed call leaves behind.
use home_builder_pay.Base.{
  ℕ, ◌≡◌, refl, sym, subst, ◌⊎◌, inl, inr, Option, none, Result, ok, err, Error, ℤ, arith, Text,
}
use home_builder_pay.Precio.{PrecioFijado}
use home_builder_pay.Acuerdo.{Obra, Persona}
use home_builder_pay.Acuerdo.Operaciones
use home_builder_pay.Acuerdo.Partes
use home_builder_pay.Acuerdo.Pedido.{Pedido, aplicar}

-- A result that, if it is an error, leaves the job `o`.
abbrev pub Intacta : Obra → Result (Unit {0}) × Obra → Type 0
Intacta o (ok _, o') = Unit {0}
Intacta o (err _, o') = o' ≡ o

-- What holds of the job, and of every job that a successful call leaves, holds of the job that the
-- call leaves.
pub tras {ℓ} :
    (P : Obra → Type ℓ) (o : Obra) (r : Result (Unit {0}) × Obra)
    → P o
    → Intacta o r
    → (r.0 ≡ ok tt → P r.1)
    → P r.1
tras P o (ok tt, o') v i h = h refl
tras P o (err x, o') v i h = subst P (sym i) v

pub confirmar_contra-Intacta :
    (m : Text) (now : ℤ) (o : Obra) → Intacta o (Operaciones.confirmar_contra m now o)
unfolding Operaciones.confirmar_contra
confirmar_contra-Intacta m now o = ground arith

pub rechazar_contra-Intacta :
    (m : Text) (now : ℤ) (o : Obra) → Intacta o (Operaciones.rechazar_contra m now o)
unfolding Operaciones.rechazar_contra
rechazar_contra-Intacta m now o = ground arith

pub encerrar_proponer_con-Intacta :
    (i : ℕ) (q : Persona) (pr : Option PrecioFijado) (now : ℤ) (o : Obra)
    → Intacta o (Operaciones.encerrar_proponer_con i q pr now o)
unfolding Operaciones.encerrar_proponer_con
encerrar_proponer_con-Intacta i q pr now o = ground arith

pub encerrar_confirmar-Intacta :
    (i : ℕ) (q : Persona) (now : ℤ) (o : Obra)
    → Intacta o (Operaciones.encerrar_confirmar i q now o)
unfolding Operaciones.encerrar_confirmar
encerrar_confirmar-Intacta i q now o = ground arith

pub encerrar_cancelar-Intacta :
    (i : ℕ) (q : Persona) (now : ℤ) (o : Obra) → Intacta o (Operaciones.encerrar_cancelar i q now o)
unfolding Operaciones.encerrar_cancelar
encerrar_cancelar-Intacta i q now o = ground arith

pub avisar_termino-Intacta :
    (i : ℕ) (q : Persona) (n : ℕ) (t : Text) (now : ℤ) (o : Obra)
    → Intacta o (Operaciones.avisar_termino i q n t now o)
unfolding Operaciones.avisar_termino
avisar_termino-Intacta i q n t now o = ground arith

pub contra_pago-Intacta :
    (i : ℕ) (q : Persona) (n : ℕ) (t : Text) (now : ℤ) (o : Obra)
    → Intacta o (Operaciones.contra_pago i q n t now o)
unfolding Operaciones.contra_pago
contra_pago-Intacta i q n t now o = ground arith

pub aceptar_pago-Intacta :
    (i : ℕ) (q : Persona) (now : ℤ) (o : Obra) → Intacta o (Operaciones.aceptar_pago i q now o)
unfolding Operaciones.aceptar_pago
aceptar_pago-Intacta i q now o = ground arith

pub editar_detalle-Intacta :
    (i : ℕ) (q : Persona) (t : Text) (now : ℤ) (o : Obra)
    → Intacta o (Operaciones.editar_detalle i q t now o)
unfolding Operaciones.editar_detalle
editar_detalle-Intacta i q t now o = ground arith

pub proponer_extra-Intacta :
    (q : Persona) (t : Text) (m : ℕ) (now : ℤ) (o : Obra)
    → Intacta o (Partes.proponer_extra q t m now o)
unfolding Partes.proponer_extra
proponer_extra-Intacta q t m now o = ground arith

pub rechazar_extra-Intacta :
    (q : Persona) (now : ℤ) (o : Obra) → Intacta o (Partes.rechazar_extra q now o)
unfolding Partes.rechazar_extra
rechazar_extra-Intacta q now o = ground arith

pub abandonar-Intacta : (q : Persona) (now : ℤ) (o : Obra) → Intacta o (Partes.abandonar q now o)
unfolding Partes.abandonar
abandonar-Intacta q now o = ground arith

pub aceptar_cierre-Intacta :
    (q : Persona) (now : ℤ) (o : Obra) → Intacta o (Partes.aceptar_cierre q now o)
unfolding Partes.aceptar_cierre
aceptar_cierre-Intacta q now o = ground arith

pub rechazar_cierre-Intacta :
    (q : Persona) (now : ℤ) (o : Obra) → Intacta o (Partes.rechazar_cierre q now o)
unfolding Partes.rechazar_cierre
rechazar_cierre-Intacta q now o = ground arith

Intacta-err :
    {o : Obra} {e : Error} (r : Result (Unit {0}) × Obra) → Intacta o r → r.0 ≡ err e → r.1 ≡ o
Intacta-err (ok _, o') i h = cc
Intacta-err (err _, o') i h = i

pub aceptar_extra_failed :
    (q : Persona) (now : ℤ) (o : Obra) {e : Error}
    → (Partes.aceptar_extra q now o).0 ≡ err e
    → ((Partes.aceptar_extra q now o).1 ≡ o)
      ⊎ ((e ≡ Error.monto) × ((Partes.aceptar_extra q now o).1 ≡ record o { extra = none }))
aceptar_extra_failed q now o h = unfold Partes.aceptar_extra in ground arith

-- Every call that fails leaves the job as it was, but for an `aceptar_extra` that fails with `monto`,
-- which may leave the job without its proposed extra installment.
pub aplicar_failed :
    (p : Pedido) (now : ℤ) (o : Obra) {e : Error}
    → (aplicar p now o).0 ≡ err e
    → ((aplicar p now o).1 ≡ o)
      ⊎ ((q : Persona) × (p ≡ Pedido.aceptar_extra q)
          × (e ≡ Error.monto)
          × ((aplicar p now o).1 ≡ record o { extra = none }))
unfolding aplicar
aplicar_failed (Pedido.confirmar_contra m) now o h =
    inl (Intacta-err _ (confirmar_contra-Intacta m now o) h)
aplicar_failed (Pedido.rechazar_contra m) now o h =
    inl (Intacta-err _ (rechazar_contra-Intacta m now o) h)
aplicar_failed (Pedido.encerrar_proponer i q pr) now o h =
    inl (Intacta-err _ (encerrar_proponer_con-Intacta i q pr now o) h)
aplicar_failed (Pedido.encerrar_confirmar i q) now o h =
    inl (Intacta-err _ (encerrar_confirmar-Intacta i q now o) h)
aplicar_failed (Pedido.encerrar_cancelar i q) now o h =
    inl (Intacta-err _ (encerrar_cancelar-Intacta i q now o) h)
aplicar_failed (Pedido.avisar_termino i q n t) now o h =
    inl (Intacta-err _ (avisar_termino-Intacta i q n t now o) h)
aplicar_failed (Pedido.contra_pago i q n t) now o h =
    inl (Intacta-err _ (contra_pago-Intacta i q n t now o) h)
aplicar_failed (Pedido.aceptar_pago i q) now o h =
    inl (Intacta-err _ (aceptar_pago-Intacta i q now o) h)
aplicar_failed (Pedido.editar_detalle i q t) now o h =
    inl (Intacta-err _ (editar_detalle-Intacta i q t now o) h)
aplicar_failed (Pedido.proponer_extra q t m) now o h =
    inl (Intacta-err _ (proponer_extra-Intacta q t m now o) h)
aplicar_failed (Pedido.aceptar_extra q) now o h = elim (aceptar_extra_failed q now o h) [
  | inl same ↦ inl same
  | inr lost ↦ inr (q, refl, lost.0, lost.1)
]
aplicar_failed (Pedido.rechazar_extra q) now o h =
    inl (Intacta-err _ (rechazar_extra-Intacta q now o) h)
aplicar_failed (Pedido.abandonar q) now o h = inl (Intacta-err _ (abandonar-Intacta q now o) h)
aplicar_failed (Pedido.aceptar_cierre q) now o h =
    inl (Intacta-err _ (aceptar_cierre-Intacta q now o) h)
aplicar_failed (Pedido.rechazar_cierre q) now o h =
    inl (Intacta-err _ (rechazar_cierre-Intacta q now o) h)
