-- ===== src/Acuerdo/Efecto.antt =====
-- acuerdo.rs: what a call that succeeds has checked, and the job that it leaves.
use home_builder_pay.Base.{
  ℕ, ◌≡◌, inl, inr, true, false, ◌&&◌, ◌||◌, not, Option, none, some, ok, ℤ, arith, get_elem?, set,
  Text, text_eq_iff, Option-cases, Result-cases, if◌then◌else◌, leb,
}
use home_builder_pay.Precio.{PrecioFijado, es_usd}
use home_builder_pay.Montos.{porcentaje, limpia_nota, limpia_detalle}
use home_builder_pay.Acuerdo.{
  Obra, Persona, Partida, NotaPartida, PartidaEstado, EstadoObra, Rol, capital, otro_rol,
  es_propuesto,
}
use home_builder_pay.Acuerdo.Operaciones.{
  precio_sirve, es_pagada, confirmada, propuesta, cancelada, avisada, contraofertada, cobrada,
  con_detalle, nueva_nota, recibo_de, cerrar_si_pagada, rol_en,
}
use home_builder_pay.Acuerdo.Operaciones

-- The job with installment `i` replaced.
abbrev pub con_partida : Obra → ℕ → Partida → ℤ → Obra
con_partida o i q now = record o { partidas = set o.partidas i q; actualizado = now }

module _ (i : ℕ) (q : Persona) (now : ℤ) (o : Obra) {p : Partida}
    (en : get_elem? o.partidas i ≡ some p) where
  pub encerrar_confirmar-ok :
      (Operaciones.encerrar_confirmar i q now o).0 ≡ ok tt
      → (p.estado ≡ PartidaEstado.encerrando)
        × ((Operaciones.encerrar_confirmar i q now o).1 ≡ con_partida o i (confirmada now p) now)
  unfolding Operaciones.encerrar_confirmar
  encerrar_confirmar-ok h = ground arith

  pub encerrar_cancelar-ok :
      (Operaciones.encerrar_cancelar i q now o).0 ≡ ok tt
      → (p.estado ≡ PartidaEstado.encerrando)
        × ((Operaciones.encerrar_cancelar i q now o).1 ≡ con_partida o i (cancelada p) now)
  unfolding Operaciones.encerrar_cancelar
  encerrar_cancelar-ok h = ground arith

  pub encerrar_proponer_con-ok :
      (pr : Option PrecioFijado)
      → (Operaciones.encerrar_proponer_con i q pr now o).0 ≡ ok tt
      → (p.estado ≡ PartidaEstado.pendiente)
        × (not (es_usd o.moneda) || precio_sirve pr (capital p o.garantia) ≡ true)
        × ((Operaciones.encerrar_proponer_con i q pr now o).1
            ≡ record (con_partida o i (propuesta q (if es_usd o.moneda then pr else none) p) now) {
              estado = EstadoObra.en_marcha;
            })
  unfolding Operaciones.encerrar_proponer_con
  encerrar_proponer_con-ok pr h = ground arith

  pub avisar_termino-ok :
      (n : ℕ) (t x : Text)
      → limpia_nota t ≡ ok x
      → (Operaciones.avisar_termino i q n t now o).0 ≡ ok tt
      → (q.id ≡ o.contratista.id)
        × (leb 1 n && leb n 100 ≡ true)
        × (p.estado ≡ PartidaEstado.encerrada)
        × ((Operaciones.avisar_termino i q n t now o).1
            ≡ con_partida o i (avisada (nueva_nota q n x now) n p) now)
  unfolding Operaciones.avisar_termino porcentaje
  avisar_termino-ok n t x hx h = ground (arith, text_eq_iff q.id o.contratista.id)

  pub contra_pago-ok :
      (n : ℕ) (t x : Text) (r : Rol)
      → limpia_nota t ≡ ok x
      → rol_en o q.id ≡ ok r
      → (Operaciones.contra_pago i q n t now o).0 ≡ ok tt
      → (leb 1 n && leb n 100 ≡ true)
        × (p.estado ≡ PartidaEstado.en_trato)
        × (p.turno ≡ some r)
        × (es_propuesto p.propuesto n ≡ false)
        × ((Operaciones.contra_pago i q n t now o).1
            ≡ con_partida o i (contraofertada (nueva_nota q n x now) n (otro_rol r) p) now)
  unfolding Operaciones.contra_pago porcentaje
  contra_pago-ok n t x r hx hr h = ground arith

  pub aceptar_pago-ok :
      (n : ℕ) (r : Rol)
      → p.propuesto ≡ some n
      → rol_en o q.id ≡ ok r
      → (Operaciones.aceptar_pago i q now o).0 ≡ ok tt
      → (p.estado ≡ PartidaEstado.en_trato)
        × (p.turno ≡ some r)
        × ((Operaciones.aceptar_pago i q now o).1
            ≡ record (cerrar_si_pagada (
                con_partida o i (cobrada (recibo_de i p (capital p o.garantia) n q now) n p) now)) {
                  actualizado = now;
                })
  unfolding Operaciones.aceptar_pago
  aceptar_pago-ok n r hn hr h = ground arith

  pub editar_detalle-ok :
      (t : Text)
      → (Operaciones.editar_detalle i q t now o).0 ≡ ok tt
      → (p.estado ≡ PartidaEstado.pendiente)
        × ((Operaciones.editar_detalle i q t now o).1
            ≡ con_partida o i (con_detalle (limpia_detalle t) p) now)
  unfolding Operaciones.editar_detalle
  editar_detalle-ok t h = ground arith

-- The same with the values that the call has found.
module _ (i : ℕ) (q : Persona) (now : ℤ) (o : Obra) where
  pub encerrar_confirmar_en :
      (Operaciones.encerrar_confirmar i q now o).0 ≡ ok tt
      → (p : Partida) × (get_elem? o.partidas i ≡ some p)
        × ((Operaciones.encerrar_confirmar i q now o).1 ≡ con_partida o i (confirmada now p) now)
  encerrar_confirmar_en h = elim (Option-cases (get_elem? o.partidas i)) [
    | inl e ↦ absurd (unfold Operaciones.encerrar_confirmar in ground arith)
    | inr (p, e) ↦ (p, e, (encerrar_confirmar-ok i q now o e h).1)
  ]

  pub avisar_termino_en :
      (n : ℕ) (t : Text)
      → (Operaciones.avisar_termino i q n t now o).0 ≡ ok tt
      → (p : Partida) × (nota : NotaPartida) × (get_elem? o.partidas i ≡ some p)
        × (q.id ≡ o.contratista.id)
        × ((Operaciones.avisar_termino i q n t now o).1 ≡ con_partida o i (avisada nota n p) now)
  avisar_termino_en n t h = elim (Option-cases (get_elem? o.partidas i)) [
    | inl e ↦ absurd (unfold Operaciones.avisar_termino in ground arith)
    | inr (p, e) ↦ elim (Result-cases (limpia_nota t)) [
      | inl (x, k) ↦
          let f = avisar_termino-ok i q now o e n t x k h in (p, nueva_nota q n x now, e, f.0, f.3)
      | inr (x, k) ↦ absurd (unfold Operaciones.avisar_termino in ground arith)
    ]
  ]

  pub contra_pago_en :
      (n : ℕ) (t : Text)
      → (Operaciones.contra_pago i q n t now o).0 ≡ ok tt
      → (p : Partida) × (nota : NotaPartida) × (r : Rol) × (get_elem? o.partidas i ≡ some p)
        × (rol_en o q.id ≡ ok r)
        × (p.estado ≡ PartidaEstado.en_trato)
        × ((Operaciones.contra_pago i q n t now o).1
            ≡ con_partida o i (contraofertada nota n (otro_rol r) p) now)
  contra_pago_en n t h = elim (Option-cases (get_elem? o.partidas i)) [
    | inl e ↦ absurd (unfold Operaciones.contra_pago in ground arith)
    | inr (p, e) ↦ elim (Result-cases (limpia_nota t)) [
      | inl (x, k) ↦ elim (Result-cases (rol_en o q.id)) [
        | inl (r, m) ↦
            let f = contra_pago-ok i q now o e n t x r k m h in
            (p, nueva_nota q n x now, r, e, m, f.1, f.4)
        | inr (x', m) ↦ absurd (unfold Operaciones.contra_pago in ground arith)
      ]
      | inr (x, k) ↦ absurd (unfold Operaciones.contra_pago in ground arith)
    ]
  ]

  pub aceptar_pago_en :
      (Operaciones.aceptar_pago i q now o).0 ≡ ok tt
      → (p : Partida) × (n : ℕ) × (get_elem? o.partidas i ≡ some p)
        × (p.propuesto ≡ some n)
        × (p.estado ≡ PartidaEstado.en_trato)
        × ((Operaciones.aceptar_pago i q now o).1
            ≡ record (cerrar_si_pagada (
                con_partida o i (cobrada (recibo_de i p (capital p o.garantia) n q now) n p) now)) {
                  actualizado = now;
                })
  aceptar_pago_en h = elim (Option-cases (get_elem? o.partidas i)) [
    | inl e ↦ absurd (unfold Operaciones.aceptar_pago in ground arith)
    | inr (p, e) ↦ elim (Option-cases p.propuesto) [
      | inr (n, k) ↦ elim (Result-cases (rol_en o q.id)) [
        | inl (r, m) ↦ let f = aceptar_pago-ok i q now o e n r k m h in (p, n, e, k, f.0, f.2)
        | inr (x', m) ↦ absurd (unfold Operaciones.aceptar_pago in ground arith)
      ]
      | inl k ↦ absurd (unfold Operaciones.aceptar_pago in ground arith)
    ]
  ]
