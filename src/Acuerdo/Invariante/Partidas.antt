-- ===== src/Acuerdo/Invariante/Partidas.antt =====
-- acuerdo.rs: the calls on one installment keep a job valid.
use home_builder_pay.Base.{
  ℕ, inl, inr, if◌then◌else◌, Result-cases, Option, none, sym, subst, ℤ, arith, Option-cases,
  Bool-cases, get_elem?, Text, all,
}
use home_builder_pay.Precio.{PrecioFijado, es_usd}
use home_builder_pay.Montos.{limpia_nota, limpia_detalle}
use home_builder_pay.Acuerdo.{Obra, Persona, EstadoObra, otro_rol, capital}
use home_builder_pay.Acuerdo.Operaciones.{
  rol_en, cerrar_si_pagada, precio_sirve, es_pagada, confirmada, propuesta, cancelada, avisada,
  contraofertada, cobrada, con_detalle, nueva_nota, recibo_de,
}
use home_builder_pay.Acuerdo.Operaciones
use home_builder_pay.Acuerdo.Atomic.{
  encerrar_confirmar-Intacta, encerrar_proponer_con-Intacta, encerrar_cancelar-Intacta,
  avisar_termino-Intacta, contra_pago-Intacta, aceptar_pago-Intacta, editar_detalle-Intacta,
}
use home_builder_pay.Acuerdo.Efecto.{
  con_partida, encerrar_confirmar-ok, encerrar_cancelar-ok, encerrar_proponer_con-ok,
  avisar_termino-ok, contra_pago-ok, aceptar_pago-ok, editar_detalle-ok,
}
use home_builder_pay.Acuerdo.Invariante.{
  ObraValida, escrita-ObraValida, valida_tras, confirmada-valida, propuesta-valida,
  cancelada-valida, avisada-valida, contraofertada-valida, cobrada-valida, con_detalle-valida,
}

pub encerrar_confirmar-ObraValida :
    (i : ℕ) (q : Persona) (now : ℤ) (o : Obra)
    → ObraValida o
    → ObraValida (Operaciones.encerrar_confirmar i q now o).1
encerrar_confirmar-ObraValida i q now o v =
    valida_tras o _ v (encerrar_confirmar-Intacta i q now o) λ h.
      elim (Option-cases (get_elem? o.partidas i)) [
        | inl e ↦ absurd (unfold Operaciones.encerrar_confirmar in ground arith)
        | inr (p, e) ↦
            let f = encerrar_confirmar-ok i q now o e h in
            subst ObraValida (sym f.1) (
              escrita-ObraValida o v i e (confirmada now p) now o.estado
                (confirmada-valida o v i e now f.0) (ground arith) (λ c. c))
      ]

pub encerrar_cancelar-ObraValida :
    (i : ℕ) (q : Persona) (now : ℤ) (o : Obra)
    → ObraValida o
    → ObraValida (Operaciones.encerrar_cancelar i q now o).1
encerrar_cancelar-ObraValida i q now o v =
    valida_tras o _ v (encerrar_cancelar-Intacta i q now o) λ h.
      elim (Option-cases (get_elem? o.partidas i)) [
        | inl e ↦ absurd (unfold Operaciones.encerrar_cancelar in ground arith)
        | inr (p, e) ↦
            let f = encerrar_cancelar-ok i q now o e h in
            subst ObraValida (sym f.1) (
              escrita-ObraValida o v i e (cancelada p) now o.estado (cancelada-valida o v i e)
                (ground arith) (λ c. c))
      ]

pub encerrar_proponer_con-ObraValida :
    (i : ℕ) (q : Persona) (pr : Option PrecioFijado) (now : ℤ) (o : Obra)
    → ObraValida o
    → ObraValida (Operaciones.encerrar_proponer_con i q pr now o).1
encerrar_proponer_con-ObraValida i q pr now o v =
    valida_tras o _ v (encerrar_proponer_con-Intacta i q pr now o) λ h.
      elim (Option-cases (get_elem? o.partidas i)) [
        | inl e ↦ absurd (unfold Operaciones.encerrar_proponer_con in ground arith)
        | inr (p, e) ↦
            let f = encerrar_proponer_con-ok i q now o e pr h in
            subst ObraValida (sym f.2) (
              escrita-ObraValida o v i e (propuesta q (if es_usd o.moneda then pr else none) p) now
                EstadoObra.en_marcha (propuesta-valida o v i e q pr f.1) (ground arith) (λ c. cc))
      ]

pub editar_detalle-ObraValida :
    (i : ℕ) (q : Persona) (t : Text) (now : ℤ) (o : Obra)
    → ObraValida o
    → ObraValida (Operaciones.editar_detalle i q t now o).1
editar_detalle-ObraValida i q t now o v =
    valida_tras o _ v (editar_detalle-Intacta i q t now o) λ h.
      elim (Option-cases (get_elem? o.partidas i)) [
        | inl e ↦ absurd (unfold Operaciones.editar_detalle in ground arith)
        | inr (p, e) ↦
            let f = editar_detalle-ok i q now o e t h in
            subst ObraValida (sym f.1) (
              escrita-ObraValida o v i e (con_detalle (limpia_detalle t) p) now o.estado
                (con_detalle-valida o v i e (limpia_detalle t) f.0) (ground arith) (λ c. c))
      ]

pub avisar_termino-ObraValida :
    (i : ℕ) (q : Persona) (n : ℕ) (t : Text) (now : ℤ) (o : Obra)
    → ObraValida o
    → ObraValida (Operaciones.avisar_termino i q n t now o).1
avisar_termino-ObraValida i q n t now o v =
    valida_tras o _ v (avisar_termino-Intacta i q n t now o) λ h.
      elim (Option-cases (get_elem? o.partidas i)) [
        | inl e ↦ absurd (unfold Operaciones.avisar_termino in ground arith)
        | inr (p, e) ↦ elim (Result-cases (limpia_nota t)) [
          | inl (x, k) ↦
              let f = avisar_termino-ok i q now o e n t x k h in
              subst ObraValida (sym f.3) (
                escrita-ObraValida o v i e (avisada (nueva_nota q n x now) n p) now o.estado
                  (avisada-valida o v i e (nueva_nota q n x now) n f.2 f.1) (ground arith) (λ c. c))
          | inr (x, k) ↦ absurd (unfold Operaciones.avisar_termino in ground arith)
        ]
      ]

pub contra_pago-ObraValida :
    (i : ℕ) (q : Persona) (n : ℕ) (t : Text) (now : ℤ) (o : Obra)
    → ObraValida o
    → ObraValida (Operaciones.contra_pago i q n t now o).1
contra_pago-ObraValida i q n t now o v = valida_tras o _ v (contra_pago-Intacta i q n t now o) λ h.
    elim (Option-cases (get_elem? o.partidas i)) [
      | inl e ↦ absurd (unfold Operaciones.contra_pago in ground arith)
      | inr (p, e) ↦ elim (Result-cases (limpia_nota t)) [
        | inl (x, k) ↦ elim (Result-cases (rol_en o q.id)) [
          | inl (r, m) ↦
              let f = contra_pago-ok i q now o e n t x r k m h in
              subst ObraValida (sym f.4) (
                escrita-ObraValida o v i e (contraofertada (nueva_nota q n x now) n (otro_rol r) p)
                  now o.estado
                  (contraofertada-valida o v i e (nueva_nota q n x now) n (otro_rol r) f.1 f.0)
                  (ground arith) (λ c. c))
          | inr (r, m) ↦ absurd (unfold Operaciones.contra_pago in ground arith)
        ]
        | inr (x, k) ↦ absurd (unfold Operaciones.contra_pago in ground arith)
      ]
    ]

-- Closing a job whose installments are all paid.
cerrar_si_pagada-ObraValida :
    (o : Obra) (now : ℤ)
    → ObraValida o
    → ObraValida (record (cerrar_si_pagada o) { actualizado = now })
cerrar_si_pagada-ObraValida o now v = elim (Bool-cases (all es_pagada o.partidas)) [
  | inl e ↦ rw e (record {
    cuenta = v.cuenta;
    partidas_validas = v.partidas_validas;
    contra_valida = v.contra_valida;
    cerrada_pagada = λ _. e;
  })
  | inr e ↦ rw e (record {
    cuenta = v.cuenta;
    partidas_validas = v.partidas_validas;
    contra_valida = v.contra_valida;
    cerrada_pagada = v.cerrada_pagada;
  })
]

pub aceptar_pago-ObraValida :
    (i : ℕ) (q : Persona) (now : ℤ) (o : Obra)
    → ObraValida o
    → ObraValida (Operaciones.aceptar_pago i q now o).1
aceptar_pago-ObraValida i q now o v = valida_tras o _ v (aceptar_pago-Intacta i q now o) λ h.
    elim (Option-cases (get_elem? o.partidas i)) [
      | inl e ↦ absurd (unfold Operaciones.aceptar_pago in ground arith)
      | inr (p, e) ↦ elim (Option-cases p.propuesto) [
        | inr (n, k) ↦ elim (Result-cases (rol_en o q.id)) [
          | inl (r, m) ↦
              let f = aceptar_pago-ok i q now o e n r k m h in
              let recibo = recibo_de i p (capital p o.garantia) n q now in
              subst ObraValida (sym f.2) (
                cerrar_si_pagada-ObraValida (con_partida o i (cobrada recibo n p) now) now (
                  escrita-ObraValida o v i e (cobrada recibo n p) now o.estado
                    (cobrada-valida o v i e recibo n f.0 k) (ground arith) (λ c. c)))
          | inr (r, m) ↦ absurd (unfold Operaciones.aceptar_pago in ground arith)
        ]
        | inl k ↦ absurd (unfold Operaciones.aceptar_pago in ground arith)
      ]
    ]
