-- ===== src/Acuerdo/Invariante/Historia.antt =====
-- acuerdo.rs: every history of calls keeps a job valid.
use home_builder_pay.Base.{ℤ, List, [], ◌∷◌}
use home_builder_pay.Acuerdo.{Obra}
use home_builder_pay.Acuerdo.Pedido.{Pedido, aplicar, correr}
use home_builder_pay.Acuerdo.Invariante.{ObraValida}
use home_builder_pay.Acuerdo.Invariante.Partidas.{
  encerrar_confirmar-ObraValida, encerrar_cancelar-ObraValida, encerrar_proponer_con-ObraValida,
  avisar_termino-ObraValida, contra_pago-ObraValida, aceptar_pago-ObraValida,
  editar_detalle-ObraValida,
}
use home_builder_pay.Acuerdo.Invariante.Obras.{
  confirmar_contra-ObraValida, rechazar_contra-ObraValida, proponer_extra-ObraValida,
  aceptar_extra-ObraValida, rechazar_extra-ObraValida, abandonar-ObraValida,
  aceptar_cierre-ObraValida, rechazar_cierre-ObraValida,
}

-- One call, failed or not, keeps a job valid.
pub aplicar-ObraValida :
    (p : Pedido) (now : ℤ) (o : Obra) → ObraValida o → ObraValida (aplicar p now o).1
unfolding aplicar
aplicar-ObraValida (Pedido.confirmar_contra m) now o v = confirmar_contra-ObraValida m now o v
aplicar-ObraValida (Pedido.rechazar_contra m) now o v = rechazar_contra-ObraValida m now o v
aplicar-ObraValida (Pedido.encerrar_proponer i q pr) now o v =
    encerrar_proponer_con-ObraValida i q pr now o v
aplicar-ObraValida (Pedido.encerrar_confirmar i q) now o v =
    encerrar_confirmar-ObraValida i q now o v
aplicar-ObraValida (Pedido.encerrar_cancelar i q) now o v = encerrar_cancelar-ObraValida i q now o v
aplicar-ObraValida (Pedido.avisar_termino i q n t) now o v =
    avisar_termino-ObraValida i q n t now o v
aplicar-ObraValida (Pedido.contra_pago i q n t) now o v = contra_pago-ObraValida i q n t now o v
aplicar-ObraValida (Pedido.aceptar_pago i q) now o v = aceptar_pago-ObraValida i q now o v
aplicar-ObraValida (Pedido.editar_detalle i q t) now o v = editar_detalle-ObraValida i q t now o v
aplicar-ObraValida (Pedido.proponer_extra q t m) now o v = proponer_extra-ObraValida q t m now o v
aplicar-ObraValida (Pedido.aceptar_extra q) now o v = aceptar_extra-ObraValida q now o v
aplicar-ObraValida (Pedido.rechazar_extra q) now o v = rechazar_extra-ObraValida q now o v
aplicar-ObraValida (Pedido.abandonar q) now o v = abandonar-ObraValida q now o v
aplicar-ObraValida (Pedido.aceptar_cierre q) now o v = aceptar_cierre-ObraValida q now o v
aplicar-ObraValida (Pedido.rechazar_cierre q) now o v = rechazar_cierre-ObraValida q now o v

-- Every history of calls, failed ones too, keeps a job valid: its number of installments is theirs modulo
-- 2^32, an installment whose lock is proposed has a proposer, one in deal has a turn and a percentage
-- from 1 to 100, a paid one has its percentage and its receipt, one in a job in dollars that is not
-- pending has a coherent price for its capital, an open counter-offer counts its installments, and a
-- closed job has only paid ones.
pub correr-ObraValida :
    (ps : List (ℤ × Pedido)) (o : Obra) → ObraValida o → ObraValida (correr ps o)
unfolding correr
correr-ObraValida [] o v = v
correr-ObraValida ((now, p) ∷ ps) o v =
    correr-ObraValida ps (aplicar p now o).1 (aplicar-ObraValida p now o v)
