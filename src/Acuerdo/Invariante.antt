-- ===== src/Acuerdo/Invariante.antt =====
-- acuerdo.rs: what holds of every job between two calls.
pub mod Partidas
pub mod Obras
pub mod Historia
use home_builder_pay.Base.{
  ℕ, suc, zero, ◌+◌, ◌*◌, ◌%◌, ◌≤◌, ◌<◌, ◌≡◌, ◌≢◌, refl, ◌⊎◌, inl, inr, Bool, true, false, ◌&&◌,
  ◌||◌, not, if◌then◌else◌, Result-cases, Option, none, some, ok, err, Result, Error, sym, subst,
  List, [], ◌∷◌, ◌++◌, map, ℤ, arith, Option-cases, get_elem?, set, length, Text, text_eq, is_some,
  All, All-set, All-get_elem?, All-append, length-set, length-append, length-map, all, leb, ltb,
  pos,
}
use home_builder_pay.Precio.{Moneda, PrecioFijado, es_usd}
use home_builder_pay.Montos.{
  limpia_nota, limpia_detalle, porcentaje, u32_mod, n_partidas, ajusta_detalles,
}
use home_builder_pay.Montos.Division.{length-ajusta_detalles}
use home_builder_pay.Acuerdo.{
  Aceptacion, Obra, Persona, Partida, NotaPartida, ReciboPartida, PartidaEstado, EstadoObra, Rol,
  capital, en_riesgo, partida_pendiente, pendiente_monto,
}
use home_builder_pay.Acuerdo.Operaciones.{
  precio_sirve, es_pagada, confirmada, propuesta, cancelada, avisada, contraofertada, cobrada,
  con_detalle, nueva_nota, recibo_de,
}
use home_builder_pay.Acuerdo.Operaciones
use home_builder_pay.Acuerdo.Partes
use home_builder_pay.Acuerdo.Atomic.{
  tras, Intacta, encerrar_confirmar-Intacta, encerrar_proponer_con-Intacta,
  encerrar_cancelar-Intacta, avisar_termino-Intacta, contra_pago-Intacta, aceptar_pago-Intacta,
  editar_detalle-Intacta, confirmar_contra-Intacta, rechazar_contra-Intacta, proponer_extra-Intacta,
  rechazar_extra-Intacta, abandonar-Intacta, aceptar_cierre-Intacta, rechazar_cierre-Intacta,
}
use home_builder_pay.Acuerdo.Efecto.{
  con_partida, encerrar_confirmar-ok, encerrar_cancelar-ok, encerrar_proponer_con-ok,
  avisar_termino-ok, contra_pago-ok, aceptar_pago-ok, editar_detalle-ok,
}
use home_builder_pay.Acuerdo.Pedido.{Pedido, aplicar}

abbrev pub pct_valido : Option ℕ → Bool
pct_valido none = false
pct_valido (some n) = leb 1 n && leb n 100

-- An installment of a job whose currency is the dollar or not, and whose bond is `g`.
pub record PartidaValida (usd : Bool) (g : ℕ) (p : Partida) : Type 0 where
  pub con_proponente : p.estado ≡ PartidaEstado.encerrando → is_some p.encerrado_por ≡ true
  pub con_turno : p.estado ≡ PartidaEstado.en_trato → is_some p.turno ≡ true
  pub con_propuesta : p.estado ≡ PartidaEstado.en_trato → pct_valido p.propuesto ≡ true
  pub con_pago : p.estado ≡ PartidaEstado.pagada → pct_valido p.pago ≡ true
  pub con_recibo : p.estado ≡ PartidaEstado.pagada → is_some p.recibo ≡ true
  pub con_precio : usd ≡ true → en_riesgo p ≡ true → precio_sirve p.precio (capital p g) ≡ true

-- A counter-offer counts its installments.
abbrev pub ContraValida : Option Aceptacion → Type 0
ContraValida none = Unit {0}
ContraValida (some a) = a.n_partidas ≡ length a.detalles % u32_mod

pub record ObraValida (o : Obra) : Type 0 where
  pub cuenta : o.n_partidas ≡ length o.partidas % u32_mod
  pub partidas_validas : All (PartidaValida (es_usd o.moneda) o.garantia) o.partidas
  pub contra_valida : ContraValida o.contra
  pub cerrada_pagada : o.estado ≡ EstadoObra.cerrada → all es_pagada o.partidas ≡ true

pendiente-PartidaValida :
    (usd : Bool) (g : ℕ) (d : Text) → PartidaValida usd g (partida_pendiente d)
unfolding partida_pendiente
pendiente-PartidaValida usd g d = ground arith

pub pendientes-validas :
    (usd : Bool) (g : ℕ) (ds : List Text) → All (PartidaValida usd g) (map partida_pendiente ds)
pendientes-validas usd g [] = tt
pendientes-validas usd g (d ∷ ds) = (pendiente-PartidaValida usd g d, pendientes-validas usd g ds)

-- The state of an installment that a write replaces was not the final one, so the job was not
-- closed.
all_pagada-get_elem? :
    (ps : List Partida) (i : ℕ) {p : Partida}
    → get_elem? ps i ≡ some p
    → all es_pagada ps ≡ true
    → es_pagada p ≡ true
all_pagada-get_elem? [] i e h = cc
all_pagada-get_elem? (x ∷ ps) zero e h = ground arith
all_pagada-get_elem? (x ∷ ps) (suc i) e h = all_pagada-get_elem? ps i e (ground arith)

-- A write of a valid installment over an unpaid one.
module _ (o : Obra) (v : ObraValida o) (i : ℕ) {p : Partida}
    (e : get_elem? o.partidas i ≡ some p) where
  la_partida : PartidaValida (es_usd o.moneda) o.garantia p
  la_partida =
      All-get_elem? (PartidaValida (es_usd o.moneda) o.garantia) o.partidas i v.partidas_validas e

  no_cerrada : es_pagada p ≡ false → o.estado ≢ EstadoObra.cerrada
  no_cerrada h c = cc (all_pagada-get_elem? o.partidas i e (v.cerrada_pagada c))

  escrita-ObraValida :
      (q : Partida) (now : ℤ) (est : EstadoObra)
      → PartidaValida (es_usd o.moneda) o.garantia q
      → es_pagada p ≡ false
      → (est ≡ EstadoObra.cerrada → o.estado ≡ EstadoObra.cerrada)
      → ObraValida (record (con_partida o i q now) { estado = est })
  escrita-ObraValida q now est hq hp he = record {
    cuenta = rw (length-set o.partidas i q) v.cuenta;
    partidas_validas =
        All-set (PartidaValida (es_usd o.moneda) o.garantia) o.partidas i q v.partidas_validas hq;
    contra_valida = v.contra_valida;
    cerrada_pagada = λ c. absurd (no_cerrada hp (he c));
  }

  confirmada-valida :
      (now : ℤ)
      → p.estado ≡ PartidaEstado.encerrando
      → PartidaValida (es_usd o.moneda) o.garantia (confirmada now p)
  unfolding capital
  confirmada-valida now h = ground (arith, la_partida)

  propuesta-valida :
      (q : Persona) (pr : Option PrecioFijado)
      → not (es_usd o.moneda) || precio_sirve pr (capital p o.garantia) ≡ true
      → PartidaValida
          (es_usd o.moneda)
          o.garantia
          (propuesta q (if es_usd o.moneda then pr else none) p)
  unfolding capital
  propuesta-valida q pr h = ground (arith, la_partida)

  cancelada-valida : PartidaValida (es_usd o.moneda) o.garantia (cancelada p)
  cancelada-valida = ground arith

  avisada-valida :
      (nota : NotaPartida) (pct : ℕ)
      → p.estado ≡ PartidaEstado.encerrada
      → pct_valido (some pct) ≡ true
      → PartidaValida (es_usd o.moneda) o.garantia (avisada nota pct p)
  unfolding capital
  avisada-valida nota pct h k = ground (arith, la_partida)

  contraofertada-valida :
      (nota : NotaPartida) (pct : ℕ) (r : Rol)
      → p.estado ≡ PartidaEstado.en_trato
      → pct_valido (some pct) ≡ true
      → PartidaValida (es_usd o.moneda) o.garantia (contraofertada nota pct r p)
  unfolding capital
  contraofertada-valida nota pct r h k = ground (arith, la_partida)

  cobrada-valida :
      (recibo : ReciboPartida) (pct : ℕ)
      → p.estado ≡ PartidaEstado.en_trato
      → p.propuesto ≡ some pct
      → PartidaValida (es_usd o.moneda) o.garantia (cobrada recibo pct p)
  unfolding capital
  cobrada-valida recibo pct h k = ground (arith, la_partida)

  con_detalle-valida :
      (d : Text)
      → p.estado ≡ PartidaEstado.pendiente
      → PartidaValida (es_usd o.moneda) o.garantia (con_detalle d p)
  con_detalle-valida d h = ground arith

-- A call that fails keeps the job, and so its validity.
valida_tras :
    (o : Obra) (r : Result (Unit {0}) × Obra)
    → ObraValida o
    → Intacta o r
    → (r.0 ≡ ok tt → ObraValida r.1)
    → ObraValida r.1
valida_tras = tras ObraValida
