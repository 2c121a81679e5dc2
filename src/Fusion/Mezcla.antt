-- ===== src/Fusion/Mezcla.antt =====
-- acuerdo.rs `Partida::fusionar`: the merge of two copies of an installment, in the code's steps.
use home_builder_pay.Base.{
  Bool, true, false, ◌&&◌, not, Option, none, some, ltb, leb, ◌==◌, if◌then◌else◌, text_lt, is_some,
  is_none, is_empty, length,
}
use home_builder_pay.Acuerdo.{
  Persona, PartidaEstado, Partida, rango_partida, partida_en_estado, misma_persona,
}
use home_builder_pay.Acuerdo.Operaciones.{es_pagada}
use home_builder_pay.Fusion.Notas.{restaurar_notas, elevar_cajas}

-- `llenar_txid`, and every `if self.x.is_none() { self.x = otra.x }`.
abbrev pub llenar {ℓ} : {A : Type ℓ} → Option A → Option A → Option A
llenar none b = b
llenar (some a) b = some a

-- Of two proposals at once the one with the smaller id wins.
abbrev pub gana_otra : Option Persona → Option Persona → Bool
gana_otra (some a) (some b) = text_lt b.id a.id
gana_otra none (some b) = true
gana_otra _ none = false

unfoldable pub desempatar : Partida → Partida → Partida
desempatar p o =
    if gana_otra p.encerrado_por o.encerrado_por
    then record p {
      encerrado_por = o.encerrado_por;
      encerrado_cuando = o.encerrado_cuando;
      precio = o.precio;
    }
    else if is_none p.precio && misma_persona o.encerrado_por p.encerrado_por
    then record p { precio = o.precio }
    else p

-- The first step: the text, and the lock with the later number.
unfoldable pub fusionar_encierre : Partida → Partida → Partida
unfolding desempatar
fusionar_encierre p o =
    if ltb p.encerrar_seq o.encerrar_seq && ltb (rango_partida p.estado) 3
    then record p {
      estado = o.estado;
      encerrado_por = o.encerrado_por;
      encerrado_cuando = o.encerrado_cuando;
      encerrar_seq = o.encerrar_seq;
      precio =
          if partida_en_estado o PartidaEstado.pendiente
          then none
          else if is_some o.precio
          then o.precio
          else p.precio;
    }
    else if ltb p.encerrar_seq o.encerrar_seq
    then record p { encerrar_seq = o.encerrar_seq }
    else if o.encerrar_seq == p.encerrar_seq
        && partida_en_estado p PartidaEstado.encerrando
        && partida_en_estado o PartidaEstado.encerrando
    then desempatar p o
    else p

abbrev pub fusionar_texto : Partida → Partida → Partida
fusionar_texto p o = record p {
  detalle = if is_empty p.detalle && not (is_empty o.detalle) then o.detalle else p.detalle;
}

-- The other copy is further on: `p` takes its state.
unfoldable pub adelantar : Partida → Partida → Partida
adelantar p o = record p {
  estado = o.estado;
  propuesto = o.propuesto;
  pago = o.pago;
  turno = o.turno;
  notas =
      elevar_cajas
        (if leb (length p.notas) (length o.notas) then restaurar_notas o.notas p.notas else p.notas)
        o.notas;
  encerrado_por = llenar o.encerrado_por p.encerrado_por;
  encerrado_cuando = if is_some o.encerrado_por then o.encerrado_cuando else p.encerrado_cuando;
  recibo = llenar o.recibo p.recibo;
  precio = llenar p.precio o.precio;
  fondeo_txid = llenar p.fondeo_txid o.fondeo_txid;
  pago_txid = llenar p.pago_txid o.pago_txid;
}

-- The two copies are in one state: `p` takes what it lacks.
unfoldable pub igualar : Partida → Partida → Partida
igualar p o =
    let mas = ltb (length p.notas) (length o.notas) in
    record p {
      notas = if mas then restaurar_notas o.notas p.notas else p.notas;
      propuesto = if mas then o.propuesto else p.propuesto;
      turno = if mas then o.turno else p.turno;
      pago = llenar p.pago o.pago;
      encerrado_por = llenar p.encerrado_por o.encerrado_por;
      encerrado_cuando = if is_none p.encerrado_por then o.encerrado_cuando else p.encerrado_cuando;
      recibo = llenar p.recibo o.recibo;
      monto = if p.monto == 0 then o.monto else p.monto;
      precio =
          if is_none p.precio && not (partida_en_estado p PartidaEstado.pendiente)
          then o.precio
          else p.precio;
    }

-- The last lines, where `p` is not behind.
unfoldable pub completar : Partida → Partida → Partida
completar p o = record p {
  monto = if p.monto == 0 && ltb 0 o.monto then o.monto else p.monto;
  turno = if es_pagada p then none else p.turno;
  detalle =
      if partida_en_estado p PartidaEstado.pendiente
        && partida_en_estado o PartidaEstado.pendiente
        && not (is_empty o.detalle)
      then o.detalle
      else p.detalle;
  fondeo_txid = llenar p.fondeo_txid o.fondeo_txid;
  pago_txid = llenar p.pago_txid o.pago_txid;
  notas = elevar_cajas p.notas o.notas;
}

-- What follows the first step.
unfoldable pub fusionar_estado : Partida → Partida → Partida
unfolding adelantar igualar completar
fusionar_estado p o =
    if ltb (rango_partida p.estado) (rango_partida o.estado)
    then adelantar p o
    else if rango_partida o.estado == rango_partida p.estado
    then completar (igualar p o) o
    else completar p o

-- `Partida::fusionar`
unfoldable pub fusionar_partida : Partida → Partida → Partida
fusionar_partida p o = fusionar_estado (fusionar_encierre (fusionar_texto p o) o) o
