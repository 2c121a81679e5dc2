-- ===== src/Fusion/Partidas.antt =====
-- acuerdo.rs `Partida::fusionar`: the merge never goes back, but for a lock with a later number.
use home_builder_pay.Base.{
  ℕ, ◌≡◌, ◌≢◌, sym, ap, ◌∙◌, Bool, true, false, ◌&&◌, none, some, ltb, if◌then◌else◌, arith,
  is_some, is_none, text_eq, text_eq_iff, text_lt, text_lt_total, is_none,
}
use home_builder_pay.Acuerdo.{persona_eq, Partida, Persona, PartidaEstado, rango_partida}
use home_builder_pay.Fusion.Mezcla.{
  llenar, fusionar_texto, fusionar_partida, fusionar_encierre, fusionar_estado,
}
use home_builder_pay.Fusion.{maximo}

-- The second step goes to the later of the two states.
fusionar_estado-rango :
    (p o : Partida)
    → rango_partida (fusionar_estado p o).estado
      ≡ maximo (rango_partida p.estado) (rango_partida o.estado)
unfolding fusionar_estado
fusionar_estado-rango p o = ground arith

fusionar_encierre-rango :
    (p o : Partida)
    → rango_partida (fusionar_encierre p o).estado ≡ (
        if ltb p.encerrar_seq o.encerrar_seq && ltb (rango_partida p.estado) 3
        then rango_partida o.estado
        else rango_partida p.estado)
unfolding fusionar_encierre
fusionar_encierre-rango p o = ground arith

fusionar_encierre-seq :
    (p o : Partida) → (fusionar_encierre p o).encerrar_seq ≡ maximo p.encerrar_seq o.encerrar_seq
unfolding fusionar_encierre
fusionar_encierre-seq p o = ground arith

fusionar_estado-seq : (p o : Partida) → (fusionar_estado p o).encerrar_seq ≡ p.encerrar_seq
unfolding fusionar_estado
fusionar_estado-seq p o = ground arith

maximo-if : (b : Bool) (a c : ℕ) → maximo (if b then c else a) c ≡ (if b then c else maximo a c)
maximo-if b a c = ground arith

-- A merge ends in the later of the two states, unless the other copy has a later lock number and this
-- one is not yet in deal: then it ends in the state of the other copy, which may be an earlier one.
pub fusionar_partida-rango :
    (p o : Partida)
    → rango_partida (fusionar_partida p o).estado ≡ (
        if ltb p.encerrar_seq o.encerrar_seq && ltb (rango_partida p.estado) 3
        then rango_partida o.estado
        else maximo (rango_partida p.estado) (rango_partida o.estado))
unfolding fusionar_partida
fusionar_partida-rango p o =
    fusionar_estado-rango _ o
    ∙ ap (λ k. maximo k (rango_partida o.estado)) (fusionar_encierre-rango _ o)
    ∙ maximo-if _ (rango_partida p.estado) (rango_partida o.estado)

-- The lock number of a merge is the larger of the two.
pub fusionar_partida-seq :
    (p o : Partida) → (fusionar_partida p o).encerrar_seq ≡ maximo p.encerrar_seq o.encerrar_seq
unfolding fusionar_partida
fusionar_partida-seq p o = fusionar_estado-seq _ o ∙ fusionar_encierre-seq _ o

encierre-pagada :
    (p o : Partida)
    → p.estado ≡ PartidaEstado.pagada
    → ((fusionar_encierre p o).estado ≡ p.estado)
      × ((fusionar_encierre p o).pago ≡ p.pago)
      × ((fusionar_encierre p o).recibo ≡ p.recibo)
      × ((fusionar_encierre p o).fondeo_txid ≡ p.fondeo_txid)
      × ((fusionar_encierre p o).pago_txid ≡ p.pago_txid)
unfolding fusionar_encierre
encierre-pagada p o h = ground arith

estado-pagada :
    (p o : Partida)
    → p.estado ≡ PartidaEstado.pagada
    → is_some p.pago ≡ true
    → is_some p.recibo ≡ true
    → ((fusionar_estado p o).estado ≡ PartidaEstado.pagada)
      × ((fusionar_estado p o).turno ≡ none)
      × ((fusionar_estado p o).pago ≡ p.pago)
      × ((fusionar_estado p o).recibo ≡ p.recibo)
      × ((fusionar_estado p o).fondeo_txid ≡ llenar p.fondeo_txid o.fondeo_txid)
      × ((fusionar_estado p o).pago_txid ≡ llenar p.pago_txid o.pago_txid)
unfolding fusionar_estado
estado-pagada p o h k l = ground arith

-- A paid installment with a percentage and a receipt stays paid in every merge, whatever the other copy
-- says: the percentage and the receipt stay, nobody has the turn, and the ids of the two transactions
-- are its own, or where it has none those of the other copy.
pub fusionar_partida_pagada :
    (p o : Partida)
    → p.estado ≡ PartidaEstado.pagada
    → is_some p.pago ≡ true
    → is_some p.recibo ≡ true
    → ((fusionar_partida p o).estado ≡ PartidaEstado.pagada)
      × ((fusionar_partida p o).turno ≡ none)
      × ((fusionar_partida p o).pago ≡ p.pago)
      × ((fusionar_partida p o).recibo ≡ p.recibo)
      × ((fusionar_partida p o).fondeo_txid ≡ llenar p.fondeo_txid o.fondeo_txid)
      × ((fusionar_partida p o).pago_txid ≡ llenar p.pago_txid o.pago_txid)
unfolding fusionar_partida
fusionar_partida_pagada p o h k l =
    let q = fusionar_texto p o in
    let e = encierre-pagada q o h in
    let f =
      estado-pagada (fusionar_encierre q o) o (e.0 ∙ h) (ap is_some e.1 ∙ k) (ap is_some e.2 ∙ l) in
    (
      f.0,
      f.1,
      f.2 ∙ e.1,
      f.3 ∙ e.2,
      f.4 ∙ ap (λ x. llenar x o.fondeo_txid) e.3,
      f.5 ∙ ap (λ x. llenar x o.pago_txid) e.4,
    )

-- Two proposals with one number.
encierre-empate :
    (p o : Partida) (a b : Persona)
    → p.estado ≡ PartidaEstado.encerrando
    → o.estado ≡ PartidaEstado.encerrando
    → p.encerrar_seq ≡ o.encerrar_seq
    → p.encerrado_por ≡ some a
    → o.encerrado_por ≡ some b
    → text_eq a.id b.id ≡ false
    → ((fusionar_encierre p o).estado ≡ PartidaEstado.encerrando)
      × ((fusionar_encierre p o).encerrado_por ≡ (if text_lt b.id a.id then some b else some a))
      × ((fusionar_encierre p o).encerrado_cuando
          ≡ (if text_lt b.id a.id then o.encerrado_cuando else p.encerrado_cuando))
      × ((fusionar_encierre p o).precio ≡ (if text_lt b.id a.id then o.precio else p.precio))
unfolding fusionar_encierre persona_eq
encierre-empate p o a b hp ho hs ha hb ne =
    ground (arith, text_eq_iff a.id b.id, text_eq_iff b.id a.id)

estado-empate :
    (p o : Partida) (c : Persona)
    → p.estado ≡ PartidaEstado.encerrando
    → o.estado ≡ PartidaEstado.encerrando
    → p.encerrado_por ≡ some c
    → ((fusionar_estado p o).encerrado_por ≡ some c)
      × ((fusionar_estado p o).encerrado_cuando ≡ p.encerrado_cuando)
      × ((fusionar_estado p o).precio ≡ (if is_none p.precio then o.precio else p.precio))
unfolding fusionar_estado
estado-empate p o c hp ho hc = ground arith

-- What a merge makes of two proposals with one number.
partida-empate :
    (p o : Partida) (a b : Persona)
    → p.estado ≡ PartidaEstado.encerrando
    → o.estado ≡ PartidaEstado.encerrando
    → p.encerrar_seq ≡ o.encerrar_seq
    → p.encerrado_por ≡ some a
    → o.encerrado_por ≡ some b
    → text_eq a.id b.id ≡ false
    → is_some p.precio ≡ is_some o.precio
    → ((fusionar_partida p o).encerrado_por ≡ (if text_lt b.id a.id then some b else some a))
      × ((fusionar_partida p o).encerrado_cuando
          ≡ (if text_lt b.id a.id then o.encerrado_cuando else p.encerrado_cuando))
      × ((fusionar_partida p o).precio ≡ (if text_lt b.id a.id then o.precio else p.precio))
unfolding fusionar_partida
partida-empate p o a b hp ho hs ha hb ne hpr =
    let e = encierre-empate (fusionar_texto p o) o a b hp ho hs ha hb ne in
    let f =
      estado-empate (fusionar_encierre (fusionar_texto p o) o) o
        (if text_lt b.id a.id then b else a) e.0 ho (ground (arith, e)) in
    ground (arith, e, f)

-- Two people propose at once to lock an installment, in two copies with the same number. If their ids
-- differ, and both copies or neither have a price, both merge to the same proposer, the same time and
-- the same price.
pub fusionar_partida_converge :
    (p o : Partida) (a b : Persona)
    → p.estado ≡ PartidaEstado.encerrando
    → o.estado ≡ PartidaEstado.encerrando
    → p.encerrar_seq ≡ o.encerrar_seq
    → p.encerrado_por ≡ some a
    → o.encerrado_por ≡ some b
    → a.id ≢ b.id
    → is_some p.precio ≡ is_some o.precio
    → ((fusionar_partida p o).encerrado_por ≡ (fusionar_partida o p).encerrado_por)
      × ((fusionar_partida p o).encerrado_cuando ≡ (fusionar_partida o p).encerrado_cuando)
      × ((fusionar_partida p o).precio ≡ (fusionar_partida o p).precio)
fusionar_partida_converge p o a b hp ho hs ha hb ne hpr =
    let ne' : text_eq a.id b.id ≡ false = ground (arith, text_eq_iff a.id b.id) in
    let e = partida-empate p o a b hp ho hs ha hb ne' hpr in
    let f =
      partida-empate o p b a ho hp (sym hs) hb ha
        (ground (arith, text_eq_iff a.id b.id, text_eq_iff b.id a.id)) (sym hpr) in
    ground (arith, e, f, text_lt_total a.id b.id ne')
