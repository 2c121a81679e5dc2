-- ===== src/Fusion.antt =====
-- acuerdo.rs, the merge of two copies of a job: `Obra::fusionar` and what it
-- calls. A method that changes `self` gives the new value; its steps are functions in the code's order.
pub mod Notas
pub mod Mezcla
pub mod Partidas
pub mod Obras
use home_builder_pay.Base.{
  ℕ, zero, suc, ◌+◌, Bool, true, false, ◌&&◌, ◌||◌, not, Option, none, some, List, [], ◌∷◌, ltb,
  leb, ◌==◌, if◌then◌else◌, ℤ, max_ℤ, Text, text_eq, text_lt, is_some, is_none, is_empty, length,
  resize, any, all,
}
use home_builder_pay.Precio.{Moneda, es_usd}
use home_builder_pay.Acuerdo.{
  Persona, EstadoObra, PartidaEstado, NotaPartida, Partida, Aceptacion, ExtraPartida, Obra,
  rango_partida, rango_obra, partida_en_estado, obra_en_estado, misma_persona, partida_pendiente,
}
use home_builder_pay.Acuerdo.Operaciones.{es_pagada, esta_terminada}
use home_builder_pay.Fusion.Mezcla.{llenar, fusionar_partida}

unfoldable pub zip_partidas : List Partida → List Partida → List Partida
zip_partidas [] bs = []
zip_partidas (a ∷ as') [] = a ∷ as'
zip_partidas (a ∷ as') (b ∷ bs) = fusionar_partida a b ∷ zip_partidas as' bs

-- `Obra::fusionar_partidas`
unfoldable pub fusionar_partidas : List Partida → List Partida → ℕ → List Partida
unfolding zip_partidas partida_pendiente
fusionar_partidas dst src n =
    zip_partidas (resize n (partida_pendiente []) dst) (resize n (partida_pendiente []) src)

-- `llenar_clave`
unfoldable pub llenar_clave : Persona → Persona → Persona
llenar_clave dst src =
    if text_eq dst.id src.id && is_empty dst.clave_pub && not (is_empty src.clave_pub)
    then record dst { clave_pub = src.clave_pub }
    else dst

abbrev pub fusionar_claves : Obra → Obra → Obra
fusionar_claves o x = record o {
  mandante = llenar_clave o.mandante x.mandante;
  contratista = llenar_clave o.contratista x.contratista;
  moneda = if es_usd x.moneda then Moneda.usd else o.moneda;
}

-- The state and the installments.
unfoldable pub fusionar_avance : Obra → Obra → Obra
fusionar_avance o x =
    if ltb (rango_obra o.estado) (rango_obra x.estado)
    then record o {
      estado = x.estado;
      garantia = x.garantia;
      trabajo = x.trabajo;
      n_partidas = x.n_partidas;
      garantia_publicada =
          if ltb 0 x.garantia_publicada then x.garantia_publicada else o.garantia_publicada;
      contra = x.contra;
      partidas = fusionar_partidas o.partidas x.partidas x.n_partidas;
    }
    else record o {
      contra =
          if rango_obra x.estado == rango_obra o.estado then llenar o.contra x.contra else o.contra;
      partidas =
          if x.n_partidas == o.n_partidas
          then fusionar_partidas o.partidas x.partidas o.n_partidas
          else o.partidas;
    }

abbrev pub sellar_extra : Option ExtraPartida → Option ExtraPartida → Option ExtraPartida
sellar_extra none src = none
sellar_extra (some d) none = some d
sellar_extra (some d) (some s) =
    if is_empty d.detalle_caja && not (is_empty s.detalle_caja)
    then some (record d { detalle_caja = s.detalle_caja; detalle = [] })
    else some d

abbrev pub maximo : ℕ → ℕ → ℕ
maximo a b = if ltb a b then b else a

-- The installments that the other copy has more of, and the proposed extra one.
unfoldable pub fusionar_extra : Obra → Obra → Obra
fusionar_extra o x =
    if ltb o.n_partidas x.n_partidas
      && leb (rango_obra o.estado) (rango_obra x.estado)
      && not (obra_en_estado o EstadoObra.rechazada)
      && not (obra_en_estado o EstadoObra.abandonada)
    then record o {
      trabajo = x.trabajo;
      n_partidas = x.n_partidas;
      partidas = fusionar_partidas o.partidas x.partidas x.n_partidas;
      extra = none;
      extra_seq = maximo o.extra_seq x.extra_seq;
    }
    else if ltb o.extra_seq x.extra_seq
    then record o { extra = x.extra; extra_seq = x.extra_seq }
    else if x.extra_seq == o.extra_seq
    then record o { extra = sellar_extra o.extra x.extra }
    else o

abbrev pub vaciar_terminada : Obra → Obra
vaciar_terminada o = record o {
  extra = if esta_terminada o then none else o.extra;
  cierre = if esta_terminada o then none else o.cierre;
}

unfoldable pub fusionar_cierre : Obra → Obra → Obra
fusionar_cierre o x =
    if obra_en_estado o EstadoObra.abandonada
    then record o { cierre = none; cierre_seq = maximo o.cierre_seq x.cierre_seq }
    else if ltb o.cierre_seq x.cierre_seq
    then record o { cierre = x.cierre; cierre_seq = x.cierre_seq }
    else o

-- A job with an installment under way is under way, and one whose installments are all paid is closed.
unfoldable pub ajustar_estado : Obra → Obra
ajustar_estado o =
    let en_marcha =
      not (obra_en_estado o EstadoObra.rechazada)
      && not (obra_en_estado o EstadoObra.abandonada)
      && any (λ p. leb 1 (rango_partida p.estado)) o.partidas
      && ltb (rango_obra o.estado) 4 in
    let pagada = all es_pagada o.partidas && not (is_empty o.partidas) in
    record o {
      estado =
          if pagada
          then EstadoObra.cerrada
          else if en_marcha
          then EstadoObra.en_marcha
          else o.estado;
    }

-- `Obra::fusionar`
unfoldable pub fusionar : Obra → Obra → Obra
unfolding llenar_clave
fusionar o x =
    let f = ajustar_estado (
      fusionar_cierre
        (vaciar_terminada (fusionar_extra (fusionar_avance (fusionar_claves o x) x) x)) x) in
    record f { actualizado = max_ℤ f.actualizado x.actualizado }
