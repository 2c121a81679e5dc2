-- ===== src/Motor/Acciones/Avance.antt =====
-- caja.rs of the motor: somebody can always go on with the installment that is active.
use home_builder_pay.Base.{
  ℕ, suc, zero, ◌≡◌, inl, inr, Bool, true, false, ◌||◌, some, List, [], ◌∷◌, arith, text_eq,
  text_eq_iff, get_elem?, is_some, All-get_elem?, Option-cases,
}
use home_builder_pay.Acuerdo.{Partida, PartidaEstado, Obra, EstadoObra, obra_en_estado}
use home_builder_pay.Precio.{es_usd}
use home_builder_pay.Acuerdo.Operaciones.{es_pagada, esta_terminada}
use home_builder_pay.Acuerdo.Partes.{activa, primera_impaga}
use home_builder_pay.Acuerdo.Invariante.{PartidaValida, ObraValida}
use home_builder_pay.Motor.Acciones.{
  Traba, AccionesPartida, acciones_de, acciones_partida_con, curso_de, mas_avanzada,
}

primera_impaga-pagada :
    (ps : List Partida) (i : ℕ) (p : Partida)
    → primera_impaga ps ≡ some i
    → get_elem? ps i ≡ some p
    → es_pagada p ≡ false
unfolding primera_impaga
primera_impaga-pagada [] i p h e = absurd (ground arith)
primera_impaga-pagada (x ∷ xs) zero p h e = elim (Option-cases (primera_impaga xs)) [
  | inl a ↦ ground (arith, a)
  | inr (j, a) ↦ ground (arith, a)
]
primera_impaga-pagada (x ∷ xs) (suc i) p h e = elim (Option-cases (primera_impaga xs)) [
  | inl a ↦ absurd (ground (arith, a))
  | inr (j, a) ↦ primera_impaga-pagada xs i p (ground (arith, a)) e
]

-- A button that leads on: to the lock, to the end of the work, to the payment.
abbrev pub sigue : AccionesPartida → Bool
sigue a = a.proponer_encierre || a.confirmar_fondeo || a.avisar_termino || a.aceptar_pago

sigue_de :
    (o : Obra) (i : ℕ) (p : Partida)
    → activa o ≡ some i
    → es_pagada p ≡ false
    → esta_terminada o ≡ false
    → obra_en_estado o EstadoObra.contra ≡ false
    → text_eq o.mandante.id o.contratista.id ≡ false
    → is_some p.pago_txid ≡ false
    → (p.estado ≡ PartidaEstado.encerrando → is_some p.encerrado_por ≡ true)
    → (p.estado ≡ PartidaEstado.en_trato → is_some p.turno ≡ true)
    → sigue (acciones_de o i p o.mandante.id [] Traba.libre)
        || sigue (acciones_de o i p o.contratista.id [] Traba.libre)
      ≡ true
unfolding acciones_de curso_de mas_avanzada
sigue_de o i p ha hp ht hc dos hx hq hr = elim (Option-cases p.encerrado_por) [
  | inl e ↦ ground (
    arith,
    e,
    text_eq_iff o.mandante.id o.mandante.id,
    text_eq_iff o.contratista.id o.contratista.id,
    text_eq_iff o.contratista.id o.mandante.id,
    text_eq_iff o.mandante.id o.contratista.id,
    hq,
    hr,
  )
  | inr (q, e) ↦ ground (
    arith,
    e,
    text_eq_iff o.mandante.id o.mandante.id,
    text_eq_iff o.contratista.id o.contratista.id,
    text_eq_iff o.contratista.id o.mandante.id,
    text_eq_iff q.id o.mandante.id,
    text_eq_iff q.id o.contratista.id,
    hr,
  )
]

-- In a valid job of two different parties that has not ended and waits for no answer to a counter-offer,
-- one of them is offered the next step of the active installment, if the wallet shows no line of it, its
-- funding is free and no transaction pays it: its lock, the funding, the end of the work or the payment.
pub acciones_avanzan :
    (o : Obra) (i : ℕ) (p : Partida)
    → ObraValida o
    → activa o ≡ some i
    → get_elem? o.partidas i ≡ some p
    → esta_terminada o ≡ false
    → obra_en_estado o EstadoObra.contra ≡ false
    → text_eq o.mandante.id o.contratista.id ≡ false
    → is_some p.pago_txid ≡ false
    → sigue (acciones_partida_con o i o.mandante.id [] Traba.libre)
        || sigue (acciones_partida_con o i o.contratista.id [] Traba.libre)
      ≡ true
unfolding acciones_partida_con activa
acciones_avanzan o i p v ha e ht hc dos hx =
    let w =
      All-get_elem? (PartidaValida (es_usd o.moneda) o.garantia) o.partidas i v.partidas_validas
        e in
    let h =
      sigue_de o i p ha (primera_impaga-pagada o.partidas i p ha e) ht hc dos hx w.con_proponente
        w.con_turno in
    ground (arith, h)
