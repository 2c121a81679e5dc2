-- ===== src/Acuerdo/Pago.antt =====
-- acuerdo.rs: the negotiation of the payment of an installment.
use home_builder_pay.Base.{
  ℕ, ◌≡◌, ◌≢◌, ◌≤◌, ◌<◌, ◌+◌, ◌*◌, ◌%◌, refl, ap, ◌∙◌, false, some, ok, err, Error, is_ok, ℤ, arith,
  get_elem?, get_elem?-set_self, Text, text_eq_iff, if◌then◌else◌, ◌==◌, all,
}
use home_builder_pay.Montos.{monto_pct, u64_mod}
use home_builder_pay.Acuerdo.{
  Obra, Persona, Partida, PartidaEstado, EstadoObra, Rol, ReciboPartida, NotaPartida, capital,
  otro_rol, rol_num,
}
use home_builder_pay.Acuerdo.Operaciones.{
  es_pagada, avisada, contraofertada, cobrada, recibo_de, rol_en, avisar_termino, contra_pago,
  aceptar_pago,
}
use home_builder_pay.Acuerdo.Efecto.{
  con_partida, contra_pago_en, avisar_termino_en, aceptar_pago_en, aceptar_pago-ok,
}

-- Who may accept what: the side whose turn it is, at the percentage on the table.
aceptar_iff :
    (i : ℕ) (q : Persona) (now : ℤ) (o : Obra) (p : Partida) (n : ℕ) (r t : Rol)
    → get_elem? o.partidas i ≡ some p
    → p.estado ≡ PartidaEstado.en_trato
    → p.propuesto ≡ some n
    → p.turno ≡ some t
    → rol_en o q.id ≡ ok r
    → is_ok (aceptar_pago i q now o).0 ≡ (rol_num t == rol_num r)
unfolding aceptar_pago
aceptar_iff i q now o p n r t e h k m l = ground arith

aceptar_no_toca :
    (i : ℕ) (q : Persona) (now : ℤ) (o : Obra) (p : Partida) (t r : Rol)
    → get_elem? o.partidas i ≡ some p
    → p.turno ≡ some t
    → rol_en o q.id ≡ ok r
    → (rol_num t == rol_num r) ≡ false
    → (aceptar_pago i q now o).0 ≡ err Error.no_toca
unfolding aceptar_pago
aceptar_no_toca i q now o p t r e h k m = ground arith

aceptar-pagada :
    (i : ℕ) (q : Persona) (now : ℤ) (o : Obra) (p : Partida) (n : ℕ) (r : Rol)
    → get_elem? o.partidas i ≡ some p
    → p.propuesto ≡ some n
    → rol_en o q.id ≡ ok r
    → (aceptar_pago i q now o).0 ≡ ok tt
    → get_elem? (aceptar_pago i q now o).1.partidas i
      ≡ some (cobrada (recibo_de i p (capital p o.garantia) n q now) n p)
aceptar-pagada i q now o p n r e k m h =
    ap (λ (x : Obra). get_elem? x.partidas i) (aceptar_pago-ok i q now o e n r k m h).2
    ∙ get_elem?-set_self o.partidas i (cobrada (recibo_de i p (capital p o.garantia) n q now) n p) e

contraoferta_en :
    (i : ℕ) (q : Persona) (n : ℕ) (t : Text) (now : ℤ) (o : Obra)
    → (contra_pago i q n t now o).0 ≡ ok tt
    → (p : Partida) × (nota : NotaPartida) × (r : Rol) × (get_elem? o.partidas i ≡ some p)
      × (rol_en o q.id ≡ ok r)
      × (p.estado ≡ PartidaEstado.en_trato)
      × (get_elem? (contra_pago i q n t now o).1.partidas i
          ≡ some (contraofertada nota n (otro_rol r) p))
      × ((contra_pago i q n t now o).1 ≡ con_partida o i (contraofertada nota n (otro_rol r) p) now)
contraoferta_en i q n t now o h =
    let (p, nota, r, e, m, k, eq) = contra_pago_en i q now o n t h in
    (
      p,
      nota,
      r,
      e,
      m,
      k,
      ap (λ (x : Obra). get_elem? x.partidas i) eq
          ∙ get_elem?-set_self o.partidas i (contraofertada nota n (otro_rol r) p) e,
      eq,
    )

-- After `q` has countered on installment i, a party of the job may accept exactly if it has the other
-- role.
pub contra_pago-turno :
    (i : ℕ) (q q2 : Persona) (n : ℕ) (t : Text) (now now2 : ℤ) (o : Obra) (r r2 : Rol)
    → (contra_pago i q n t now o).0 ≡ ok tt
    → rol_en o q.id ≡ ok r
    → rol_en o q2.id ≡ ok r2
    → is_ok (aceptar_pago i q2 now2 (contra_pago i q n t now o).1).0
      ≡ (rol_num (otro_rol r) == rol_num r2)
contra_pago-turno i q q2 n t now now2 o r r2 h hr hr2 =
    let (p, nota, r', e0, m, k, s, eq) = contraoferta_en i q n t now o h in
    let o1 = (contra_pago i q n t now o).1 in
    let rol1 : rol_en o1 q2.id ≡ ok r2 = ap (λ (x : Obra). rol_en x q2.id) eq ∙ hr2 in
    let same : r' ≡ r = cc in
    aceptar_iff i q2 now2 o1 (contraofertada nota n (otro_rol r') p) n r2 (otro_rol r') s k refl
      refl rol1
    ∙ ap (λ x. rol_num (otro_rol x) == rol_num r2) same

-- The amount is the whole part of a hundredth of the product, which is taken modulo 2^64.
monto_pct-percent :
    (total pct : ℕ)
    → (100 * monto_pct total pct ≤ total * pct % u64_mod)
      × (total * pct % u64_mod < 100 * monto_pct total pct + 100)
unfolding monto_pct
monto_pct-percent total pct = grind arith

-- If `q` counters with n percent on installment i and a party then accepts, n percent is what is paid:
-- the installment is paid, its payment and its receipt say n, and a hundred times the amount of the
-- receipt is no more than n times the capital that the installment had, taken modulo 2^64, and less than
-- a hundred short of it.
pub contra_pago-aceptar_pago :
    (i : ℕ) (q q2 : Persona) (n : ℕ) (t : Text) (now now2 : ℤ) (o : Obra) (r2 : Rol)
    → (contra_pago i q n t now o).0 ≡ ok tt
    → rol_en o q2.id ≡ ok r2
    → (aceptar_pago i q2 now2 (contra_pago i q n t now o).1).0 ≡ ok tt
    → (antes p : Partida) × (recibo : ReciboPartida) × (get_elem? o.partidas i ≡ some antes)
      × (get_elem? (aceptar_pago i q2 now2 (contra_pago i q n t now o).1).1.partidas i ≡ some p)
      × (p.estado ≡ PartidaEstado.pagada)
      × (p.pago ≡ some n)
      × (p.recibo ≡ some recibo)
      × (recibo.porcentaje ≡ n)
      × (100 * recibo.monto ≤ capital antes o.garantia * n % u64_mod)
      × (capital antes o.garantia * n % u64_mod < 100 * recibo.monto + 100)
unfolding capital
contra_pago-aceptar_pago i q q2 n t now now2 o r2 h hr2 done =
    let (p, nota, r', e0, m, k, s, eq) = contraoferta_en i q n t now o h in
    let o1 = (contra_pago i q n t now o).1 in
    let p1 = contraofertada nota n (otro_rol r') p in
    let rol1 : rol_en o1 q2.id ≡ ok r2 = ap (λ (x : Obra). rol_en x q2.id) eq ∙ hr2 in
    let recibo = recibo_de i p1 (capital p1 o1.garantia) n q2 now2 in
    let monto = ap (λ (x : Obra). monto_pct (capital p1 x.garantia) n) eq in
    let (le, lt) = monto_pct-percent (capital p o.garantia) n in
    (
      p,
      cobrada recibo n p1,
      recibo,
      e0,
      aceptar-pagada i q2 now2 o1 p1 n r2 s refl rol1 done,
      refl,
      refl,
      refl,
      refl,
      rw monto le,
      rw monto lt,
    )

-- Whoever has announced the end of the work of installment i cannot accept the percentage that it has
-- asked for, if the two parties have different ids.
pub avisar_termino_espera :
    (i : ℕ) (q : Persona) (n : ℕ) (t : Text) (now now2 : ℤ) (o : Obra)
    → o.mandante.id ≢ o.contratista.id
    → (avisar_termino i q n t now o).0 ≡ ok tt
    → (aceptar_pago i q now2 (avisar_termino i q n t now o).1).0 ≡ err Error.no_toca
avisar_termino_espera i q n t now now2 o ne h =
    let (p, nota, e, id, eq) = avisar_termino_en i q now o n t h in
    rw eq (
      aceptar_no_toca i q now2 (con_partida o i (avisada nota n p) now) (avisada nota n p)
        Rol.mandante Rol.contratista (get_elem?-set_self o.partidas i (avisada nota n p) e) refl
        (soy_contratista id) refl)
  where
    soy_contratista : q.id ≡ o.contratista.id → rol_en o q.id ≡ ok Rol.contratista
    soy_contratista id =
        ground (arith, text_eq_iff o.mandante.id q.id, text_eq_iff o.contratista.id q.id)

-- A payment that is accepted, in a job that is not closed, closes the job exactly if every installment
-- is then paid; otherwise the state of the job stays.
pub aceptar_pago_cierra :
    (i : ℕ) (q : Persona) (now : ℤ) (o : Obra)
    → (aceptar_pago i q now o).0 ≡ ok tt
    → (aceptar_pago i q now o).1.estado
      ≡ (if all es_pagada (aceptar_pago i q now o).1.partidas then EstadoObra.cerrada else o.estado)
aceptar_pago_cierra i q now o h =
    let (p, n, e, k, _, eq) = aceptar_pago_en i q now o h in rw eq refl
