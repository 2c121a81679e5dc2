-- ===== src/Acuerdo/Encierre.antt =====
-- acuerdo.rs: the lock of an installment takes the two parties, and fixes the price.
use home_builder_pay.Base.{
  ℕ, ◌≡◌, refl, ap, ◌∙◌, subst, true, ◌&&◌, ◌||◌, not, Option, none, some, ok, is_ok, ℤ, arith,
  get_elem?, get_elem?-set_self, get_elem?-set_ne, Text, text_eq, if◌then◌else◌, Option-cases, inl,
  inr, ==_iff, Bool-cases, ◌==◌,
}
use home_builder_pay.Precio.{PrecioFijado, Moneda, es_usd, coherente}
use home_builder_pay.Acuerdo.{
  Obra, Persona, Partida, PartidaEstado, EstadoObra, capital, otro_rol, sat_suc,
}
use home_builder_pay.Acuerdo.Operaciones.{
  precio_sirve, confirmada, propuesta, avisada, contraofertada, cobrada, recibo_de, rol_en,
  encerrar_proponer_con, encerrar_confirmar, avisar_termino, contra_pago, aceptar_pago,
  piconero_partida,
}
use home_builder_pay.Acuerdo.Atomic.{
  tras, encerrar_confirmar-Intacta, avisar_termino-Intacta, contra_pago-Intacta,
  aceptar_pago-Intacta,
}
use home_builder_pay.Acuerdo.Efecto.{
  encerrar_confirmar_en, avisar_termino_en, contra_pago_en, aceptar_pago_en, con_partida,
  encerrar_confirmar-ok, encerrar_proponer_con-ok,
}

confirmar_iff :
    (i : ℕ) (q q2 : Persona) (now2 : ℤ) (o : Obra) (p : Partida)
    → get_elem? o.partidas i ≡ some p
    → p.estado ≡ PartidaEstado.encerrando
    → p.encerrado_por ≡ some q
    → is_ok (encerrar_confirmar i q2 now2 o).0 ≡ is_ok (rol_en o q2.id) && not (text_eq q.id q2.id)
unfolding encerrar_confirmar
confirmar_iff i q q2 now2 o p e h k = ground arith

confirmar-encerrada :
    (i : ℕ) (q2 : Persona) (now2 : ℤ) (o : Obra) (p : Partida)
    → get_elem? o.partidas i ≡ some p
    → (encerrar_confirmar i q2 now2 o).0 ≡ ok tt
    → get_elem? (encerrar_confirmar i q2 now2 o).1.partidas i ≡ some (confirmada now2 p)
confirmar-encerrada i q2 now2 o p e h =
    ap (λ (x : Obra). get_elem? x.partidas i) (encerrar_confirmar-ok i q2 now2 o e h).1
    ∙ get_elem?-set_self o.partidas i (confirmada now2 p) e

module _ (i : ℕ) (q : Persona) (pr : Option PrecioFijado) (now : ℤ) (o : Obra) where
  -- The installment after a proposal to lock it.
  propuesta_en :
      (encerrar_proponer_con i q pr now o).0 ≡ ok tt
      → (p : Partida) × (get_elem? o.partidas i ≡ some p)
        × (not (es_usd o.moneda) || precio_sirve pr (capital p o.garantia) ≡ true)
        × (get_elem? (encerrar_proponer_con i q pr now o).1.partidas i
            ≡ some (propuesta q (if es_usd o.moneda then pr else none) p))
        × ((encerrar_proponer_con i q pr now o).1
            ≡ record (con_partida o i (propuesta q (if es_usd o.moneda then pr else none) p) now) {
              estado = EstadoObra.en_marcha;
            })
  propuesta_en h = elim (Option-cases (get_elem? o.partidas i)) [
    | inl e ↦ absurd (unfold encerrar_proponer_con in ground arith)
    | inr (p, e) ↦
        let f = encerrar_proponer_con-ok i q now o e pr h in
        (
          p,
          e,
          f.1,
          ap (λ (x : Obra). get_elem? x.partidas i) f.2
              ∙ get_elem?-set_self o.partidas i
                  (propuesta q (if es_usd o.moneda then pr else none) p) e,
          f.2,
        )
  ]

  -- After `q` has proposed to lock installment i, a call to confirm the lock succeeds exactly for a
  -- party of the job whose id is not that of `q`.
  pub encerrar_dos_partes :
      (q2 : Persona) (now2 : ℤ)
      → (encerrar_proponer_con i q pr now o).0 ≡ ok tt
      → is_ok (encerrar_confirmar i q2 now2 (encerrar_proponer_con i q pr now o).1).0
        ≡ is_ok (rol_en o q2.id) && not (text_eq q.id q2.id)
  encerrar_dos_partes q2 now2 h =
      let (p, e, _, s, eq) = propuesta_en h in
      let o1 = (encerrar_proponer_con i q pr now o).1 in
      let p1 = propuesta q (if es_usd o.moneda then pr else none) p in
      confirmar_iff i q q2 now2 o1 p1 s refl refl
      ∙ ap (λ (x : Obra). is_ok (rol_en x q2.id) && not (text_eq q.id q2.id)) eq

  -- If `q` proposes to lock installment i and `q2` confirms it, then the installment is locked, its
  -- proposer is `q`, its number has gone up twice, and its price is the one that was proposed, or none
  -- in a job that is not in dollars.
  pub encerrar_proponer-confirmar :
      (q2 : Persona) (now2 : ℤ)
      → (encerrar_proponer_con i q pr now o).0 ≡ ok tt
      → (encerrar_confirmar i q2 now2 (encerrar_proponer_con i q pr now o).1).0 ≡ ok tt
      → (antes p : Partida) × (get_elem? o.partidas i ≡ some antes)
        × (get_elem?
              (encerrar_confirmar i q2 now2 (encerrar_proponer_con i q pr now o).1).1.partidas
              i
            ≡ some p)
        × (p.estado ≡ PartidaEstado.encerrada)
        × (p.encerrado_por ≡ some q)
        × (p.encerrar_seq ≡ sat_suc (sat_suc antes.encerrar_seq))
        × (p.precio ≡ (if es_usd o.moneda then pr else none))
  encerrar_proponer-confirmar q2 now2 h k =
      let (p, e, _, s, _) = propuesta_en h in
      let o1 = (encerrar_proponer_con i q pr now o).1 in
      let p1 = propuesta q (if es_usd o.moneda then pr else none) p in
      (p, confirmada now2 p1, e, confirmar-encerrada i q2 now2 o1 p1 s k, refl, refl, refl, refl)

  precio_de :
      (g : ℕ) (q2 : Option PrecioFijado)
      → precio_sirve q2 g ≡ true
      → (precio : PrecioFijado) × (q2 ≡ some precio)
        × (coherente precio ≡ true)
        × (precio.usd_centavos ≡ g)
  precio_de g none k = absurd (ground arith)
  precio_de g (some precio) k = (precio, refl, ground arith, ground arith)

  -- In a job in dollars a proposal to lock succeeds only with a price, one that is coherent and stands
  -- for the capital of the installment, and the amount in XMR is then the one of that price.
  pub encerrar_fija_precio :
      o.moneda ≡ Moneda.usd
      → (encerrar_proponer_con i q pr now o).0 ≡ ok tt
      → (precio : PrecioFijado) × (p : Partida) × (pr ≡ some precio)
        × (coherente precio ≡ true)
        × (get_elem? o.partidas i ≡ some p)
        × (precio.usd_centavos ≡ capital p o.garantia)
        × (piconero_partida (encerrar_proponer_con i q pr now o).1 i ≡ some precio.piconero)
  unfolding piconero_partida
  encerrar_fija_precio hu h =
      let (p, e, k, s, eq) = propuesta_en h in
      let (precio, hp, c, g) = precio_de (capital p o.garantia) pr (ground arith) in
      (
        precio,
        p,
        hp,
        c,
        e,
        g,
        rw eq (
            ground (
              arith,
              get_elem?-set_self o.partidas i (propuesta q (if es_usd o.moneda then pr else none) p)
                  e,
            )),
      )

-- A write that keeps the price and the amount of an installment keeps every amount in XMR.
piconero_con_partida :
    (i : ℕ) (now : ℤ) (o : Obra) (p q : Partida) (j : ℕ)
    → get_elem? o.partidas i ≡ some p
    → q.precio ≡ p.precio
    → q.monto ≡ p.monto
    → piconero_partida (con_partida o i q now) j ≡ piconero_partida o j
unfolding piconero_partida
piconero_con_partida i now o p q j e hp hm = elim (Bool-cases (i == j)) [
  | inl same ↦
      subst (λ k. piconero_partida (con_partida o i q now) k ≡ piconero_partida o k)
        ((==_iff i j).0 same)
        (rw (get_elem?-set_self o.partidas i q e, e, piconero_partida)
          (unfold capital in ground arith))
  | inr other ↦
      rw (
        get_elem?-set_ne o.partidas {i = i} {j = j} q (λ h. cc ((==_iff i j).1 h)),
        piconero_partida,
      )
]

-- Confirming a lock, announcing the end of the work, countering a percentage and accepting it keep the
-- amount in XMR of every installment.
pub piconero_partida_fijo :
    (i : ℕ) (q : Persona) (now : ℤ) (o : Obra) (n : ℕ) (t : Text) (j : ℕ)
    → (piconero_partida (encerrar_confirmar i q now o).1 j ≡ piconero_partida o j)
      × (piconero_partida (avisar_termino i q n t now o).1 j ≡ piconero_partida o j)
      × (piconero_partida (contra_pago i q n t now o).1 j ≡ piconero_partida o j)
      × (piconero_partida (aceptar_pago i q now o).1 j ≡ piconero_partida o j)
unfolding piconero_partida
piconero_partida_fijo i q now o n t j = (
  tras igual o _ refl (encerrar_confirmar-Intacta i q now o) (λ h.
      let (p, e, eq) = encerrar_confirmar_en i q now o h in
      ap (λ (x : Obra). piconero_partida x j) eq
      ∙ piconero_con_partida i now o p (confirmada now p) j e refl refl),
  tras igual o _ refl (avisar_termino-Intacta i q n t now o) (λ h.
      let (p, nota, e, _, eq) = avisar_termino_en i q now o n t h in
      ap (λ (x : Obra). piconero_partida x j) eq
      ∙ piconero_con_partida i now o p (avisada nota n p) j e refl refl),
  tras igual o _ refl (contra_pago-Intacta i q n t now o) (λ h.
      let (p, nota, r, e, _, _, eq) = contra_pago_en i q now o n t h in
      ap (λ (x : Obra). piconero_partida x j) eq
      ∙ piconero_con_partida i now o p (contraofertada nota n (otro_rol r) p) j e refl refl),
  tras igual o _ refl (aceptar_pago-Intacta i q now o) (λ h.
      let (p, m, e, _, _, eq) = aceptar_pago_en i q now o h in
      ap (λ (x : Obra). piconero_partida x j) eq
      ∙ piconero_con_partida i now o p (cobrada (recibo_de i p (capital p o.garantia) m q now) m p)
          j e refl refl),
)
  where
    igual : Obra → Type 0
    igual x = piconero_partida x j ≡ piconero_partida o j
