-- ===== src/Reparto/Acuerdo.antt =====
-- What one party proposes the other one begins to sign.
use home_builder_pay.Base.{
  ℕ, suc, zero, ◌≡◌, refl, sym, ap, ◌∙◌, subst, inl, inr, true, Option, some, arith, ◌==◌, Text,
  text_eq_iff, Bool-cases, ==_iff,
}
use home_builder_pay.Reparto.{
  Logro, bien, Split, split_base, split_pot, TxGasto, SpendProposal, verify_proposal_tx, open_gasto,
  doble, Armado, armada, faltan_fondos, no_armada, propuesta, con_armado, vueltas, propose,
}
use home_builder_pay.Reparto.Cuentas.{Logro-cases}

-- A pot that can be divided is twice the capital.
split_pot-pote :
    (pot capital pct fee : ℕ) (s : Split)
    → split_pot pot capital pct fee ≡ bien s
    → pot ≡ doble capital
unfolding split_pot split_base
split_pot-pote pot capital pct fee s h = ground arith

verify-input_sum :
    {V : Type 0} (tx : TxGasto) (p : SpendProposal V) (s : Split)
    → verify_proposal_tx tx p s ≡ bien tt
    → tx.input_sum ≡ doble p.capital
unfolding verify_proposal_tx
verify-input_sum tx p s h = ground arith

bien_injective : {A : Type 0} {a b : A} → bien a ≡ bien b → a ≡ b
bien_injective e = cc e

module _ {V : Type 0} (armar : (contratista mandante : ℕ) → Armado) (serialize : TxGasto → V)
    (read : V → Option TxGasto) (vuelve : (tx : TxGasto) → read (serialize tx) ≡ some tx)
    (obra_id contratista mandante : Text) (pot capital pct : ℕ) where
  abbrev Firmable : SpendProposal V × Split → Type 0
  Firmable r = (open_gasto read obra_id r.0 ≡ bien tt) × (r.0.capital ≡ capital) × (r.0.pct ≡ pct)

  abbrev sigue : (n fee : ℕ) → Logro (SpendProposal V × Split)
  sigue n = vueltas armar serialize obra_id contratista mandante pot capital pct n

  la_propuesta : TxGasto → SpendProposal V
  la_propuesta tx = propuesta armar serialize obra_id contratista mandante pot capital pct tx

  firmable :
      (tx : TxGasto) (s : Split)
      → split_pot pot capital pct tx.necessary_fee ≡ bien s
      → verify_proposal_tx tx (la_propuesta tx) s ≡ bien tt
      → open_gasto read obra_id (la_propuesta tx) ≡ bien tt
  unfolding open_gasto la_propuesta
  firmable tx s k v =
      let suma =
        verify-input_sum tx (la_propuesta tx) s v
        ∙ sym (split_pot-pote pot capital pct tx.necessary_fee s k) in
      ground (
        arith,
        vuelve tx,
        text_eq_iff obra_id obra_id,
        k,
        v,
        ap (λ x. split_pot x capital pct tx.necessary_fee) suma,
      )

  devuelve :
      (n fee : ℕ) (s : Split) (tx : TxGasto)
      → (tx.necessary_fee == fee) ≡ true
      → verify_proposal_tx tx (la_propuesta tx) s ≡ bien tt
      → con_armado armar serialize obra_id contratista mandante pot capital pct
          (sigue n)
          fee
          s
          (armada tx)
        ≡ bien (la_propuesta tx, s)
  unfolding la_propuesta
  devuelve n fee s tx e v = ground (arith, e, v)

  con_armado-Firmable :
      (n fee : ℕ) (s : Split) (a : Armado) (r : SpendProposal V × Split)
      → split_pot pot capital pct fee ≡ bien s
      → ((f : ℕ) (q : SpendProposal V × Split) → sigue n f ≡ bien q → Firmable q)
      → con_armado armar serialize obra_id contratista mandante pot capital pct (sigue n) fee s a
        ≡ bien r
      → Firmable r
  unfolding la_propuesta
  con_armado-Firmable n fee s (armada tx) r k rest h = elim (Bool-cases (tx.necessary_fee == fee)) [
    | inl e ↦ elim (Logro-cases (verify_proposal_tx tx (la_propuesta tx) s)) [
      | inl (u, v) ↦ subst Firmable (bien_injective (sym (devuelve n fee s tx e v) ∙ h)) (
        firmable tx s
            (subst (λ x. split_pot pot capital pct x ≡ bien s)
              (sym ((==_iff tx.necessary_fee fee).0 e)) k)
            v,
        refl,
        refl,
      )
      | inr (f, v) ↦ absurd (ground (arith, e, v, h))
    ]
    | inr e ↦ rest tx.necessary_fee r (ground (arith, e, h))
  ]
  con_armado-Firmable n fee s (faltan_fondos need) r k rest h = rest need r h
  con_armado-Firmable n fee s no_armada r k rest h = cc

  vueltas-Firmable :
      (n fee : ℕ) (r : SpendProposal V × Split)
      → vueltas armar serialize obra_id contratista mandante pot capital pct n fee ≡ bien r
      → Firmable r
  unfolding vueltas la_propuesta
  vueltas-Firmable zero fee r h = cc
  vueltas-Firmable (suc n) fee r h = elim (Logro-cases (split_pot pot capital pct fee)) [
    | inl (s, k) ↦
        con_armado-Firmable n fee s (armar s.contratista s.mandante) r k (vueltas-Firmable n)
          (ground (arith, k, h))
    | inr (f, k) ↦ absurd (ground (arith, k, h))
  ]

-- What a party proposes, with a transaction that the Monero library reads back as it was written, the
-- other party begins to sign, and it is a proposal at the capital and the percentage that were asked.
pub propose-open_gasto :
    {V : Type 0} (armar : (contratista mandante : ℕ) → Armado) (serialize : TxGasto → V)
    (read : V → Option TxGasto)
    → ((tx : TxGasto) → read (serialize tx) ≡ some tx)
    → (obra_id contratista mandante : Text) (pot capital pct : ℕ) (r : SpendProposal V × Split)
    → propose armar serialize obra_id contratista mandante pot capital pct ≡ bien r
    → (open_gasto read obra_id r.0 ≡ bien tt) × (r.0.capital ≡ capital) × (r.0.pct ≡ pct)
unfolding propose
propose-open_gasto armar serialize read vuelve obra_id contratista mandante pot capital pct r h =
    vueltas-Firmable armar serialize read vuelve obra_id contratista mandante pot capital pct 6 0 r
      h
