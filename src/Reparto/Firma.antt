-- ===== src/Reparto/Firma.antt =====
-- What a party knows of a payment when it begins to sign it.
use home_builder_pay.Base.{
  ℕ, ◌≡◌, inl, inr, ◌⊎◌, Bool, true, ◌&&◌, ◌||◌, Option, none, some, List, [], ◌∷◌, arith, ◌==◌,
  any, all, Text, text_eq, Bool-cases, Option-cases,
}
use home_builder_pay.Reparto.{
  bien, Split, split_pot, split_pot_legacy, TxGasto, SpendProposal, repasar, es_monto,
  verify_proposal_tx, open_gasto, revisar_reparto,
}
use home_builder_pay.Reparto.Cuentas.{Logro-cases}

abbrev pub va_a : Text → Text → Text × ℕ → Bool
va_a c m q = text_eq q.0 c || text_eq q.0 m

abbrev pub paga : Text → ℕ → Text × ℕ → Bool
paga a n q = text_eq q.0 a && q.1 == n

abbrev Visto : (c m : Text) → List (Text × ℕ) → (gc gm : Option ℕ) → Option ℕ × Option ℕ → Type 0
Visto c m ps gc gm got =
    (all (va_a c m) ps ≡ true)
    × ((n : ℕ) → es_monto got.0 n ≡ true → (es_monto gc n || any (paga c n) ps) ≡ true)
    × ((n : ℕ) → es_monto got.1 n ≡ true → (es_monto gm n || any (paga m n) ps) ≡ true)

repasar-Visto :
    (c m : Text) (ps : List (Text × ℕ)) (gc gm : Option ℕ) (got : Option ℕ × Option ℕ)
    → repasar c m ps gc gm ≡ bien got
    → Visto c m ps gc gm got
unfolding repasar
repasar-Visto c m [] gc gm got h = ground arith
repasar-Visto c m ((a, n) ∷ ps) gc gm got h = elim (Bool-cases (text_eq a c)) [
  | inl e ↦
      let v = repasar-Visto c m ps (some n) gm got (ground (arith, e, h)) in
      (ground (arith, e, v.0), λ k g. ground (arith, e, v.1 k g), λ k g. ground (arith, v.2 k g))
  | inr e ↦ elim (Bool-cases (text_eq a m)) [
    | inl l ↦
        let v = repasar-Visto c m ps gc (some n) got (ground (arith, e, l, h)) in
        (ground (arith, l, v.0), λ k g. ground (arith, v.1 k g), λ k g. ground (arith, l, v.2 k g))
    | inr l ↦ absurd (ground (arith, e, l, h))
  ]
]

-- The payments of a transaction: each goes to one of the two addresses of the proposal, and each address
-- gets what the division gives it.
abbrev pub Paga : {V : Type 0} → SpendProposal V → TxGasto → Split → Type 0
Paga p tx s =
    (all (va_a p.contratista p.mandante) tx.external_payments ≡ true)
    × (any (paga p.contratista s.contratista) tx.external_payments ≡ true)
    × (any (paga p.mandante s.mandante) tx.external_payments ≡ true)

verify_proposal_tx-Paga :
    {V : Type 0} (tx : TxGasto) (p : SpendProposal V) (s : Split)
    → verify_proposal_tx tx p s ≡ bien tt
    → Paga p tx s
unfolding verify_proposal_tx
verify_proposal_tx-Paga tx p s h =
    elim (Logro-cases (repasar p.contratista p.mandante tx.external_payments none none)) [
      | inl (got, e) ↦
          let v = repasar-Visto p.contratista p.mandante tx.external_payments none none got e in
          (v.0, ground (arith, e, h, v.1 s.contratista), ground (arith, e, h, v.2 s.mandante))
      | inr (f, e) ↦ absurd (ground (arith, e, h))
    ]

revisar-Paga :
    {V : Type 0} (tx : TxGasto) (p : SpendProposal V) (s : Split)
    → split_pot tx.input_sum p.capital p.pct tx.necessary_fee ≡ bien s
    → revisar_reparto tx p s ≡ bien tt
    → (r : Split) × ((split_pot tx.input_sum p.capital p.pct tx.necessary_fee ≡ bien r)
        ⊎ (split_pot_legacy tx.input_sum p.capital p.pct tx.necessary_fee ≡ bien r))
      × Paga p tx r
revisar-Paga tx p s k h = elim (Logro-cases (verify_proposal_tx tx p s)) [
  | inl (u, e) ↦ (s, inl k, verify_proposal_tx-Paga tx p s e)
  | inr (f, e) ↦
      elim (Logro-cases (split_pot_legacy tx.input_sum p.capital p.pct tx.necessary_fee)) [
        | inl (v, l) ↦ (v, inr l, verify_proposal_tx-Paga tx p v (ground (arith, e, l, h)))
        | inr (g, l) ↦ absurd (ground (arith, e, l, h))
      ]
]

-- A party that begins to sign a payment has read a transaction from the proposal, and the proposal is of
-- the job of the joint account. Every payment of that transaction goes to one of the two addresses of the
-- proposal, and both addresses get what the division, in the present or in the older form, gives them at
-- the capital and the percentage of the proposal.
pub open_gasto-Paga :
    {V : Type 0} (read : V → Option TxGasto) (obra_id : Text) (p : SpendProposal V)
    → open_gasto read obra_id p ≡ bien tt
    → (tx : TxGasto) × (s : Split) × (read p.signable ≡ some tx)
      × (text_eq p.obra_id obra_id ≡ true)
      × ((split_pot tx.input_sum p.capital p.pct tx.necessary_fee ≡ bien s)
          ⊎ (split_pot_legacy tx.input_sum p.capital p.pct tx.necessary_fee ≡ bien s))
      × Paga p tx s
unfolding open_gasto
open_gasto-Paga read obra_id p h = elim (Option-cases (read p.signable)) [
  | inl e ↦ absurd (ground (arith, e, h))
  | inr (tx, e) ↦ elim (Logro-cases (split_pot tx.input_sum p.capital p.pct tx.necessary_fee)) [
    | inl (s, k) ↦
        let (r, d, g) = revisar-Paga tx p s k (ground (arith, e, k, h)) in
        (tx, r, e, ground (arith, e, k, h), d, g)
    | inr (f, k) ↦ absurd (ground (arith, e, k, h))
  ]
]
