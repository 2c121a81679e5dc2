-- ===== src/Tests/Repartos.antt =====
-- The division of a payment at concrete amounts.
use home_builder_pay.Base.{ℕ, ◌+◌, ◌≤◌, ◌≡◌, refl, inl, some, [], ◌∷◌, arith, List, Option, text_eq}
use home_builder_pay.Motor.{usize_max}
use home_builder_pay.Reparto.{
  bien, Split, split_base, split_pot, TxGasto, SpendProposal, verify_proposal_tx, open_gasto,
  Armado, armada, propose,
}
use home_builder_pay.Reparto.Cuentas.{split_pot_lem, split_pot-Conserva, split_pot_mono, Conserva}
use home_builder_pay.Reparto.Firma.{open_gasto-Paga}
use home_builder_pay.Reparto.Acuerdo.{propose-open_gasto}

abbrev ochenta : Split
ochenta = record { contratista = 18000; mandante = 1900; fee = 100 }

split_pot_lem_example : split_pot 20000 10000 80 100 ≡ bien ochenta
split_pot_lem_example =
    split_pot_lem 10000 80 100 (omega arith) (omega arith) (omega arith) (omega arith)

split_pot-Conserva_example : Conserva 20000 100 ochenta
unfolding split_pot split_base usize_max
split_pot-Conserva_example = split_pot-Conserva 20000 10000 80 100 ochenta (inl refl)

abbrev cien : Split
cien = record { contratista = 19900; mandante = 0; fee = 100 }

split_pot_mono_example : (18000 ≤ 19900) × (0 ≤ 1900) × (10000 ≤ 18000 + 0)
unfolding split_pot split_base usize_max
split_pot_mono_example =
    split_pot_mono 10000 80 100 100 ochenta cien (omega arith) (omega arith) (omega arith)
      (omega arith) (omega arith) refl refl

-- A transaction that pays the two parts, written as the empty list of bytes.
abbrev tx : TxGasto
tx = record {
  input_sum = 20000;
  necessary_fee = 100;
  external_payments = (1 ∷ [], 18000) ∷ (2 ∷ [], 1900) ∷ [];
}

abbrev pedido : SpendProposal (List ℕ)
pedido = record {
  obra_id = 7 ∷ [];
  capital = 10000;
  pct = 80;
  contratista = 1 ∷ [];
  mandante = 2 ∷ [];
  signable = [];
}

abbrev lee : List ℕ → Option TxGasto
lee b = some tx

open_gasto-Paga_example : (t : TxGasto) × (s : Split) × (some tx ≡ some t)
unfolding open_gasto text_eq split_pot verify_proposal_tx
open_gasto-Paga_example = let r = open_gasto-Paga lee (7 ∷ []) pedido refl in (r.0, r.1, r.2)

-- The library gives that transaction for these parts at the second turn of the loop.
abbrev arma : ℕ → ℕ → Armado
arma c m = armada tx

abbrev propuesto : SpendProposal TxGasto
propuesto = record {
  obra_id = 7 ∷ [];
  capital = 10000;
  pct = 80;
  contratista = 1 ∷ [];
  mandante = 2 ∷ [];
  signable = tx;
}

propose-open_gasto_example :
    (open_gasto some (7 ∷ []) propuesto ≡ bien tt)
    × (propuesto.capital ≡ 10000)
    × (propuesto.pct ≡ 80)
unfolding propose split_pot verify_proposal_tx text_eq
propose-open_gasto_example =
    propose-open_gasto arma (λ t. t) some (λ t. refl) (7 ∷ []) (1 ∷ []) (2 ∷ []) 20000 10000 80
      (propuesto, ochenta) refl
