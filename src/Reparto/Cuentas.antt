-- ===== src/Reparto/Cuentas.antt =====
-- How much each party is paid.
use home_builder_pay.Base.{
  ℕ, ◌+◌, ◌-◌, ◌*◌, ◌/◌, ◌%◌, ◌≤◌, ◌<◌, ◌≡◌, refl, sym, ap, ◌∙◌, inl, inr, ◌⊎◌, arith, ltb, leb,
  Bool-cases,
}
use home_builder_pay.Montos.{u64_mod}
use home_builder_pay.Motor.{usize_max}
use home_builder_pay.Reparto.{
  Logro, bien, mal, FalloGasto, Split, cerrar, con_fee, dust_mandante, dust_contratista, split_base,
  split_pot, split_pot_legacy, principal_de, mas64, menos64, ◌>>=◌,
}

-- The two parts without wrapping around.
abbrev pub al_mandante : (capital pct fee : ℕ) → ℕ
al_mandante capital pct fee = capital - capital * pct / 100 - fee

abbrev pub al_contratista : (capital pct fee : ℕ) → ℕ
al_contratista capital pct fee = 2 * capital - fee - al_mandante capital pct fee

principal-exacto :
    (capital pct : ℕ)
    → capital * 100 < u64_mod
    → pct ≤ 100
    → principal_de capital pct ≡ capital * pct / 100
principal-exacto capital pct h p = grind arith

principal-le : (capital pct : ℕ) → pct ≤ 100 → capital * pct / 100 ≤ capital
principal-le capital pct p = grind arith

-- A payment at a percentage up to 100 of two equal capitals, below 2^64 / 100 each, with a fee that is
-- less than both together, is divided.
pub split_pot_lem :
    (capital pct fee : ℕ)
    → 0 < capital
    → capital * 100 < u64_mod
    → pct ≤ 100
    → fee < 2 * capital
    → split_pot (2 * capital) capital pct fee
      ≡ bien (record {
        contratista = al_contratista capital pct fee;
        mandante = al_mandante capital pct fee;
        fee = fee;
      })
unfolding split_pot split_base usize_max
split_pot_lem capital pct fee z h p f =
    grind (arith, principal-exacto capital pct h p, principal-le capital pct p)

abbrev pub Conserva : ℕ → ℕ → Split → Type 0
Conserva pot fee s = ((s.contratista + s.mandante + s.fee) % u64_mod ≡ pot) × (s.fee ≡ fee)

cerrar-Conserva : (pot fee c m : ℕ) (s : Split) → cerrar pot fee c m ≡ bien s → Conserva pot fee s
cerrar-Conserva pot fee c m s h = ground arith

con_fee-Conserva : (pot fee c m : ℕ) (s : Split) → con_fee pot fee c m ≡ bien s → Conserva pot fee s
con_fee-Conserva pot fee c m s h = elim (Bool-cases (leb fee m)) [
  | inl e ↦ cerrar-Conserva pot fee c (m - fee) s (ground (arith, e, h))
  | inr e ↦ elim (Bool-cases (ltb c (fee - m))) [
    | inl k ↦ absurd (ground (arith, e, k, h))
    | inr k ↦ cerrar-Conserva pot fee (c - (fee - m)) 0 s (ground (arith, e, k, h))
  ]
]

split_base-Conserva :
    (pot capital pct fee : ℕ) (s : Split)
    → split_base pot capital pct fee ≡ bien s
    → Conserva pot fee s
unfolding split_base
split_base-Conserva pot capital pct fee s h =
    con_fee-Conserva pot fee (mas64 capital (principal_de capital pct))
      (menos64 capital (principal_de capital pct)) s (ground (arith, h))

dust_mandante-Conserva :
    (pot fee : ℕ) (r s : Split) → Conserva pot fee r → dust_mandante r ≡ bien s → Conserva pot fee s
dust_mandante-Conserva pot fee r s c h = ground (arith, h, c)

dust_contratista-Conserva :
    (pot fee : ℕ) (r s : Split)
    → Conserva pot fee r
    → dust_contratista r ≡ bien s
    → Conserva pot fee s
dust_contratista-Conserva pot fee r s c h = ground (arith, h, c)

pub Logro-cases :
    {A : Type 0} (r : Logro A) → ((a : A) × (r ≡ bien a)) ⊎ ((e : FalloGasto) × (r ≡ mal e))
Logro-cases (bien a) = inl (a, refl)
Logro-cases (mal e) = inr (e, refl)

dusts-Conserva :
    (pot fee : ℕ) (r s : Split)
    → Conserva pot fee r
    → (dust_mandante r >>= dust_contratista) ≡ bien s
    → Conserva pot fee s
dusts-Conserva pot fee r s c h = elim (Logro-cases (dust_mandante r)) [
  | inl (q, e) ↦
      dust_contratista-Conserva pot fee q s (dust_mandante-Conserva pot fee r q c e)
        (sym (ap (λ x. x >>= dust_contratista) e) ∙ h)
  | inr (f, e) ↦ absurd (cc (sym (ap (λ x. x >>= dust_contratista) e) ∙ h))
]

-- Whatever the amounts, what a division pays to the two parties and to the network adds up to the pot,
-- modulo 2^64, and the fee is the one that was given; the older division does the same.
pub split_pot-Conserva :
    (pot capital pct fee : ℕ) (s : Split)
    → (split_pot pot capital pct fee ≡ bien s) ⊎ (split_pot_legacy pot capital pct fee ≡ bien s)
    → Conserva pot fee s
unfolding split_pot split_pot_legacy
split_pot-Conserva pot capital pct fee s (inl h) = split_base-Conserva pot capital pct fee s h
split_pot-Conserva pot capital pct fee s (inr h) =
    elim (Logro-cases (split_base pot capital pct fee)) [
      | inl (r, e) ↦
          dusts-Conserva pot fee r s (split_base-Conserva pot capital pct fee r e)
            (sym (ap (λ x. x >>= dust_mandante >>= dust_contratista) e) ∙ h)
      | inr (f, e) ↦ absurd (cc (sym (ap (λ x. x >>= dust_mandante >>= dust_contratista) e) ∙ h))
    ]

principal_mono : (capital pct mas : ℕ) → pct ≤ mas → capital * pct / 100 ≤ capital * mas / 100
principal_mono capital pct mas h = grind arith

partes_mono :
    (capital pct mas fee : ℕ)
    → pct ≤ mas
    → mas ≤ 100
    → (al_contratista capital pct fee ≤ al_contratista capital mas fee)
      × (al_mandante capital mas fee ≤ al_mandante capital pct fee)
      × (capital ≤ al_contratista capital pct fee + (fee - capital))
partes_mono capital pct mas fee h p =
    grind (arith, principal_mono capital pct mas h, principal-le capital mas p)

-- Of two divisions of the same capitals, below 2^64 / 100 each, with the same fee, which is less than both
-- together, the one at the higher percentage pays the contractor no less and the client no more. At the
-- lower one the contractor is paid the capital of that side at least, less what the fee is over the
-- capital.
pub split_pot_mono :
    (capital pct mas fee : ℕ) (s r : Split)
    → 0 < capital
    → capital * 100 < u64_mod
    → pct ≤ mas
    → mas ≤ 100
    → fee < 2 * capital
    → split_pot (2 * capital) capital pct fee ≡ bien s
    → split_pot (2 * capital) capital mas fee ≡ bien r
    → (s.contratista ≤ r.contratista)
      × (r.mandante ≤ s.mandante)
      × (capital ≤ s.contratista + (fee - capital))
split_pot_mono capital pct mas fee s r z h p q f hs hr =
    let a = split_pot_lem capital pct fee z h (omega arith) f in
    let b = split_pot_lem capital mas fee z h q f in
    grind (arith, a, b, partes_mono capital pct mas fee p q)
