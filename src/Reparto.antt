-- ===== src/Reparto.antt =====
-- crates/xmr-joint/src/spend.rs: how a payment divides what the two parties have locked, and the check of
-- a payment that the other party proposes. The transaction of the Monero library is what the code reads
-- of it: the sum of its inputs, its fee and its payments; the signatures are left out. The build for
-- release has no overflow checks, so a `u64` wraps around.
pub mod Cuentas
pub mod Firma
pub mod Acuerdo
use home_builder_pay.Base.{
  ℕ, suc, zero, ◌+◌, ◌-◌, ◌*◌, ◌/◌, ◌%◌, Bool, true, false, ◌&&◌, ◌||◌, not, Option, none, some,
  List, [], ◌∷◌, if◌then◌else◌, ltb, leb, ◌==◌, Text, text_eq,
}
use home_builder_pay.Montos.{u64_mod}
use home_builder_pay.Motor.{usize_max}

-- The errors, which the source writes as texts.
pub data FalloGasto : Type 0 where
  pasa_de_100 pote fee_del_pote sin_fee no_cierra sin_dust_mandante sin_dust_contratista :
      FalloGasto
  otra_obra ilegible inputs otro_fee destino montos sin_cierre : FalloGasto

pub data Logro (A : Type 0) : Type 0 where
  bien : A → Logro A
  mal : FalloGasto → Logro A

-- `?`
infixl 5 ◌>>=◌
abbrev pub ◌>>=◌ : {A B : Type 0} → Logro A → (A → Logro B) → Logro B
bien a >>= f = f a
mal e >>= f = mal e

abbrev pub salvo : Bool → FalloGasto → Logro (Unit {0})
salvo b e = if b then mal e else bien tt

pub record Split : Type 0 where
  pub contratista : ℕ  -- u64
  pub mandante : ℕ  -- u64
  pub fee : ℕ  -- u64

-- `saturating_mul(2)`
abbrev pub doble : ℕ → ℕ
doble n = if ltb usize_max (2 * n) then usize_max else 2 * n

abbrev pub mas64 : ℕ → ℕ → ℕ
mas64 a b = (a + b) % u64_mod

-- A subtraction whose operands the code has compared, or that wraps around.
abbrev pub menos64 : ℕ → ℕ → ℕ
menos64 a b = if leb b a then a - b else a + u64_mod - b

abbrev pub cerrar : (pot fee to_contratista to_mandante : ℕ) → Logro Split
cerrar pot fee c m =
    if mas64 (mas64 c m) fee == pot
    then bien (record { contratista = c; mandante = m; fee = fee })
    else mal FalloGasto.no_cierra

abbrev pub con_fee : (pot fee to_contratista to_mandante : ℕ) → Logro Split
con_fee pot fee c m =
    if leb fee m
    then cerrar pot fee c (m - fee)
    else if ltb c (fee - m)
    then mal FalloGasto.sin_fee
    else cerrar pot fee (c - (fee - m)) 0

abbrev pub principal_de : ℕ → ℕ → ℕ
principal_de capital pct = capital * pct % u64_mod / 100

unfoldable pub split_base : (pot capital pct fee : ℕ) → Logro Split
unfolding usize_max
split_base pot capital pct fee =
    if ltb 100 pct
    then mal FalloGasto.pasa_de_100
    else if capital == 0 || not (pot == doble capital)
    then mal FalloGasto.pote
    else if leb pot fee
    then mal FalloGasto.fee_del_pote
    else con_fee pot fee (mas64 capital (principal_de capital pct))
        (menos64 capital (principal_de capital pct))

unfoldable pub split_pot : (pot capital pct fee : ℕ) → Logro Split
unfolding split_base
split_pot pot capital pct fee = split_base pot capital pct fee

abbrev pub dust_mandante : Split → Logro Split
dust_mandante s =
    if s.mandante == 0
    then (if ltb s.contratista 2
        then mal FalloGasto.sin_dust_mandante
        else bien (record s { contratista = s.contratista - 1; mandante = 1 }))
    else bien s

abbrev pub dust_contratista : Split → Logro Split
dust_contratista s =
    if s.contratista == 0
    then (if ltb s.mandante 2
        then mal FalloGasto.sin_dust_contratista
        else bien (record s { mandante = s.mandante - 1; contratista = 1 }))
    else bien s

unfoldable pub split_pot_legacy : (pot capital pct fee : ℕ) → Logro Split
unfolding split_base
split_pot_legacy pot capital pct fee =
    split_base pot capital pct fee >>= dust_mandante >>= dust_contratista

-- What is read of a `SignableTransaction`.
pub record TxGasto : Type 0 where
  pub input_sum : ℕ
  pub necessary_fee : ℕ
  pub external_payments : List (Text × ℕ)

-- The bytes of a transaction, which only the library reads, are the type `V`.
pub record SpendProposal (V : Type 0) : Type 0 where
  pub obra_id : Text
  pub capital : ℕ  -- u64
  pub pct : ℕ  -- u32
  pub contratista : Text
  pub mandante : Text
  pub signable : V

-- The loop of `verify_proposal_tx`: what goes to each of the two addresses.
unfoldable pub repasar :
    (contratista mandante : Text)
    → List (Text × ℕ)
    → (got_c got_m : Option ℕ) → Logro (Option ℕ × Option ℕ)
repasar c m [] gc gm = bien (gc, gm)
repasar c m ((a, n) ∷ ps) gc gm =
    let al_contratista = repasar c m ps (some n) gm in
    let al_mandante = repasar c m ps gc (some n) in
    if text_eq a c
    then al_contratista
    else if text_eq a m
    then al_mandante
    else mal FalloGasto.destino

abbrev pub es_monto : Option ℕ → ℕ → Bool
es_monto none n = false
es_monto (some k) n = k == n

unfoldable pub verify_proposal_tx :
    {V : Type 0} → TxGasto → SpendProposal V → Split → Logro (Unit {0})
unfolding repasar usize_max
verify_proposal_tx tx p s = salvo (not (tx.input_sum == doble p.capital)) FalloGasto.inputs >>= λ _.
    salvo (not (tx.necessary_fee == s.fee)) FalloGasto.otro_fee >>= λ _.
    repasar p.contratista p.mandante tx.external_payments none none >>= λ got.
    salvo (not (es_monto got.0 s.contratista && es_monto got.1 s.mandante)) FalloGasto.montos

abbrev pub es_bien : {A : Type 0} → Logro A → Bool
es_bien (bien a) = true
es_bien (mal e) = false

abbrev leida : Option TxGasto → Logro TxGasto
leida none = mal FalloGasto.ilegible
leida (some tx) = bien tx

abbrev pub revisar_reparto : {V : Type 0} → TxGasto → SpendProposal V → Split → Logro (Unit {0})
revisar_reparto tx p s =
    if es_bien (verify_proposal_tx tx p s)
    then bien tt
    else split_pot_legacy tx.input_sum p.capital p.pct tx.necessary_fee >>= λ v.
        verify_proposal_tx tx p v

-- `SpendSession::open`, up to the keys: `obra_id` is that of the joint account, `read` is
-- `SignableTransaction::read`.
unfoldable pub open_gasto :
    {V : Type 0} (read : V → Option TxGasto) (obra_id : Text) → SpendProposal V → Logro (Unit {0})
open_gasto read obra_id p = salvo (not (text_eq p.obra_id obra_id)) FalloGasto.otra_obra >>= λ _.
    leida (read p.signable) >>= λ tx.
    split_pot tx.input_sum p.capital p.pct tx.necessary_fee >>= λ s. revisar_reparto tx p s

-- What `SignableTransaction::new` answers.
pub data Armado : Type 0 where
  armada : TxGasto → Armado
  faltan_fondos : (necessary_fee : ℕ) → Armado
  no_armada : Armado

module _ {V : Type 0} (armar : (contratista mandante : ℕ) → Armado) (serialize : TxGasto → V)
    (obra_id contratista mandante : Text) (pot capital pct : ℕ) where
  abbrev pub propuesta : TxGasto → SpendProposal V
  propuesta tx = record {
    obra_id = obra_id;
    capital = capital;
    pct = pct;
    contratista = contratista;
    mandante = mandante;
    signable = serialize tx;
  }

  abbrev pub con_armado :
      (otra_vuelta : ℕ → Logro (SpendProposal V × Split))
      → (fee_guess : ℕ) → Split
      → Armado
      → Logro (SpendProposal V × Split)
  con_armado otra fee s (armada tx) =
      if tx.necessary_fee == fee
      then (verify_proposal_tx tx (propuesta tx) s >>= λ _. bien (propuesta tx, s))
      else otra tx.necessary_fee
  con_armado otra fee s (faltan_fondos need) = otra need
  con_armado otra fee s no_armada = mal FalloGasto.ilegible

  -- The loop: `n` turns are left.
  unfoldable pub vueltas : (n fee_guess : ℕ) → Logro (SpendProposal V × Split)
  vueltas zero fee = mal FalloGasto.sin_cierre
  vueltas (suc n) fee = split_pot pot capital pct fee >>= λ s.
      con_armado (vueltas n) fee s (armar s.contratista s.mandante)

  unfoldable pub propose : Logro (SpendProposal V × Split)
  unfolding vueltas
  propose = vueltas 6 0
