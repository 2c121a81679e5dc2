-- ===== src/Motor/Acciones/Candado.antt =====
-- caja.rs of the motor: the end of the work and the payment wait until the funding can be spent.
use home_builder_pay.Base.{
  ℕ, ◌≤◌, ◌≡◌, refl, ◌⊎◌, true, false, ◌||◌, Option, none, some, List, arith, Text, is_some,
  get_elem?,
}
use home_builder_pay.Acuerdo.{Partida, PartidaEstado, Obra}
use home_builder_pay.Motor.{suma_sat, desbloqueo}
use home_builder_pay.Motor.Acciones.{
  Traba, trabada, traba_partida, traba_en, acciones_de, acciones_partida_con,
}
use home_builder_pay.Motor.Lineas.{Texto}

traba_en-libre :
    (altura tip : Option ℕ)
    → trabada (traba_en altura tip) ≡ false
    → (h : ℕ) × (t : ℕ) × (altura ≡ some h) × (tip ≡ some t) × (suma_sat h desbloqueo ≤ t)
traba_en-libre none tip k = absurd (ground arith)
traba_en-libre (some h) none k = absurd (ground arith)
traba_en-libre (some h) (some t) k = (h, t, refl, refl, ground arith)

-- Which buttons need the lock to be open.
acciones_de-trabada :
    (o : Obra) (i : ℕ) (p : Partida) (mid : Text) (lineas : List Texto) (t : Traba)
    → (acciones_de o i p mid lineas t).avisar_termino
        || (acciones_de o i p mid lineas t).aceptar_pago
      ≡ true
    → ((p.estado ≡ PartidaEstado.encerrada) ⊎ (p.estado ≡ PartidaEstado.en_trato))
      × (trabada t ≡ false)
unfolding acciones_de
acciones_de-trabada o i p mid lineas t h = ground arith

-- An installment that a transaction funds and none pays: whoever looks and whatever lines are shown,
-- the end of the work and the payment are offered only where the block of the funding and the tip are
-- known, and the tip is `desbloqueo` blocks beyond the funding.
pub acciones_candado :
    (o : Obra) (i : ℕ) (p : Partida) (mid : Text) (lineas : List Texto) (altura tip : Option ℕ)
    → get_elem? o.partidas i ≡ some p
    → is_some p.fondeo_txid ≡ true
    → is_some p.pago_txid ≡ false
    → let a = acciones_partida_con o i mid lineas (traba_partida p altura tip) in
      a.avisar_termino || a.aceptar_pago ≡ true
      → (h : ℕ) × (t : ℕ) × (altura ≡ some h) × (tip ≡ some t) × (suma_sat h desbloqueo ≤ t)
unfolding acciones_partida_con traba_partida
acciones_candado o i p mid lineas altura tip e hf hp h =
    traba_en-libre altura tip
      (ground (arith, acciones_de-trabada o i p mid lineas (traba_partida p altura tip)))
