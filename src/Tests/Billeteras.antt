-- ===== src/Tests/Billeteras.antt =====
-- The wallet of a job at concrete books and installments.
use home_builder_pay.Precio.{usd_a_piconero, coherente}
use home_builder_pay.Acuerdo.Partes.{activa}
use home_builder_pay.Base.{
  ℕ, ◌≤◌, ◌≡◌, refl, Bool, true, false, ◌||◌, ◌&&◌, some, List, [], ◌∷◌, arith, all, is_some, ltb,
  leb, text_eq,
}
use home_builder_pay.Acuerdo.{capital, Partida}
use home_builder_pay.Acuerdo.Invariante.{ObraValida, PartidaValida}
use home_builder_pay.Motor.{suma_sat, desbloqueo, usize_max}
use home_builder_pay.Motor.Acciones.{Traba, traba_partida, acciones_partida_con}
use home_builder_pay.Motor.Acciones.Candado.{acciones_candado}
use home_builder_pay.Motor.Acciones.Avance.{sigue, acciones_avanzan}
use home_builder_pay.Motor.Salidas.{Entradas, cobertura_caja, elegir_montos}
use home_builder_pay.Motor.Salidas.Cobertura.{cobertura, cobertura_caja_lem}
use home_builder_pay.Motor.Salidas.Envio.{total, ocho_menores, is_some-elegir_montos}
use home_builder_pay.Motor.Rastreo.{Entrada, nueva, rastrear, Turno, turnos}
use home_builder_pay.Motor.Rastreo.Alcance.{turnos_sabidos}
use home_builder_pay.Motor.Rastreo.Hallazgos.{sabida}
use home_builder_pay.Motor.Rastreo.Fin.{Acabado, rastrear_acaba}
use home_builder_pay.Tests.Muestras.{ana, luis, libre, obra, encerrada, en_trato}

abbrev fondeada : Partida
fondeada = record encerrada { fondeo_txid = some (7 ∷ []) }

acciones_candado_example :
    (h : ℕ) × (t : ℕ) × (some 100 ≡ some h) × (some 110 ≡ some t) × (suma_sat h desbloqueo ≤ t)
unfolding acciones_partida_con text_eq traba_partida suma_sat usize_max
acciones_candado_example =
    acciones_candado (obra fondeada) 0 fondeada luis.id [] (some 100) (some 110) refl refl refl refl

en_trato-PartidaValida : PartidaValida true 200000 en_trato
unfolding coherente usd_a_piconero capital
en_trato-PartidaValida = record {
  con_proponente = ground arith;
  con_turno = ground arith;
  con_propuesta = ground arith;
  con_pago = ground arith;
  con_recibo = ground arith;
  con_precio = λ _ _. refl;
}

libre-PartidaValida : PartidaValida true 200000 libre
libre-PartidaValida = record {
  con_proponente = ground arith;
  con_turno = ground arith;
  con_propuesta = ground arith;
  con_pago = ground arith;
  con_recibo = ground arith;
  con_precio = ground arith;
}

pub en_trato-ObraValida : ObraValida (obra en_trato)
en_trato-ObraValida = record {
  cuenta = refl;
  partidas_validas = (en_trato-PartidaValida, (libre-PartidaValida, tt));
  contra_valida = tt;
  cerrada_pagada = λ e. absurd (ground arith);
}

acciones_avanzan_example :
    sigue (acciones_partida_con (obra en_trato) 0 ana.id [] Traba.libre)
      || sigue (acciones_partida_con (obra en_trato) 0 luis.id [] Traba.libre)
    ≡ true
unfolding activa text_eq
acciones_avanzan_example =
    acciones_avanzan (obra en_trato) 0 en_trato en_trato-ObraValida refl refl refl refl refl refl

-- Amounts and heights.
abbrev salidas : Entradas
salidas = (900, 10) ∷ (500, 20) ∷ (700, 12) ∷ (500, 11) ∷ []

cobertura_caja_lem_example :
    cobertura_caja salidas (some 25) true 0 25 0 500 2 ≡ cobertura salidas 25 true 25 0 500 2
cobertura_caja_lem_example = cobertura_caja_lem salidas 25 true 0 25 0 500 2 (omega arith)

abbrev menudas : List ℕ
menudas = 1 ∷ 1 ∷ 1 ∷ 1 ∷ 1 ∷ 1 ∷ 1 ∷ 1 ∷ 5_000_000_000 ∷ []

is_some-elegir_montos_example :
    is_some (elegir_montos menudas 50) ≡ (ltb 0 50 && leb 50 (total (ocho_menores menudas)))
unfolding usize_max
is_some-elegir_montos_example = is_some-elegir_montos menudas 50 (omega arith)

-- A chain with one output, in block 60.
abbrev cadena : ℕ → List Entrada
cadena b = if_60 (leb b 60 && leb 60 b)
  where
    if_60 : Bool → List Entrada
    if_60 true = record { altura = 60; monto = 500; tx = 7 ∷ []; indice = 1; raw = [] } ∷ []
    if_60 false = []

abbrev rato : List Turno
rato = Turno.mira 70 ∷ Turno.pide 70 ∷ Turno.mira 72 ∷ Turno.mira 72 ∷ []

turnos_sabidos_example : all (sabida (turnos cadena rato (nueva [])).entradas) (cadena 60) ≡ true
unfolding usize_max turnos suma_sat
turnos_sabidos_example =
    turnos_sabidos cadena [] rato 60 (omega arith, (tt, (omega arith, (omega arith, tt)))) refl
      (omega arith) (omega arith)

rastrear_acaba_example : Acabado cadena 70 (rastrear cadena 1 70 (nueva []))
unfolding usize_max
rastrear_acaba_example = rastrear_acaba cadena 70 1 (nueva []) (omega arith) (omega arith)
