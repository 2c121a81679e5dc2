-- ===== src/Tests/Copias.antt =====
-- Merges: the theorems of Fusion at concrete copies.
use home_builder_pay.Base.{◌≡◌, ◌≢◌, ◌≤◌, refl, none, some, arith}
use home_builder_pay.Acuerdo.{Partida, Obra, EstadoObra, PartidaEstado, rango_obra}
use home_builder_pay.Fusion.Mezcla.{fusionar_partida}
use home_builder_pay.Fusion.{fusionar}
use home_builder_pay.Fusion.Partidas.{fusionar_partida_pagada, fusionar_partida_converge}
use home_builder_pay.Fusion.Obras.{fusionar-rango}
use home_builder_pay.Tests.Muestras.{ana, luis, libre, propuesta_por, encerrada, cobrada_ya, obra}

-- A lock that was cancelled later wins over the proposal.
abbrev cancelada : Partida
cancelada = record libre { encerrar_seq = 2 }

fusionar_partida_pagada_example :
    ((fusionar_partida cobrada_ya encerrada).estado ≡ PartidaEstado.pagada)
    × ((fusionar_partida cobrada_ya encerrada).turno ≡ none)
    × ((fusionar_partida cobrada_ya encerrada).pago ≡ cobrada_ya.pago)
    × ((fusionar_partida cobrada_ya encerrada).recibo ≡ cobrada_ya.recibo)
    × ((fusionar_partida cobrada_ya encerrada).fondeo_txid ≡ none)
    × ((fusionar_partida cobrada_ya encerrada).pago_txid ≡ none)
fusionar_partida_pagada_example = fusionar_partida_pagada cobrada_ya encerrada refl refl refl

ana_no_luis : ana.id ≢ luis.id
ana_no_luis h = absurd (ground arith)

fusionar_partida_converge_example :
    ((fusionar_partida (propuesta_por ana) (propuesta_por luis)).encerrado_por
      ≡ (fusionar_partida (propuesta_por luis) (propuesta_por ana)).encerrado_por)
    × ((fusionar_partida (propuesta_por ana) (propuesta_por luis)).encerrado_cuando
        ≡ (fusionar_partida (propuesta_por luis) (propuesta_por ana)).encerrado_cuando)
    × ((fusionar_partida (propuesta_por ana) (propuesta_por luis)).precio
        ≡ (fusionar_partida (propuesta_por luis) (propuesta_por ana)).precio)
fusionar_partida_converge_example =
    fusionar_partida_converge (propuesta_por ana) (propuesta_por luis) ana luis refl refl refl refl
      refl ana_no_luis refl

-- A copy under way, and one in which Ana has ended the job.
abbrev en_marcha : Obra
en_marcha = record (obra (propuesta_por ana)) {
  estado = EstadoObra.en_marcha;
  cierre = some luis;
  cierre_seq = 1;
}

abbrev abandonada : Obra
abandonada = record (obra libre) { estado = EstadoObra.abandonada; extra_seq = 1; cierre_seq = 1 }

fusionar-rango_example :
    (4 ≤ rango_obra (fusionar en_marcha abandonada).estado)
    × (5 ≤ rango_obra (fusionar en_marcha abandonada).estado)
fusionar-rango_example = fusionar-rango en_marcha abandonada
