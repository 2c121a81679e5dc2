-- ===== src/Acuerdo/Partes.antt =====
-- acuerdo.rs, the methods of `Obra` on extra installments, on the end of a job, and its queries.
use home_builder_pay.Base.{
  ℕ, suc, ◌+◌, ◌%◌, Bool, ◌&&◌, ◌||◌, not, Option, none, some, List, [], ◌∷◌, ◌++◌, ltb,
  if◌then◌else◌, ℤ, Error, Text, text_eq, is_none, is_empty, any,
}
use home_builder_pay.Precio.{checked_add}
use home_builder_pay.Montos.{limpia_detalle, u32_mod}
use home_builder_pay.Acuerdo.{
  Persona, EstadoObra, Partida, Obra, obra_en_estado, sat_suc, pendiente_monto,
}
use home_builder_pay.Acuerdo.Paso.{Paso, ◌>>=◌, ◌>>◌, exigir, exigir_some, leer, modificar}
use home_builder_pay.Acuerdo.Operaciones.{rol_de, tocar, hay_riesgo, esta_terminada, es_pagada}

-- `extra_en_curso`
abbrev pub en_curso : Obra → Bool
en_curso o = obra_en_estado o EstadoObra.acordada || obra_en_estado o EstadoObra.en_marcha

abbrev extra_en_curso : Paso (Unit {0})
extra_en_curso o = exigir (en_curso o) Error.no_toca o

unfoldable pub proponer_extra : Persona → Text → ℕ → ℤ → Paso (Unit {0})
proponer_extra quien texto monto now = do
  rol ← rol_de quien.id
  extra_en_curso
  exigir (is_none (← leer (λ o. o.extra))) Error.ya_existe
  exigir (ltb 0 monto) Error.monto
  exigir (not (is_empty (limpia_detalle texto))) Error.detalle
  modificar λ o. record o {
    extra_seq = sat_suc o.extra_seq;
    extra =
        some (record {
          detalle = limpia_detalle texto;
          monto = monto;
          por = quien;
          detalle_caja = [];
        });
  }
  tocar now

-- `self.extra.take().ok_or(Error::NoEsta)?`, and the check that puts it back: the extra stays taken
-- only if it is another's.
unfoldable pub aceptar_extra : Persona → ℤ → Paso (Unit {0})
unfolding pendiente_monto
aceptar_extra quien now = do
  rol ← rol_de quien.id
  extra_en_curso
  extra ← exigir_some (← leer (λ o. o.extra)) Error.no_esta
  exigir (not (text_eq extra.por.id quien.id)) Error.no_toca
  modificar λ o. record o { extra = none }
  trabajo ← exigir_some (checked_add (← leer (λ o. o.trabajo)) extra.monto) Error.monto
  modificar λ o. record o {
    trabajo = trabajo;
    n_partidas = (o.n_partidas + 1) % u32_mod;
    partidas = o.partidas ++ pendiente_monto extra.detalle extra.monto ∷ [];
    extra_seq = sat_suc o.extra_seq;
  }
  tocar now

unfoldable pub rechazar_extra : Persona → ℤ → Paso (Unit {0})
rechazar_extra quien now = do
  rol ← rol_de quien.id
  extra_en_curso
  extra ← exigir_some (← leer (λ o. o.extra)) Error.no_esta
  exigir (not (text_eq extra.por.id quien.id)) Error.no_toca
  modificar λ o. record o { extra = none }
  modificar λ o. record o { extra_seq = sat_suc o.extra_seq }
  tocar now

abbrev abandonada_ya : Obra → Obra
abandonada_ya o = record o {
  estado = EstadoObra.abandonada;
  extra = none;
  extra_seq = sat_suc o.extra_seq;
  cierre = none;
  cierre_seq = sat_suc o.cierre_seq;
}

-- With no installment at risk the job ends at once; else the other side has to agree.
unfoldable pub abandonar : Persona → ℤ → Paso (Unit {0})
abandonar quien now = do
  rol ← rol_de quien.id
  exigir (not (← leer esta_terminada)) Error.ya_existe
  riesgo ← leer hay_riesgo
  exigir (not riesgo || is_none (← leer (λ o. o.cierre))) Error.ya_existe
  modificar λ o.
      if riesgo
      then record o { cierre = some quien; cierre_seq = sat_suc o.cierre_seq }
      else abandonada_ya o
  tocar now

unfoldable pub aceptar_cierre : Persona → ℤ → Paso (Unit {0})
aceptar_cierre quien now = do
  rol ← rol_de quien.id
  prop ← exigir_some (← leer (λ o. o.cierre)) Error.no_esta
  exigir (not (text_eq prop.id quien.id)) Error.no_toca
  modificar λ o. record o { cierre = none }
  modificar abandonada_ya
  tocar now

unfoldable pub rechazar_cierre : Persona → ℤ → Paso (Unit {0})
rechazar_cierre quien now = do
  rol ← rol_de quien.id
  prop ← exigir_some (← leer (λ o. o.cierre)) Error.no_esta
  exigir (not (text_eq prop.id quien.id)) Error.no_toca
  modificar λ o. record o { cierre = none }
  modificar λ o. record o { cierre_seq = sat_suc o.cierre_seq }
  tocar now

-- The first index whose installment is not paid (`position`).
unfoldable pub primera_impaga : List Partida → Option ℕ
primera_impaga [] = none
primera_impaga (p ∷ ps) = elim (primera_impaga ps) [
  | none ↦ if es_pagada p then none else some 0
  | some i ↦ if es_pagada p then some (suc i) else some 0
]

-- `Obra::activa`
unfoldable pub activa : Obra → Option ℕ
unfolding primera_impaga
activa o = primera_impaga o.partidas

-- `Obra::participa`
unfoldable pub participa : Obra → Text → Bool
participa o id = text_eq id o.mandante.id || text_eq id o.contratista.id

abbrev con_clave : Text → Persona → Persona
con_clave mi_pub p = if is_empty p.clave_pub then record p { clave_pub = mi_pub } else p

-- `Obra::estampar_clave`
unfoldable pub estampar_clave : Text → Text → Obra → Obra
estampar_clave mi_id mi_pub o =
    if is_empty mi_pub
    then o
    else if text_eq o.mandante.id mi_id
    then record o { mandante = con_clave mi_pub o.mandante }
    else if text_eq o.contratista.id mi_id
    then record o { contratista = con_clave mi_pub o.contratista }
    else o

-- `oferta_en_tablero`
unfoldable pub oferta_en_tablero : Text → List Obra → Bool
oferta_en_tablero oferta_id obras =
    not (any (λ o. text_eq o.id oferta_id && not (obra_en_estado o EstadoObra.rechazada)) obras)
