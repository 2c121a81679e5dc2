-- ===== src/Acuerdo/Operaciones.antt =====
-- acuerdo.rs, the methods of `Obra` on the counter-offer, on the lock of an installment and on its
-- payment. `now` is what `ahora()` returns. `xmr_hook()` is the constant 4 and its value is dropped.
use home_builder_pay.Base.{
  ℕ, ◌+◌, Bool, false, ◌&&◌, ◌||◌, not, Option, none, some, [], ◌∷◌, ◌++◌, map, ltb, ◌==◌,
  if◌then◌else◌, ℤ, Error, Result, ok, err, Text, text_eq, is_empty, chars, all, any, set,
  get_elem?,
}
use home_builder_pay.Precio.{Moneda, PrecioFijado, es_usd, coherente, unidades_a_piconero}
use home_builder_pay.Montos.{
  n_partidas, ajusta_detalles, porcentaje, limpia_nota, limpia_detalle, monto_pct,
}
use home_builder_pay.Decimal.{decimal}
use home_builder_pay.Acuerdo.{
  Persona, Rol, mandante, contratista, EstadoObra, PartidaEstado, NotaPartida, ReciboPartida,
  Partida, Obra, partida_en_estado, obra_en_estado, es_turno, es_propuesto, otro_rol, sat_suc,
  partida_pendiente, capital, en_riesgo,
}
use home_builder_pay.Acuerdo.Paso.{Paso, ◌>>=◌, ◌>>◌, exigir, exigir_some, lift, leer, modificar}

abbrev pub rol_en : Obra → Text → Result Rol
rol_en o id =
    if text_eq o.mandante.id id
    then ok mandante
    else if text_eq o.contratista.id id
    then ok contratista
    else err Error.no_toca

-- `rol_de`
abbrev pub rol_de : Text → Paso Rol
rol_de id o = (rol_en o id, o)

-- `tocar`
abbrev pub tocar : ℤ → Paso (Unit {0})
tocar now o = (ok tt, record o { actualizado = now })

-- `self.partidas.get_mut(i).ok_or(Error::NoEsta)?`, and the write through that reference.
abbrev pub partida_en : ℕ → Paso Partida
partida_en i o = exigir_some (get_elem? o.partidas i) Error.no_esta o

abbrev pub guardar : ℕ → Partida → Paso (Unit {0})
guardar i p o = (ok tt, record o { partidas = set o.partidas i p })

-- `titulo_partida` of partida.rs.
unfoldable pub titulo_partida : ℕ → Text → Text
titulo_partida i detalle = if is_empty detalle then chars "Partida " ++ decimal (i + 1) else detalle

unfoldable pub opt_piconero : Option PrecioFijado → Option ℕ
opt_piconero none = none
opt_piconero (some pr) = if coherente pr then some pr.piconero else none

unfoldable pub piconero_de : Moneda → Partida → ℕ → Option ℕ
unfolding opt_piconero capital
piconero_de Moneda.unidades p garantia = unidades_a_piconero (capital p garantia)
piconero_de Moneda.usd p garantia = opt_piconero p.precio

-- `Obra::piconero_partida`
unfoldable pub piconero_partida : Obra → ℕ → Option ℕ
unfolding piconero_de
piconero_partida o i = elim (get_elem? o.partidas i) [
  | none ↦ none
  | some p ↦ piconero_de o.moneda p o.garantia
]

unfoldable pub confirmar_contra : Text → ℤ → Paso (Unit {0})
confirmar_contra mandante_id now = do
  exigir (text_eq (← leer (λ o. o.mandante.id)) mandante_id) Error.no_toca
  acc ← exigir_some (← leer (λ o. o.contra)) Error.no_esta
  modificar λ o. record o {
    contra = none;
    garantia = acc.garantia;
    n_partidas = acc.n_partidas;
    partidas = map partida_pendiente acc.detalles;
    estado = EstadoObra.acordada;
  }
  tocar now

-- The part of `rechazar_contra` behind the guards: back to the bond that was published.
unfoldable pub reponer : Obra → Obra
reponer o =
    let g = if ltb 0 o.garantia_publicada then o.garantia_publicada else o.garantia in
    elim (n_partidas o.trabajo g) [
      | err _ ↦ o
      | ok n ↦ record o {
        garantia = g;
        n_partidas = n;
        partidas = map partida_pendiente (ajusta_detalles n (map (λ p. p.detalle) o.partidas));
      }
    ]

unfoldable pub rechazar_contra : Text → ℤ → Paso (Unit {0})
unfolding reponer
rechazar_contra mandante_id now = do
  exigir (text_eq (← leer (λ o. o.mandante.id)) mandante_id) Error.no_toca
  acc ← exigir_some (← leer (λ o. o.contra)) Error.no_esta
  modificar λ o. reponer (record o { contra = none; estado = EstadoObra.rechazada })
  tocar now

-- `Obra::hay_riesgo`
unfoldable pub hay_riesgo : Obra → Bool
hay_riesgo o = any en_riesgo o.partidas

-- The price that a job in dollars needs: coherent, and for the capital of the installment.
abbrev pub precio_sirve : Option PrecioFijado → ℕ → Bool
precio_sirve none cap = false
precio_sirve (some pr) cap = coherente pr && pr.usd_centavos == cap

abbrev pub propuesta : Persona → Option PrecioFijado → Partida → Partida
propuesta quien precio p = record p {
  precio = precio;
  estado = PartidaEstado.encerrando;
  encerrado_por = some quien;
  encerrar_seq = sat_suc p.encerrar_seq;
}

unfoldable pub encerrar_proponer_con : ℕ → Persona → Option PrecioFijado → ℤ → Paso (Unit {0})
encerrar_proponer_con i quien precio now = do
  rol ← rol_de quien.id
  usd ← leer (λ o. es_usd o.moneda)
  garantia ← leer (λ o. o.garantia)
  p ← partida_en i
  exigir (partida_en_estado p PartidaEstado.pendiente) Error.ya_existe
  exigir (not usd || precio_sirve precio (capital p garantia)) Error.precio
  guardar i (propuesta quien (if usd then precio else none) p)
  modificar λ o. record o { estado = EstadoObra.en_marcha }
  tocar now

-- `encerrar_proponer`: with no price.
unfoldable pub encerrar_proponer : ℕ → Persona → ℤ → Paso (Unit {0})
unfolding encerrar_proponer_con
encerrar_proponer i quien now = encerrar_proponer_con i quien none now

abbrev pub confirmada : ℤ → Partida → Partida
confirmada now p = record p {
  estado = PartidaEstado.encerrada;
  encerrado_cuando = now;
  encerrar_seq = sat_suc p.encerrar_seq;
}

unfoldable pub encerrar_confirmar : ℕ → Persona → ℤ → Paso (Unit {0})
encerrar_confirmar i quien now = do
  rol ← rol_de quien.id
  p ← partida_en i
  exigir (partida_en_estado p PartidaEstado.encerrando) Error.no_toca
  prop ← exigir_some p.encerrado_por Error.no_esta
  exigir (not (text_eq prop.id quien.id)) Error.no_toca
  guardar i (confirmada now p)
  tocar now

abbrev pub cancelada : Partida → Partida
cancelada p = record p {
  estado = PartidaEstado.pendiente;
  encerrado_por = none;
  precio = none;
  encerrar_seq = sat_suc p.encerrar_seq;
}

unfoldable pub encerrar_cancelar : ℕ → Persona → ℤ → Paso (Unit {0})
encerrar_cancelar i quien now = do
  rol ← rol_de quien.id
  p ← partida_en i
  exigir (partida_en_estado p PartidaEstado.encerrando) Error.no_toca
  guardar i (cancelada p)
  tocar now

abbrev pub nueva_nota : Persona → ℕ → Text → ℤ → NotaPartida
nueva_nota quien pct texto now = record {
  autor_id = quien.id;
  autor_nombre = quien.nombre;
  porcentaje = pct;
  texto = texto;
  cuando = now;
  caja = [];
}

abbrev pub avisada : NotaPartida → ℕ → Partida → Partida
avisada nota pct p = record p {
  notas = p.notas ++ nota ∷ [];
  propuesto = some pct;
  turno = some mandante;
  estado = PartidaEstado.en_trato;
}

unfoldable pub avisar_termino : ℕ → Persona → ℕ → Text → ℤ → Paso (Unit {0})
avisar_termino i quien n nota now = do
  exigir (text_eq quien.id (← leer (λ o. o.contratista.id))) Error.no_toca
  pct ← lift (porcentaje n)
  texto ← lift (limpia_nota nota)
  p ← partida_en i
  exigir (partida_en_estado p PartidaEstado.encerrada) Error.no_toca
  guardar i (avisada (nueva_nota quien pct texto now) pct p)
  tocar now

abbrev pub contraofertada : NotaPartida → ℕ → Rol → Partida → Partida
contraofertada nota pct turno p = record p {
  notas = p.notas ++ nota ∷ [];
  propuesto = some pct;
  turno = some turno;
}

unfoldable pub contra_pago : ℕ → Persona → ℕ → Text → ℤ → Paso (Unit {0})
contra_pago i quien n nota now = do
  rol ← rol_de quien.id
  pct ← lift (porcentaje n)
  texto ← lift (limpia_nota nota)
  p ← partida_en i
  exigir (partida_en_estado p PartidaEstado.en_trato && es_turno p.turno rol) Error.no_toca
  exigir (not (es_propuesto p.propuesto pct)) Error.ya_existe
  guardar i (contraofertada (nueva_nota quien pct texto now) pct (otro_rol rol) p)
  tocar now

abbrev pub es_pagada : Partida → Bool
es_pagada p = partida_en_estado p PartidaEstado.pagada

abbrev pub recibo_de : ℕ → Partida → ℕ → ℕ → Persona → ℤ → ReciboPartida
recibo_de i p cap pct quien now = record {
  titulo = titulo_partida i p.detalle;
  porcentaje = pct;
  monto = monto_pct cap pct;
  acepto_nombre = quien.nombre;
  cuando = now;
}

abbrev pub cobrada : ReciboPartida → ℕ → Partida → Partida
cobrada recibo pct p = record p {
  pago = some pct;
  turno = none;
  estado = PartidaEstado.pagada;
  recibo = some recibo;
}

-- A job whose installments are all paid is closed.
abbrev pub cerrar_si_pagada : Obra → Obra
cerrar_si_pagada o = record o {
  estado = if all es_pagada o.partidas then EstadoObra.cerrada else o.estado;
}

unfoldable pub aceptar_pago : ℕ → Persona → ℤ → Paso (Unit {0})
aceptar_pago i quien now = do
  rol ← rol_de quien.id
  p ← partida_en i
  exigir (partida_en_estado p PartidaEstado.en_trato && es_turno p.turno rol) Error.no_toca
  pct ← exigir_some p.propuesto Error.no_esta
  garantia ← leer (λ o. o.garantia)
  guardar i (cobrada (recibo_de i p (capital p garantia) pct quien now) pct p)
  modificar cerrar_si_pagada
  tocar now

-- A job that is closed, rejected or abandoned.
abbrev pub esta_terminada : Obra → Bool
esta_terminada o =
    obra_en_estado o EstadoObra.cerrada
    || obra_en_estado o EstadoObra.rechazada
    || obra_en_estado o EstadoObra.abandonada

abbrev pub con_detalle : Text → Partida → Partida
con_detalle detalle p = record p { detalle = detalle }

unfoldable pub editar_detalle : ℕ → Persona → Text → ℤ → Paso (Unit {0})
editar_detalle i quien detalle now = do
  rol ← rol_de quien.id
  exigir (not (← leer esta_terminada)) Error.ya_existe
  p ← partida_en i
  exigir (partida_en_estado p PartidaEstado.pendiente) Error.ya_existe
  guardar i (con_detalle (limpia_detalle detalle) p)
  tocar now
