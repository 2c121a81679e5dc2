-- ===== src/Tests/Muestras.antt =====
-- Sample people, a sample price, and jobs in each state of the way from the lock to the payment.
use home_builder_pay.Base.{none, some, [], ◌∷◌, pos, Text}
use home_builder_pay.Precio.{Moneda, PrecioFijado}
use home_builder_pay.Acuerdo.{Persona, Rol, EstadoObra, PartidaEstado, Partida, Oferta, Obra}

abbrev persona : Text → Persona
persona id = record { id = id; nombre = id; visto = pos 0; clave_pub = []; direccion = [] }

abbrev pub ana : Persona
ana = persona (97 ∷ [])

abbrev pub luis : Persona
luis = persona (108 ∷ [])

-- 2,000.00 dollars at 200.00 dollars per XMR.
abbrev pub precio : PrecioFijado
precio = record {
  usd_centavos = 200000;
  centavos_por_xmr = 20000;
  piconero = 10000000000000;
  fuente = [];
  cuando = pos 0;
}

abbrev pub libre : Partida
libre = record {
  detalle = [];
  estado = PartidaEstado.pendiente;
  propuesto = none;
  pago = none;
  turno = none;
  notas = [];
  encerrado_por = none;
  encerrado_cuando = pos 0;
  recibo = none;
  monto = 0;
  encerrar_seq = 0;
  fondeo_txid = none;
  pago_txid = none;
  precio = none;
}

abbrev pub propuesta_por : Persona → Partida
propuesta_por q = record libre {
  estado = PartidaEstado.encerrando;
  encerrado_por = some q;
  encerrar_seq = 1;
  precio = some precio;
}

abbrev pub cobrada_ya : Partida
cobrada_ya = record libre {
  estado = PartidaEstado.pagada;
  pago = some 80;
  encerrar_seq = 2;
  recibo =
      some (record {
        titulo = [];
        porcentaje = 80;
        monto = 160000;
        acepto_nombre = [];
        cuando = pos 9;
      });
}

-- A job of two installments in dollars, the first one as given.
abbrev pub obra : Partida → Obra
obra p = record {
  id = 1 ∷ [];
  nombre = [];
  trabajo = 400000;
  garantia = 200000;
  garantia_publicada = 200000;
  n_partidas = 2;
  mandante = ana;
  contratista = luis;
  estado = EstadoObra.acordada;
  partidas = p ∷ libre ∷ [];
  contra = none;
  extra = none;
  extra_seq = 0;
  actualizado = pos 0;
  cierre = none;
  cierre_seq = 0;
  moneda = Moneda.usd;
}

abbrev pub encerrada : Partida
encerrada = record (propuesta_por ana) { estado = PartidaEstado.encerrada; encerrar_seq = 2 }

-- Luis asks for 80 percent, and Ana has the turn.
abbrev pub en_trato : Partida
en_trato = record encerrada {
  estado = PartidaEstado.en_trato;
  propuesto = some 80;
  turno = some Rol.mandante;
}

-- The offer that the job comes from.
abbrev pub oferta : Oferta
oferta = record {
  id = 1 ∷ [];
  nombre = [];
  trabajo = 400000;
  garantia_sugerida = 200000;
  n_partidas_sugeridas = 2;
  mandante = ana;
  detalles = [];
  actualizado = pos 0;
  retiro_hash = [];
  moneda = Moneda.usd;
}
