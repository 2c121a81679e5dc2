-- ===== src/Tests/Sesiones.antt =====
-- The sessions of a wallet at a concrete job and concrete messages.
use home_builder_pay.Base.{
  ◌==◌, ℕ, ◌≡◌, refl, true, false, none, some, get_elem?, List, [], ◌∷◌, arith, pos, Text, chars,
  text_eq,
}
use home_builder_pay.Red.{CajaMsg}
use home_builder_pay.Motor.Avisos.{
  AvisoFondeo, aviso_del_otro, partir_aviso, poner_aviso, codigo_aviso,
}
use home_builder_pay.Motor.Avisos.Vuelta.{aviso_llega}
use home_builder_pay.Motor.Rastreo.{Entrada}
use home_builder_pay.Motor.Libros.{Libro, libro_nuevo, Suceso, saldo, gasta, sucesos}
use home_builder_pay.Motor.Libros.Sano.{
  libro_limpio, sucesos-limpio, gastada_no_vuelve, tiene_salida,
}
use home_builder_pay.Motor.Mapa.{en_clave}
use home_builder_pay.Motor.Sesiones.{Tipos, Motor, Fondeo, Gasto, fondeo_nuevo, gasto_nuevo}
use home_builder_pay.Motor.Sesiones.Mensajes.{Lector, ingerir}
use home_builder_pay.Motor.Sesiones.Turnos.{Hecho, hechos}
use home_builder_pay.Motor.Sesiones.Hechos.{Asentado, hechos-aplicar_hecho}
use home_builder_pay.Motor.Sesiones.Asiento.{asentar, aplicar_hecho}
use home_builder_pay.Motor.Sesiones.Valida.{sana, Sanas}
use home_builder_pay.Motor.Sesiones.Historia.{
  Accion, pide, recibe, suelta_avisos, punta, publica, acciones, acciones-Sanas,
}
use home_builder_pay.Acuerdo.{Obra, Partida}
use home_builder_pay.Acuerdo.Operaciones.{aceptar_pago}
use home_builder_pay.Acuerdo.Partes.{estampar_clave}
use home_builder_pay.Sellado.{hay_texto_claro, sellar, preparar_para_red}
use home_builder_pay.Tests.Sellos.{llana}
use home_builder_pay.Motor.Lineas.{en_curso, rango_curso}
use home_builder_pay.Motor.Sesiones.Textos.{texto_fondeo, texto_fondeo_lem, en_la_red}
use home_builder_pay.Motor.Sesiones.Armado.{es_rechazo_fondeo, contiene}
use home_builder_pay.Motor.Sesiones.Firmas.{Firmas, sale, firmar_uno}
use home_builder_pay.Motor.Sesiones.Publica.{Publicable, firmar_uno-Publicable}
use home_builder_pay.Motor.Sesiones.Firme.{es_firme}
use home_builder_pay.Motor.Sesiones.Vistas.{nombradas, ingerir-Firme}
use home_builder_pay.Tests.Muestras.{ana, luis, obra, propuesta_por, en_trato}
use home_builder_pay.Tests.Billeteras.{en_trato-ObraValida}

abbrev tipos : Tipos
tipos = record {
  Billetera = ℕ;
  Cuenta = ℕ;
  ParteDkg = ℕ;
  Propuesta = ℕ;
  Decoys = ℕ;
  Esqueleto = ℕ;
  PropuestaPago = ℕ;
  SesionPago = ℕ;
  Firmado = ℕ;
}

abbrev lector : Lector tipos
lector = record {
  sobre_fondeo = λ b. none;
  esqueleto = λ b. none;
  sobre_gasto = λ b. none;
  propuesta_pago = λ b. none;
  hex_decode = λ s. none;
}

abbrev salida : Entrada
salida = record { altura = 5; monto = 900; tx = 3 ∷ []; indice = 0; raw = [] }

abbrev libro : Libro
libro = record (libro_nuevo []) { listo = true; hasta = 100; entradas = salida ∷ [] }

abbrev motor : Motor tipos
motor = record {
  wallet = some 1;
  cuentas = (1 ∷ [], 2) ∷ [];
  dkg = [];
  dkg_inbox = [];
  fondeos = [];
  gastos = [];
  pares = [];
  pedir_view = [];
  tip = some 100;
  lineas = [];
  libro = libro;
  retro = 0;
  cajas_libros = [];
}

abbrev mensaje : (paso cuerpo : Text) → CajaMsg
mensaje paso cuerpo = record { obra = 1 ∷ []; de = ana.id; paso = paso; cuerpo = cuerpo }

-- 64 characters.
abbrev otra_tx : Text
otra_tx = chars "0123456789abcdef0123456789abcdef0123456789abcdef0123456789abcdef"

abbrev mensajes : List CajaMsg
mensajes =
    mensaje (chars "fund-error") (chars "p0:sin-saldo")
    ∷ mensaje (chars "fund-tx") otra_tx
    ∷ mensaje (chars "fund-pedir") (chars "0")
    ∷ mensaje (chars "fund-abort") (chars "0")
    ∷ []

abbrev con_vista : Fondeo tipos
con_vista = record (fondeo_nuevo ana.id 10 false false (none, false)) {
  visto = true;
  txid = some (7 ∷ []);
}

-- A funding that was seen in the chain, and one that the other party is to be asked for.
abbrev vista : Motor tipos
vista = record motor {
  fondeos =
      ((1 ∷ [], 0), con_vista)
      ∷ ((1 ∷ [], 1), fondeo_nuevo ana.id 10 false false (none, false))
      ∷ [];
}

vista-Sanas : Sanas vista
unfolding sana
vista-Sanas = (refl, (refl, tt))

abbrev historia : List (Accion tipos)
historia =
    pide (obra (propuesta_por ana)) 0 luis.id
    ∷ recibe lector mensajes luis.id (obra (propuesta_por ana) ∷ [])
    ∷ suelta_avisos
    ∷ punta 101
    ∷ publica (1 ∷ [], 0) false (chars "aa") (some (chars "Double spend"))
    ∷ []

acciones-Sanas_example : Sanas (acciones historia vista)
acciones-Sanas_example = acciones-Sanas historia vista vista-Sanas

rechazo_fondeo : es_rechazo_fondeo (chars "tx REJECTED by the node") ≡ true
unfolding es_rechazo_fondeo contiene
rechazo_fondeo = refl

ingerir-Firme_example :
    en_clave
      (es_firme ((7 ∷ []) ∷ nombradas luis.id mensajes))
      (1 ∷ [], 0)
      (ingerir lector mensajes luis.id (obra (propuesta_por ana) ∷ []) vista).fondeos
    ≡ true
unfolding text_eq
ingerir-Firme_example =
    ingerir-Firme (1 ∷ [], 0) (7 ∷ []) lector mensajes luis.id (obra (propuesta_por ana) ∷ []) vista
      refl

-- A payment that was seen in the chain, of the installment on which Ana has the turn.
abbrev con_cobro : Motor tipos
con_cobro = record motor {
  gastos =
      (
        (1 ∷ [], 0),
        record (gasto_nuevo luis.id 10 80 true none false) { visto = true; txid = some (7 ∷ []) },
      )
      ∷ [];
}

abbrev hecho : Hecho
hecho = record { obra = 1 ∷ []; partida = 0; fondeo = none; pago = some (7 ∷ []) }

hechos-aplicar_hecho_example :
    (x : Obra) × (p : Partida) × (aplicar_hecho llana true
        (chars "A")
        ana
        (pos 9)
        hecho
        (obra en_trato)
      ≡ some x)
    × (get_elem? x.partidas 0 ≡ some p)
    × Asentado hecho p
unfolding hechos text_eq asentar aceptar_pago preparar_para_red sellar estampar_clave
    hay_texto_claro
hechos-aplicar_hecho_example =
    hechos-aplicar_hecho llana (chars "A") con_cobro ana (pos 9) (obra en_trato ∷ []) 0 hecho
      (obra en_trato) refl refl en_trato-ObraValida refl refl

abbrev rastro : List Suceso
rastro = gasta ((3 ∷ [], 0) ∷ []) ∷ saldo 5 9 false (salida ∷ []) [] ∷ []

sucesos-limpio_example : libro_limpio (sucesos rastro (libro, 0)).0 ≡ true
unfolding libro_limpio
sucesos-limpio_example = sucesos-limpio rastro (libro, 0) refl

gastada_no_vuelve_example :
    tiene_salida
      (3 ∷ [])
      0
      (sucesos
        (gasta ((3 ∷ [], 0) ∷ []) ∷ saldo 5 9 false (salida ∷ []) [] ∷ [])
        (libro, 0)).0.entradas
    ≡ false
unfolding libro_limpio text_eq
gastada_no_vuelve_example =
    gastada_no_vuelve ((3 ∷ [], 0) ∷ []) (saldo 5 9 false (salida ∷ []) [] ∷ []) libro 0 (3 ∷ []) 0
      refl refl

aviso_llega_example :
    (b : AvisoFondeo) × ((partir_aviso (poner_aviso 3 (chars "trabadas"))).0 ≡ some 3)
    × (aviso_del_otro (partir_aviso (poner_aviso 3 (chars "trabadas"))).1 ≡ some b)
    × (codigo_aviso b ≡ none)
aviso_llega_example = aviso_llega 3 AvisoFondeo.trabadas (chars "trabadas") (omega arith) refl

texto_fondeo_lem_example :
    (rango_curso (en_curso (texto_fondeo motor con_vista)) == 2) ≡ en_la_red con_vista
texto_fondeo_lem_example = texto_fondeo_lem motor con_vista

abbrev firmas : Firmas tipos
firmas = record {
  obra_id = λ c. 1 ∷ [];
  abrir = λ c p. sale (1, []);
  firmar = λ x p. sale (2, []);
  completar = λ x c. sale (7 ∷ [], 8 ∷ []);
  sobre = λ p b. some [];
}

abbrev por_firmar : Gasto tipos
por_firmar = record (gasto_nuevo luis.id 10 80 true none false) {
  propuesta = some 1;
  pre_otro = some [];
  share_otro = some [];
}

firmar_uno-Publicable_example :
    Publicable firmas
      (λ c. true)
      (1 ∷ [], 0)
      false
      por_firmar
      (firmar_uno firmas (λ c. true) (1 ∷ [], 0) (some 5) false por_firmar).1
      (7 ∷ [], 8 ∷ [])
unfolding firmar_uno text_eq
firmar_uno-Publicable_example =
    firmar_uno-Publicable firmas (λ c. true) (1 ∷ [], 0) (some 5) false por_firmar (7 ∷ [], 8 ∷ [])
      refl
