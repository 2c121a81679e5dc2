-- ===== src/Tests/Redes.antt =====
-- A store whose bytes are the lists that they stand for, and a node with one job.
use home_builder_pay.Base.{
  inl, ◌≡◌, ◌≤◌, refl, true, Option, none, some, List, [], ◌∷◌, All, arith, Text, text_eq, ℤ, pos,
  chars,
}
use home_builder_pay.Base.Dict.{Dict}
use home_builder_pay.Acuerdo.{Persona, Oferta, Obra}
use home_builder_pay.Retiro.{RetiroOferta, utf8}
use home_builder_pay.Red.{
  Externo, PeerAddr, Msg, swarm_id, clave_tablero, clave_obras, clave_presentes, clave_retiradas,
  red,
}
use home_builder_pay.Red.Almacen.{tablero_de, obras_de, retiradas_de}
use home_builder_pay.Red.Almacen.Vista.{Fiel}
use home_builder_pay.Red.Almacen.Tablero.{Limpio, merge_todos, merge_todos-Limpio}
use home_builder_pay.Red.Almacen.Obras.{Sigue, merge_todos-Sigue}
use home_builder_pay.Red.Nodo.{Nodo, max_saltos, handle_de}
use home_builder_pay.Red.Nodo.Maquina.{Evento, ocurren}
use home_builder_pay.Red.Nodo.Validez.{NodoValido}
use home_builder_pay.Red.Nodo.Eventos.{ocurren-NodoValido}
use home_builder_pay.Red.Nodo.Camino.{Cadena, Cadena-le}
use home_builder_pay.Red.Nodo.Anuncio.{Callado, handle_de-Callado}
use home_builder_pay.Tests.Muestras.{ana, luis, libre, obra, oferta}
use home_builder_pay.Tests.Retiros.{retiro_ajeno}

data Valor : Type 0 where
  nada : Valor
  ofertas : List Oferta → Valor
  obras : List Obra → Valor
  personas : List Persona → Valor
  retiros : List RetiroOferta → Valor

abbrev leer_ofertas : Valor → Option (List Oferta)
leer_ofertas (Valor.ofertas xs) = some xs
leer_ofertas _ = none

abbrev leer_obras : Valor → Option (List Obra)
leer_obras (Valor.obras xs) = some xs
leer_obras _ = none

abbrev leer_personas : Valor → Option (List Persona)
leer_personas (Valor.personas xs) = some xs
leer_personas _ = none

abbrev leer_retiros : Valor → Option (List RetiroOferta)
leer_retiros (Valor.retiros xs) = some xs
leer_retiros _ = none

-- The digest of a message is the message, and so is its hexadecimal text.
abbrev llano : Externo Valor
llano = record {
  vacio = Valor.nada;
  ofertas = record { to_vec = λ xs. some (Valor.ofertas xs); from_slice = leer_ofertas };
  obras = record { to_vec = λ xs. some (Valor.obras xs); from_slice = leer_obras };
  presentes = record { to_vec = λ xs. some (Valor.personas xs); from_slice = leer_personas };
  retiradas = record { to_vec = λ xs. some (Valor.retiros xs); from_slice = leer_retiros };
  sha256 = λ bs. bs;
  hex_encode = λ bs. bs;
  hex_decode = λ t. some t;
}

llano-Fiel : Fiel llano
unfolding text_eq clave_tablero swarm_id utf8 clave_obras clave_presentes clave_retiradas
llano-Fiel = record {
  ofertas_lem = λ xs. refl;
  obras_lem = λ xs. refl;
  presentes_lem = λ xs. refl;
  retiradas_lem = λ xs. refl;
  tablero_obras = refl;
  tablero_presentes = refl;
  tablero_retiradas = refl;
  obras_presentes = refl;
  obras_retiradas = refl;
  presentes_retiradas = refl;
}

abbrev casa : Obra
casa = obra libre

abbrev guardado : Dict Valor
guardado = (clave_obras llano, Valor.obras (casa ∷ [])) ∷ []

abbrev llegan : List (Text × Valor)
llegan =
    (clave_retiradas llano, Valor.retiros (retiro_ajeno ∷ []))
    ∷ (clave_tablero llano, Valor.ofertas (oferta ∷ []))
    ∷ (clave_obras llano, Valor.obras (record casa { extra_seq = 2 } ∷ []))
    ∷ []

-- The node `n1` of Luis knows Ana at `n2`, and has a session with `n3`.
abbrev n1 : Text
n1 = chars "n1"

abbrev n2 : Text
n2 = chars "n2"

abbrev n3 : Text
n3 = chars "n3"

abbrev nodo : Nodo Valor
nodo = record {
  id = n1;
  addr = PeerAddr.onion (chars "luis") 80;
  peers = (n2, PeerAddr.onion (chars "ana") 80) ∷ [];
  store = guardado;
  sync_at = pos 0;
  persona = some luis.id;
  personas = (ana.id, n2) ∷ [];
  caja = [];
  vivos = (n3, 1) ∷ [];
  buzon = [];
  obras_salidas = [];
}

-- Two copies of Ana, the one that was seen later first.
abbrev anas : List Persona
anas = record ana { visto = pos 5 } ∷ record ana { visto = pos 3 } ∷ []

merge_todos-Limpio_example :
    Limpio llano.sha256
      (tablero_de llano (merge_todos llano llegan guardado))
      (retiradas_de llano (merge_todos llano llegan guardado))
unfolding text_eq clave_obras swarm_id utf8 clave_tablero
merge_todos-Limpio_example = merge_todos-Limpio llano llano-Fiel llegan guardado tt

merge_todos-Sigue_example : Sigue casa.id casa (obras_de llano (merge_todos llano llegan guardado))
unfolding text_eq clave_obras swarm_id utf8
merge_todos-Sigue_example = merge_todos-Sigue llano llano-Fiel casa.id casa llegan guardado refl

nodo-NodoValido : NodoValido nodo
unfolding text_eq
nodo-NodoValido = record {
  sin_par_propio = refl;
  sin_sesion_propia = refl;
  personas_ajenas = (refl, tt);
  caja_acotada = omega arith;
  buzon_acotado = tt;
}

abbrev sucesos : List (ℤ × Evento Valor)
sucesos =
    (pos 5, Evento.llega none (Msg.hola n3 (PeerAddr.buzon n3) red))
    ∷ (pos 6, Evento.falla n2 Msg.ping)
    ∷ (pos 7, Evento.abre n2 4 true)
    ∷ []

ocurren-NodoValido_example : NodoValido (ocurren llano sucesos nodo)
ocurren-NodoValido_example = ocurren-NodoValido llano sucesos nodo nodo-NodoValido

abbrev carta : Msg Valor
carta = Msg.caja casa.id ana.id luis.id (chars "paso") (1 ∷ 2 ∷ []) 0

abbrev carta_1 : Msg Valor
carta_1 = Msg.caja casa.id ana.id luis.id (chars "paso") (1 ∷ 2 ∷ []) 1

camino : Cadena llano carta 1 carta_1
unfolding text_eq handle_de
camino =
    Cadena.sigue {m1 = carta} {m2 = carta_1} Cadena.aqui (pos 9) (some n3) nodo (inl (inl refl))

Cadena-le_example : (1 ≤ max_saltos) × (carta_1 ≡ carta_1)
Cadena-le_example =
    Cadena-le llano casa.id ana.id luis.id (chars "paso") (1 ∷ 2 ∷ []) 1 carta_1 camino

-- The node of Ana.
abbrev nodo_ana : Nodo Valor
nodo_ana = record nodo { id = n2; persona = some ana.id; peers = []; personas = [] }

handle_de-Callado_example :
    All (Callado llano) (handle_de llano (pos 9) (Msg.hola n2 nodo.addr red) (some n2) nodo).0
handle_de-Callado_example =
    handle_de-Callado llano llano-Fiel (pos 9) (Msg.hola n2 nodo.addr red) (some n2) nodo
