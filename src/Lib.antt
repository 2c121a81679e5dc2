-- ===== src/Lib.antt =====
-- Konstruado: two people agree on a building job, divide it into installments, and lock, deliver and
-- pay each of them. This library models the shared logic, crates/konstruado-core/src, on which the
-- desktop program, the phone library and the motor stand; the node that copies offers and jobs between
-- machines, crates/konstruado-net/src; the decisions of the wallet of a job,
-- crates/konstruado-motor/src/caja.rs; the division of a payment, crates/xmr-joint/src/spend.rs; and the
-- envelope of a backup, crates/xmr-joint/src/sobre.rs.
--
-- The parts. A client publishes an offer (`Oferta`); a contractor accepts it, perhaps with another bond
-- (`Aceptacion`); together they make a job (`Obra`) with a list of installments (`Partida`). Each party
-- holds a copy of the job, changes it through the methods of `Obra`, and merges the copies that it
-- receives (`Obra::fusionar`). Amounts are units or cents of a dollar (`Moneda`); a job in dollars fixes
-- the price of each installment when its lock is proposed (`PrecioFijado`).
--
--   Base            numbers, lists, options, results and strings; error.rs
--   Decimal         decimal text of a number, and `u64::from_str`
--   Montos          partida.rs: division into installments, cleaned texts, percentages
--   Precio          precio.rs: conversion to piconero, dollars as text
--   Acuerdo         acuerdo.rs, the types; below it
--     Paso            a method that changes `self` and may fail: a function from the job to a result
--                     and the job, which a failure leaves as it is at that point
--     Operaciones     the methods on the counter-offer, the lock and the payment
--     Partes          the methods on extra installments and on the end of a job, and the queries
--     Ofertas         people, offers, acceptances, `Obra::desde_oferta`
--     Pedido          the changing methods as one type of calls, and histories of calls
--     Efecto          what each successful call does
--     Atomic          what a failed call leaves
--     Invariante      what holds of every job between two calls
--     Encierre, Pago  the lock and the payment across several calls
--   Fusion          acuerdo.rs, `Obra::fusionar`, and below it
--     Notas, Mezcla   the merge of the notes, and `Partida::fusionar`
--     Partidas, Obras what a merge keeps of an installment, and of a job
--   Retiro          retiro.rs: the withdrawal of an offer; SHA-256 is the parameter `sha256`, a function
--                     from bytes to bytes
--   Sellado         caja.rs, and the methods of `Obra` that seal its texts; the calls of `base64` and
--                     `crypto_box` are the fields of the record `Cripto`, of which nothing is asked
--     Claro, Conserva what sealing leaves in clear, and what it keeps of an installment
--   Red             konstruado-net, proto.rs and lib.rs: messages, values of the store, keys
--     Almacen         dht.rs, `merge_store`: how a value that arrives is merged
--       Vista, Refinamiento  the store as the four lists that it holds, and each merge on them
--       Copias, Lectura  what is then read of an offer, a job, a person or a withdrawal
--       Tablero, Obras, Lapidas  the board, the jobs, the withdrawals over many merges
--     Nodo            dht.rs, `handle` and `handle_de`: the state of a node and each message
--       Api, Sesiones   the calls of the programs; sessions that open and close
--       Maquina         the node as a machine driven by events
--       Validez, Eventos  what holds of a node after any events
--       Relevo, Camino  what a node does with a message for another; its way through the nodes
--       Anuncio         what a node says of its jobs
--   Motor           caja.rs of the motor: constants and saturating addition
--     Lineas, Acciones  the lines that are shown, and which buttons an installment has
--       Candado, Botones, Avance  the wait for the funding; the buttons and what they call, as in
--                     crates/konstruado-ffi/src/lib.rs; that somebody can go on
--     Salidas         which outputs can be spent, what covers an amount (with `elegir_montos` of
--                     crates/xmr-joint/src/personal.rs)
--       Eleccion, Cobertura, Envio  one output; two outputs of a box; several outputs
--     Rastreo         the book of a box, and how the chain is read for it
--       Hallazgos, Alcance, Fin  that no output is missed, and that reading ends
--     Bytes, Avisos   how a message is read; the notices that two wallets send each other
--     Libros          the book of the personal wallet
--       Sano            what holds of it over any history
--     Mapa            the sessions by job and installment
--     Sesiones        fundings and payments that are under way (`Estado`), and how they begin
--       Buzon, Mensajes  `ingerir`: each message of the other party
--       Cartas, Turnos  what a tick sends, and what it changes
--       Asiento, Hechos  `aplicar_hechos_monero`: what was seen in the chain enters the job
--       Firmas, Publica  `firmar_si_puede`: how a payment is signed; what is published of it
--       Armado, Cierre  how a funding is built, completed and published (what crates/xmr-joint/src/fund.rs
--                     computes is the record `Fondos`); the loop of `firmar_si_puede`
--       Textos          the line that is shown of a session
--       Valida, Recibe, Termina, Historia  what holds of the fundings over any history
--       Lecturas        what the node answers about the chain; a new seed
--       Firme, Vistas   what messages leave of a funding that was seen in the chain
--   Reparto         crates/xmr-joint/src/spend.rs: how a payment divides the pot, and the proposal of it
--     Cuentas, Firma, Acuerdo  the amounts; what a party that signs knows; a proposal and its check
--   Sobre           crates/xmr-joint/src/sobre.rs: the sealed envelope of a backup; Argon2 and the cipher
--                     are the fields of the record `Cifra`
--     Vuelta          sealing and opening
--   Tests           samples, and the theorems applied to them
--
-- How the code is read. A function of the source keeps its name. A struct is a record, an enum a data
-- type; `u32` and `u64` are natural numbers, with `% 2 ^ w` where the code casts or multiplies in a
-- release build, and a test against the bound where it calls a checked or saturating operation. The
-- `u128` products of precio.rs stay below 2^104 and do not wrap. Times (`i64`) are integers. A `String`
-- is the list of its characters. The clock (`ahora`) and fresh ids (`Uuid::new_v4`) are arguments.
-- `xmr_hook` returns a constant that its callers drop, and is left out. The two derived orders that the
-- code uses, on states and on strings, are the functions `rango_*` and `text_lt`. The recursion is
-- structural but for `rev_digits`, whose fuel of 20 digits holds every number below 2^64.
--
-- The node. A value of the store is bytes that only JSON reads: the type `V` and the record `Externo`,
-- with the readers and writers of the four lists, SHA-256 and hexadecimal. `Fiel` is what is asked of
-- them: a list is read back as it was written, and the four keys differ. A `HashMap` is a list of its
-- entries (`Base.Dict`). The answers of `handle_de` go back over the session; what it sends to other
-- nodes is a list of `Envio`. The bounds are the source's: 64 messages for a node (`max_buzon`), 32 for a
-- persona (`max_caja`), 512 withdrawals (`max_retiradas`), 3 hops (`max_saltos`); the first three are shut
-- so that nothing is computed from them. The hops of a message end by that bound, not by fuel.
--
-- The wallet. A `usize` has 64 bits. What the Monero node finds in a block is the parameter `cadena`.
-- `rastrear` takes a number of turns; as many as there are blocks to read are enough. The types of the
-- Monero library and of the joint keys that the sessions hold are the fields of the record `Tipos`; how
-- JSON, bincode and hexadecimal are read is the record `Lector`, of which nothing is asked; whether a
-- letter goes out (`Nodo::enviar_caja`) is the parameter `enviar`; the signatures are the record `Firmas`. Files and times are left out. A loop
-- over the keys of a map writes to each entry once.
--
-- The payment. What the library answers to a new transaction is the parameter `armar`; the bytes of a
-- transaction are the type `V`, and where a proposal is read back, reading is the inverse of writing.
-- `propose` turns six times, as the source does (`vueltas`).
--
-- Not modelled: `precio_a_centavos`, which reads a float; opening sealed texts (`abrir` of caja.rs,
-- `abrir_extra`, `leer_nota` and `leer_extra`); reading and writing JSON (serde); of konstruado-net the
-- sockets, their tasks and times, Tor, the fixed destinations and `anunciar_persona`; of konstruado-motor
-- the threads, the key ceremony (`avanzar_dkg`), `armar_gasto`, the quotes, the files and the
-- texts; of xmr-joint what calls Monero libraries; the crates konstruado-ffi (but for the calls
-- of the buttons) and konstruado, the phone program, and the vendored libraries.
pub mod Base
pub mod Decimal
pub mod Montos
pub mod Precio
pub mod Acuerdo
pub mod Fusion
pub mod Retiro
pub mod Sellado
pub mod Red
pub mod Motor
pub mod Reparto
pub mod Sobre
pub mod Tests
