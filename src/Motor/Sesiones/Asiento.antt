-- ===== src/Motor/Sesiones/Asiento.antt =====
-- caja.rs of the motor, `aplicar_hechos_monero`: what the wallet has seen in the chain becomes part of the
-- job, which is prepared for the network and published.
use home_builder_pay.Base.{
  ℕ, Bool, true, false, ◌&&◌, ◌||◌, Option, none, some, if◌then◌else◌, ℤ, ok, err, Result,
  get_elem?, set, Text, List, [], ◌∷◌, is_ok,
}
use home_builder_pay.Acuerdo.{Persona, Partida, PartidaEstado, Obra, partida_en_estado}
use home_builder_pay.Acuerdo.Operaciones.{encerrar_confirmar, aceptar_pago}
use home_builder_pay.Sellado.{Cripto, preparar_para_red}
use home_builder_pay.Red.{Externo}
use home_builder_pay.Red.Nodo.{Nodo}
use home_builder_pay.Red.Nodo.Api.{publicar_obra, obras, trato_alineado}
use home_builder_pay.Motor.Sesiones.{otro_id}
use home_builder_pay.Motor.Sesiones.Buzon.{buscar_obra}
use home_builder_pay.Motor.Sesiones.Turnos.{Hecho, por_otro}

abbrev pub en_partida : (Partida → Partida) → ℕ → Option Partida → Obra → Obra
en_partida f i none o = o
en_partida f i (some p) o = record o { partidas = set o.partidas i (f p) }

abbrev pub tras : (Partida → Partida) → ℕ → Result (Unit {0}) × Obra → Bool × Obra
tras f i (ok u, o) = (true, en_partida f i (get_elem? o.partidas i) o)
tras f i (err e, o) = (false, o)

abbrev pub confirma : Option Partida → Text → Bool
confirma none yo = false
confirma (some p) yo = partida_en_estado p PartidaEstado.encerrando && por_otro p.encerrado_por yo

abbrev pub asentar_fondeo : Persona → ℤ → ℕ → Option Text → Obra → Bool × Obra
asentar_fondeo yo now i none o = (false, o)
asentar_fondeo yo now i (some t) o =
    let r = tras (λ p. record p { fondeo_txid = some t }) i (encerrar_confirmar i yo now o) in
    if confirma (get_elem? o.partidas i) yo.id then r else (false, o)

abbrev pub asentar_pago : Persona → ℤ → ℕ → Option Text → Obra → Bool × Obra
asentar_pago yo now i none o = (false, o)
asentar_pago yo now i (some t) o =
    tras (λ p. record p { pago_txid = some t }) i (aceptar_pago i yo now o)

-- What a fact changes of its job: whether the job is to be published, and the job.
unfoldable pub asentar : Persona → ℤ → Hecho → Obra → Bool × Obra
asentar yo now h o =
    let (a, o1) = asentar_fondeo yo now h.partida h.fondeo o in
    let (b, o2) = asentar_pago yo now h.partida h.pago o1 in (a || b, o2)

-- The body of the loop on the job of the fact: the job that is published, if one is. `alineado`: the
-- node has seen the other party of late (`trato_alineado`).
unfoldable pub aplicar_hecho :
    Cripto → (alineado : Bool) → (sec : Text) → Persona → ℤ → Hecho → Obra → Option Obra
unfolding asentar preparar_para_red
aplicar_hecho c alineado sec yo now h o =
    let (publico, o1) = asentar yo now h o in
    let (r, o2) = preparar_para_red c yo.id yo.clave_pub sec o1 in
    if alineado && publico && is_ok r then some o2 else none

module _ {V : Type 0} (c : Cripto) (e : Externo V) (sec : Text) (yo : Persona) (now : ℤ) where
  abbrev publicar_si : Option Obra → Nodo V → Nodo V
  publicar_si none n = n
  publicar_si (some o) n = publicar_obra e o n

  abbrev hecho_en : Hecho → Option Obra → Nodo V → Nodo V
  hecho_en h none n = n
  hecho_en h (some o) n =
      publicar_si (aplicar_hecho c (trato_alineado e now (otro_id o yo.id) n) sec yo now h o) n

  unfoldable pub aplicar_hechos_monero : List Hecho → Nodo V → Nodo V
  unfolding aplicar_hecho publicar_obra obras trato_alineado
  aplicar_hechos_monero [] n = n
  aplicar_hechos_monero (h ∷ hs) n =
      aplicar_hechos_monero hs (hecho_en h (buscar_obra h.obra (obras e n)) n)
