-- ===== src/Red/Nodo/Maquina.antt =====
-- dht.rs: the node as a machine driven by events: messages, sessions, and the calls of the program.
use home_builder_pay.Base.{ℕ, Bool, Option, List, [], ◌∷◌, ℤ, Text}
use home_builder_pay.Acuerdo.{Persona, Oferta, Obra}
use home_builder_pay.Retiro.{RetiroOferta}
use home_builder_pay.Red.{Msg, Externo}
use home_builder_pay.Red.Nodo.{Nodo, encolar, handle_de}
use home_builder_pay.Red.Nodo.Api.{
  publicar, retirar, quitar, publicar_obra, anunciar, actualizar_yo, hidratar, salir_obra_local,
  olvidar_salida_obra, tomar_caja, fijar_persona, fijar_obras_salidas,
}
use home_builder_pay.Red.Nodo.Sesiones.{registrar_vivo, soltar_vivo}

-- What happens to a node.
pub data Evento (V : Type 0) : Type 0 where
  llega : Option Text → Msg V → Evento V
  abre : Text → ℕ → Bool → Evento V
  cierra : Text → ℕ → Evento V
  falla : Text → Msg V → Evento V  -- a message could not be dialled
  persona : Text → Evento V
  toma_caja : Evento V
  publica : Oferta → Evento V
  retira : RetiroOferta → Evento V
  quita : Text → Evento V
  publica_obra : Obra → Evento V
  anuncia : Persona → Evento V
  actualiza : Persona → Evento V
  hidrata : List Oferta → List Obra → List Persona → Evento V
  archiva olvida : Text → Evento V
  archivadas : List Text → Evento V

module _ {V : Type 0} (e : Externo V) where
  unfoldable pub ocurre : ℤ → Evento V → Nodo V → Nodo V
  ocurre now (Evento.llega origen m) n = (handle_de e now m origen n).2
  ocurre now (Evento.abre node sid entrante) n = (registrar_vivo node sid entrante n).1
  ocurre now (Evento.cierra node sid) n = soltar_vivo node sid n
  ocurre now (Evento.falla node m) n = encolar node m n
  ocurre now (Evento.persona id) n = fijar_persona id n
  ocurre now Evento.toma_caja n = (tomar_caja n).1
  ocurre now (Evento.publica o) n = publicar e o n
  ocurre now (Evento.retira r) n = retirar e r n
  ocurre now (Evento.quita id) n = quitar e id n
  ocurre now (Evento.publica_obra o) n = publicar_obra e o n
  ocurre now (Evento.anuncia p) n = anunciar e now p n
  ocurre now (Evento.actualiza p) n = actualizar_yo e now p n
  ocurre now (Evento.hidrata os bs ps) n = hidratar e os bs ps n
  ocurre now (Evento.archiva id) n = salir_obra_local id n
  ocurre now (Evento.olvida id) n = olvidar_salida_obra id n
  ocurre now (Evento.archivadas ids) n = fijar_obras_salidas e ids n

  unfoldable pub ocurren : List (ℤ × Evento V) → Nodo V → Nodo V
  unfolding ocurre
  ocurren [] n = n
  ocurren ((now, ev) ∷ evs) n = ocurren evs (ocurre now ev n)
