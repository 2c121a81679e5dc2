-- ===== src/Motor/Sesiones/Historia.antt =====
-- The sessions of a wallet over any history of calls, messages and ticks.
use home_builder_pay.Base.{
  ℕ, ◌≡◌, refl, inl, inr, Bool, true, false, ◌||◌, not, Option, none, some, List, [], ◌∷◌, arith,
  if◌then◌else◌, is_none, get_elem?, Bool-cases, Text, chars,
}
use home_builder_pay.Acuerdo.{Partida, PartidaEstado, Obra}
use home_builder_pay.Red.{CajaMsg}
use home_builder_pay.Motor.Lineas.{Texto}
use home_builder_pay.Motor.Salidas.{EstadoMonedas}
use home_builder_pay.Motor.Libros.{estado_de}
use home_builder_pay.Motor.Mapa.{
  Clave, Mapa, cambiar_clave, Todas, Todas-filter, Todas-cambiar_clave,
}
use home_builder_pay.Motor.Sesiones.{
  Tipos, Fondeo, Motor, Fallo, insertar_fondeo, limpiar_sesion_fondeo, nota, pedir_gasto,
}
use home_builder_pay.Motor.Sesiones.Mensajes.{Lector, ingerir}
use home_builder_pay.Motor.Sesiones.Cartas.{
  Carta, mandar, carta_abort, carta_pedir, abortada, pedida, bloqueada, por_abortar, por_pedir,
  avisar_pedidos, mandar_bloqueos, codigo_de, carta_bloqueo, carta_busqueda, por_bloquear,
  por_buscar, emitir_bloqueos, fallar, reiniciar_fondeo_tras_rechazo, empezar_en,
  empezar_fondeo_de_nuevo, tras_pedir,
}
use home_builder_pay.Motor.Sesiones.Turnos.{
  cada, muerta, limpiar_resueltos, soltar_uno, soltar_avisos_con_moneda, habilitar_uno,
  habilitar_pedidos, historia_en, empujar_historia, cierre_con, cerrar_uno, cerrar_busqueda_vacia,
  recibir_visto, minimo_de, sin_moneda,
}
use home_builder_pay.Motor.Sesiones.Firmas.{Firmas}
use home_builder_pay.Motor.Sesiones.Armado.{Fondos, armar_fondeo}
use home_builder_pay.Motor.Sesiones.Cierre.{cerrar_si_puede, firmar_si_puede, recibir_publicado}
use home_builder_pay.Motor.Sesiones.Termina.{
  fallar-Sanas, rechaza-Sanas, armar_fondeo-Sanas, cerrar_si_puede-Sanas, firmar_si_puede-Sanas,
  recibir_publicado-Sanas,
}
use home_builder_pay.Motor.Rastreo.{Entrada}
use home_builder_pay.Motor.Libros.{Salida}
use home_builder_pay.Motor.Sesiones.Lecturas.{recibir_punta, recibir_lectura, crear_semilla}
use home_builder_pay.Motor.Sesiones.Valida.{sana, Sana, Sanas, insertar_fondeo-Sanas}
use home_builder_pay.Motor.Sesiones.Recibe.{
  limpiar_sesion_fondeo-Sanas, pedir_gasto-Sanas, ingerir-Sanas,
}

-- What happens to the sessions: calls of the user, messages, the steps of a tick (the transactions built,
-- signed and published are some) and the answers that come back from the node. The reading
-- of a box (`Listo::CajaScan`), personal payments and the key ceremony are left out.
pub data Accion (T : Tipos) : Type 0 where
  pide pide_pago reinicia : (o : Obra) (i : ℕ) (yo : Text) → Accion T
  cancela : (obra : Text) (i : ℕ) → Accion T
  recibe : (r : Lector T) (cs : List CajaMsg) (yo : Text) (obras : List Obra) → Accion T
  resuelve : (obras : List Obra) → Accion T
  suelta_avisos habilita cierra_busqueda mira_atras : Accion T
  avisa bloquea : (enviar : Carta → Bool) → Accion T
  ve : (k : Clave) (pago si : Bool) → Accion T
  falla : (k : Clave) (pago : Bool) (msg : Text) → Accion T
  rechaza : (k : Clave) → Accion T
  arma : (r : Fondos T) (k : Clave) (decoys : T.Decoys) (fee : ℕ × ℕ) → Accion T
  cierra : (r : Fondos T) (ocupado : Bool) → Accion T
  firma : (s : Firmas T) (enviar : Carta → Bool) (ocupado : Bool) → Accion T
  publica : (k : Clave) (pago : Bool) (txid : Text) (error : Option Text) → Accion T
  punta : (tip : ℕ) → Accion T
  lee :
      (desde hasta tip : ℕ) (retro : Bool) (entradas : List Entrada) (podar : List Salida)
      → Accion T
  crea : (w : T.Billetera) (direccion : Text) → Accion T

module _ {T : Tipos} where
  unfoldable pub accion : Accion T → Motor T → Motor T
  accion (pide o i yo) m = (insertar_fondeo o i yo false m).1
  accion (pide_pago o i yo) m = (pedir_gasto o i yo m).1
  accion (reinicia o i yo) m = (empezar_fondeo_de_nuevo o i yo m).2
  accion (cancela obra i) m = limpiar_sesion_fondeo obra i false m
  accion (recibe r cs yo obras) m = ingerir r cs yo obras m
  accion (resuelve obras) m = limpiar_resueltos obras m
  accion suelta_avisos m = soltar_avisos_con_moneda m
  accion habilita m = habilitar_pedidos m
  accion cierra_busqueda m = cerrar_busqueda_vacia m
  accion mira_atras m = empujar_historia m
  accion (avisa enviar) m = (avisar_pedidos enviar m).1
  accion (bloquea enviar) m = (emitir_bloqueos enviar m).1
  accion (ve k pago si) m = recibir_visto k pago si m
  accion (falla k pago msg) m = (fallar k pago msg m).1
  accion (rechaza k) m = (reiniciar_fondeo_tras_rechazo k m).1
  accion (arma r k decoys fee) m = (armar_fondeo r k decoys fee m).1
  accion (cierra r ocupado) m = (cerrar_si_puede r ocupado m).2
  accion (firma s enviar ocupado) m = (firmar_si_puede s enviar ocupado m).2
  accion (publica k pago txid error) m = (recibir_publicado k pago txid error m).1
  accion (punta tip) m = recibir_punta tip m
  accion (lee desde hasta tip retro entradas podar) m =
      recibir_lectura desde hasta tip retro entradas podar m
  accion (crea w direccion) m = crear_semilla w direccion m

  unfoldable pub acciones : List (Accion T) → Motor T → Motor T
  unfolding accion
  acciones [] m = m
  acciones (a ∷ xs) m = acciones xs (accion a m)

  cada-Sanas :
      (f : Clave → Fondeo T → Fondeo T) (m : Mapa (Fondeo T))
      → ((k : Clave) (x : Fondeo T) → Sana x → Sana (f k x))
      → Todas Sana m
      → Todas Sana (cada f m)
  unfolding cada
  cada-Sanas f [] g h = tt
  cada-Sanas f ((k, x) ∷ m) g h = (g k x h.0, cada-Sanas f m g h.1)

  mandar-Sanas :
      (enviar : Carta → Bool) (escribe : Clave × Fondeo T → Carta) (marca : Fondeo T → Fondeo T)
      (es m : Mapa (Fondeo T))
      → ((x : Fondeo T) → Sana x → Sana (marca x))
      → Todas Sana m
      → Todas Sana (mandar enviar escribe marca es m)
  unfolding mandar
  mandar-Sanas enviar escribe marca [] m g h = h
  mandar-Sanas enviar escribe marca (e ∷ es) m g h =
      mandar-Sanas enviar escribe marca es _ g (una (enviar (escribe e)))
    where
      una : (b : Bool) → Todas Sana (if b then cambiar_clave e.0 marca m else m)
      una true = Todas-cambiar_clave Sana e.0 marca m g h
      una false = h

  abortada-Sana : (f : Fondeo T) → Sana f → Sana (abortada f)
  unfolding sana
  abortada-Sana f h = ground (arith, h)

  pedida-Sana : (f : Fondeo T) → Sana f → Sana (pedida f)
  unfolding sana
  pedida-Sana f h = ground (arith, h)

  bloqueada-Sana : (f : Fondeo T) → Sana f → Sana (bloqueada f)
  unfolding sana
  bloqueada-Sana f h = ground (arith, h)

  buscada-Sana : (f : Fondeo T) → Sana f → Sana (record f { dije_busqueda = true })
  unfolding sana
  buscada-Sana f h = h

  mandar_bloqueos-Sanas :
      (enviar : Carta → Bool) (es m : Mapa (Fondeo T))
      → Todas Sana m
      → Todas Sana (mandar_bloqueos enviar es m)
  unfolding mandar_bloqueos
  mandar_bloqueos-Sanas enviar [] m h = h
  mandar_bloqueos-Sanas enviar (e ∷ es) m h =
      mandar_bloqueos-Sanas enviar es _
        (una (is_none (codigo_de e.1.aviso) || enviar (carta_bloqueo e)))
    where
      una : (b : Bool) → Todas Sana (if b then cambiar_clave e.0 bloqueada m else m)
      una true = Todas-cambiar_clave Sana e.0 bloqueada m bloqueada-Sana h
      una false = h

  soltar_uno-Sana : (m : Motor T) (k : Clave) (f : Fondeo T) → Sana f → Sana (soltar_uno m k f)
  unfolding sana
  soltar_uno-Sana m k f h = ground (arith, h)

  habilitar_uno-Sana : (m : Motor T) (f : Fondeo T) → Sana f → Sana (habilitar_uno m f)
  unfolding sana
  habilitar_uno-Sana m f h = ground (arith, h)

  cierre_con-Sana : (e : EstadoMonedas) (f : Fondeo T) → Sana f → Sana (cierre_con e f)
  unfolding sana
  cierre_con-Sana e f h = ground (arith, h)

  cerrar_uno-Sana : (m : Motor T) (k : Clave) (f : Fondeo T) → Sana f → Sana (cerrar_uno m k f)
  cerrar_uno-Sana m k f h = elim (Bool-cases (sin_moneda m (k, f))) [
    | inl e ↦ rw e (cierre_con-Sana (estado_de m.libro m.tip m.retro (minimo_de f)) f h)
    | inr e ↦ rw e h
  ]

  avisar_pedidos-Sanas :
      (enviar : Carta → Bool) (m : Motor T) → Sanas m → Sanas (avisar_pedidos enviar m).1
  unfolding avisar_pedidos
  avisar_pedidos-Sanas enviar m h =
      mandar-Sanas enviar carta_pedir pedida
        (por_pedir (mandar enviar carta_abort abortada (por_abortar m.fondeos) m.fondeos)) _
        pedida-Sana
        (mandar-Sanas enviar carta_abort abortada (por_abortar m.fondeos) m.fondeos abortada-Sana h)

  emitir_bloqueos-Sanas :
      (enviar : Carta → Bool) (m : Motor T) → Sanas m → Sanas (emitir_bloqueos enviar m).1
  unfolding emitir_bloqueos
  emitir_bloqueos-Sanas enviar m h =
      mandar-Sanas enviar carta_busqueda (λ x. record x { dije_busqueda = true })
        (por_buscar (mandar_bloqueos enviar (por_bloquear m.fondeos) m.fondeos)) _ buscada-Sana
        (mandar_bloqueos-Sanas enviar (por_bloquear m.fondeos) m.fondeos h)

  historia_en-Sanas : (t : Option ℕ) (m : Motor T) → Sanas m → Sanas (historia_en t m)
  historia_en-Sanas none m h = h
  historia_en-Sanas (some t) m h = ground (arith, h)

  visto-Sana :
      (si : Bool) (f : Fondeo T)
      → Sana f
      → Sana (record f { visto = si; error = if si then none else f.error })
  unfolding sana
  visto-Sana si f h = h

  recibir_visto-Sanas :
      (k : Clave) (pago si : Bool) (m : Motor T) → Sanas m → Sanas (recibir_visto k pago si m)
  unfolding recibir_visto
  recibir_visto-Sanas k true si m h = h
  recibir_visto-Sanas k false si m h = Todas-cambiar_clave Sana k _ m.fondeos (visto-Sana si) h

  tras_pedir-fondeos :
      (k : Clave) (r : Option Fallo × Motor T) → (tras_pedir k r).1.fondeos ≡ r.1.fondeos
  tras_pedir-fondeos k (none, m) = refl
  tras_pedir-fondeos k (some e, m) = refl

  tras_pedir-Sanas : (k : Clave) (r : Option Fallo × Motor T) → Sanas r.1 → Sanas (tras_pedir k r).1
  tras_pedir-Sanas k r h = rw (tras_pedir-fondeos k r) h

  empezar_en-Sanas :
      (o : Obra) (i : ℕ) (yo : Text) (p : Option Partida) (m : Motor T)
      → Sanas m
      → Sanas (empezar_en o i yo p m).2
  empezar_en-Sanas o i yo none m h = h
  empezar_en-Sanas o i yo (some p) m h =
      let m2 =
        nota o.id (some i) (Texto.falla (chars "fondeo-reinicio"))
          (limpiar_sesion_fondeo o.id i false m) in
      let nueva =
        insertar_fondeo-Sanas o i yo false m2
          (unfold nota in limpiar_sesion_fondeo-Sanas o.id i false m h) in
      ground (arith, h, tras_pedir-Sanas (o.id, i) (insertar_fondeo o i yo false m2) nueva)

  accion-Sanas : (a : Accion T) (m : Motor T) → Sanas m → Sanas (accion a m)
  unfolding accion
  accion-Sanas (pide o i yo) m h = insertar_fondeo-Sanas o i yo false m h
  accion-Sanas (pide_pago o i yo) m h = pedir_gasto-Sanas o i yo m h
  accion-Sanas (reinicia o i yo) m h =
      unfold empezar_fondeo_de_nuevo in empezar_en-Sanas o i yo (get_elem? o.partidas i) m h
  accion-Sanas (cancela obra i) m h = limpiar_sesion_fondeo-Sanas obra i false m h
  accion-Sanas (recibe r cs yo obras) m h = ingerir-Sanas r cs yo obras m h
  accion-Sanas (resuelve obras) m h =
      unfold limpiar_resueltos in
      Todas-filter Sana (λ e. not (muerta PartidaEstado.encerrando obras e.0)) m.fondeos h
  accion-Sanas suelta_avisos m h =
      unfold soltar_avisos_con_moneda in cada-Sanas (soltar_uno m) m.fondeos (soltar_uno-Sana m) h
  accion-Sanas habilita m h =
      unfold habilitar_pedidos in
      cada-Sanas (λ k. habilitar_uno m) m.fondeos (λ k. habilitar_uno-Sana m) h
  accion-Sanas cierra_busqueda m h =
      unfold cerrar_busqueda_vacia in cada-Sanas (cerrar_uno m) m.fondeos (cerrar_uno-Sana m) h
  accion-Sanas mira_atras m h = unfold empujar_historia in historia_en-Sanas m.tip m h
  accion-Sanas (avisa enviar) m h = avisar_pedidos-Sanas enviar m h
  accion-Sanas (bloquea enviar) m h = emitir_bloqueos-Sanas enviar m h
  accion-Sanas (ve k pago si) m h = recibir_visto-Sanas k pago si m h
  accion-Sanas (falla k pago msg) m h = fallar-Sanas k pago msg m h
  accion-Sanas (rechaza k) m h = rechaza-Sanas k m h
  accion-Sanas (arma r k decoys fee) m h = armar_fondeo-Sanas r k decoys fee m h
  accion-Sanas (cierra r ocupado) m h = cerrar_si_puede-Sanas r ocupado m h
  accion-Sanas (firma s enviar ocupado) m h = firmar_si_puede-Sanas s enviar ocupado m h
  accion-Sanas (publica k pago txid error) m h = recibir_publicado-Sanas k pago txid error m h
  accion-Sanas (punta tip) m h = h
  accion-Sanas (lee desde hasta tip retro entradas podar) m h = h
  accion-Sanas (crea w direccion) m h = ground (arith, h)

-- After any sequence of the steps of `Accion`, every funding is sane if all were: one that waits for a
-- coin has no notice and asks the other party for nothing, one that the other party opened asks for
-- nothing, and a notice of the other party's is not to be sent.
pub acciones-Sanas :
    {T : Tipos} (xs : List (Accion T)) (m : Motor T) → Sanas m → Sanas (acciones xs m)
unfolding acciones
acciones-Sanas [] m h = h
acciones-Sanas (a ∷ xs) m h = acciones-Sanas xs (accion a m) (accion-Sanas a m h)

abbrev pub Propia : {T : Tipos} → Clave × Fondeo T → Type 0
Propia e = (e.1.viene_del_par ≡ false) × (e.1.espera_moneda ≡ false) × (e.1.abortar ≡ false)

-- The sessions for which the tick asks the other party to fund.
unfoldable pub pedidas : {T : Tipos} → (Carta → Bool) → Motor T → Mapa (Fondeo T)
pedidas enviar m = por_pedir (mandar enviar carta_abort abortada (por_abortar m.fondeos) m.fondeos)
