-- ===== src/Motor/Acciones/Botones.antt =====
-- caja.rs of the motor: what a button that is shown calls succeeds. The buttons are those of
-- konstruado-ffi/src/lib.rs, which the desktop program has as well; before each of them the program checks
-- that the other party is on line, which is left out.
use home_builder_pay.Base.{
  ℕ, ◌≡◌, Bool, true, false, ◌&&◌, ◌||◌, not, Option, Text, ℤ, ok, is_ok, is_some, is_none,
  get_elem?, leb,
}
use home_builder_pay.Precio.{PrecioFijado, es_usd, unidades_a_piconero}
use home_builder_pay.Montos.{limpia_nota}
use home_builder_pay.Acuerdo.{Persona, Partida, Obra, capital, es_propuesto}
use home_builder_pay.Acuerdo.Partes.{participa}
use home_builder_pay.Acuerdo.Operaciones.{
  precio_sirve, editar_detalle, encerrar_proponer_con, encerrar_cancelar, avisar_termino,
  contra_pago,
}
use home_builder_pay.Motor.Acciones.{AccionesPartida}
use home_builder_pay.Motor.Sesiones.{Tipos, Motor, insertar_fondeo, pedir_gasto}
use home_builder_pay.Motor.Sesiones.Cartas.{empezar_fondeo_de_nuevo}

-- A button, with what the user has written.
pub data Boton : Type 0 where
  editar : Text → Boton
  proponer : Option PrecioFijado → Boton
  cancelar confirmar empezar_de_nuevo no_encerrar : Boton
  terminar : ℕ → Text → Boton
  aceptar : Boton
  contraofertar : ℕ → Text → Boton
  salir : Boton

abbrev pub mostrado : Boton → AccionesPartida → Bool
mostrado (editar t) a = a.editar_texto
mostrado (proponer pr) a = a.proponer_encierre
mostrado cancelar a = a.cancelar_propuesta
mostrado confirmar a = a.confirmar_fondeo
mostrado empezar_de_nuevo a = a.empezar_fondeo_de_nuevo
mostrado no_encerrar a = a.no_encerrar
mostrado (terminar n t) a = a.avisar_termino
mostrado aceptar a = a.aceptar_pago
mostrado (contraofertar n t) a = a.contraofertar
mostrado salir a = a.salir_local

-- Whether what the button calls succeeds: a method of `Obra`, or of the wallet where the lock is confirmed,
-- the funding is begun again and the payment is accepted. Leaving an
-- installment on this machine (`salir_partida_local`) asks only that the user is a party and the
-- installment there.
unfoldable pub pulsar : {T : Tipos} → Boton → Motor T → Obra → ℕ → Persona → ℤ → Bool
pulsar (editar t) m o i q now = is_ok (editar_detalle i q t now o).0
pulsar (proponer pr) m o i q now = is_ok (encerrar_proponer_con i q pr now o).0
pulsar cancelar m o i q now = is_ok (encerrar_cancelar i q now o).0
pulsar confirmar m o i q now = is_none (insertar_fondeo o i q.id false m).0
pulsar empezar_de_nuevo m o i q now = is_none (empezar_fondeo_de_nuevo o i q.id m).0
pulsar no_encerrar m o i q now = is_ok (encerrar_cancelar i q now o).0
pulsar (terminar n t) m o i q now = is_ok (avisar_termino i q n t now o).0
pulsar aceptar m o i q now = is_none (pedir_gasto o i q.id m).0
pulsar (contraofertar n t) m o i q now = is_ok (contra_pago i q n t now o).0
pulsar salir m o i q now = participa o q.id && is_some (get_elem? o.partidas i)

-- In a job whose capital is not in dollars, its amount in piconero fits in 64 bits.
abbrev pub Contado : Obra → Partida → Type 0
Contado o p = es_usd o.moneda || is_some (unidades_a_piconero (capital p o.garantia)) ≡ true

-- What the user has written fits: a price for the capital, where the job is in dollars; a percentage
-- from 1 to 100 and a note that is not too long; another percentage than the one proposed.
abbrev pub Sirve : Boton → Obra → Partida → Type 0
Sirve (proponer pr) o p = not (es_usd o.moneda) || precio_sirve pr (capital p o.garantia) ≡ true
Sirve (terminar n t) o p = (leb 1 n && leb n 100 ≡ true) × ((x : Text) × (limpia_nota t ≡ ok x))
Sirve (contraofertar n t) o p =
    (leb 1 n && leb n 100 ≡ true)
    × ((x : Text) × (limpia_nota t ≡ ok x))
    × (es_propuesto p.propuesto n ≡ false)
Sirve confirmar o p = Contado o p
Sirve empezar_de_nuevo o p = Contado o p
Sirve aceptar o p = Contado o p
Sirve _ o p = Unit {0}
