-- ===== src/Motor/Sesiones/Lecturas.antt =====
-- caja.rs of the motor: what the node answers about the chain (`Listo::Punta`, `Listo::Saldo`), and a new
-- seed (`crear_semilla`). The files, the texts and the times are left out.
use home_builder_pay.Base.{ℕ, Bool, some, List, if◌then◌else◌, is_some, Text}
use home_builder_pay.Motor.Rastreo.{Entrada}
use home_builder_pay.Motor.Libros.{Salida, libro_nuevo, recibir_saldo}
use home_builder_pay.Motor.Sesiones.{Tipos, Motor}

module _ {T : Tipos} where
  abbrev pub recibir_punta : ℕ → Motor T → Motor T
  recibir_punta n m = record m { tip = some n }

  abbrev pub recibir_lectura :
      (desde hasta tip : ℕ) (retro : Bool) → List Entrada → List Salida → Motor T → Motor T
  recibir_lectura desde hasta tip retro entradas podar m =
      let (l, atras) = recibir_saldo desde hasta retro entradas podar m.retro m.libro in
      record m { tip = some tip; libro = l; retro = atras }

  -- With the seed that the generator draws.
  abbrev pub crear_semilla : T.Billetera → (direccion : Text) → Motor T → Motor T
  crear_semilla w direccion m =
      if is_some m.wallet
      then m
      else record m { wallet = some w; libro = libro_nuevo direccion; retro = 0 }
