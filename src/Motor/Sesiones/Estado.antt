-- ===== src/Motor/Sesiones/Estado.antt =====
-- caja.rs of the motor: the state of the wallet, with what it keeps of each funding and of each payment
-- that is under way. The types of the Monero library and of the joint keys are opaque here, as they are
-- to this code; the times of the last attempts and the files are left out.
use home_builder_pay.Base.{ℕ, Bool, Option, List, Text}
use home_builder_pay.Base.Dict.{Dict}
use home_builder_pay.Motor.Lineas.{Texto}
use home_builder_pay.Motor.Rastreo.{LibroCaja}
use home_builder_pay.Motor.Avisos.{AvisoFondeo}
use home_builder_pay.Motor.Libros.{Libro, Salida}
use home_builder_pay.Motor.Mapa.{Mapa}

pub record Tipos : Type 1 where
  pub Billetera : Type 0
  pub Cuenta : Type 0
  pub ParteDkg : Type 0
  pub Propuesta : Type 0
  pub Decoys : Type 0
  pub Esqueleto : Type 0
  pub PropuestaPago : Type 0
  pub SesionPago : Type 0
  pub Firmado : Type 0

pub record DkgInbox : Type 0 where
  pub commit_otro : Option (List ℕ)
  pub share_otro : Option (List ℕ)
  pub view_otro : Option (List ℕ)

-- `otro` holds `commit_otro`, `share_otro` and `view_otro`.
pub record DkgRun (T : Tipos) : Type 0 where
  pub party : T.ParteDkg
  pub commit : List ℕ
  pub otro : DkgInbox
  pub envie_commit : Bool
  pub envie_share : Bool
  pub envie_view : Bool

pub record SobreFondeo : Type 0 where
  pub proposal : Text
  pub view : Text
  pub direccion : Text

pub record SobreGasto : Type 0 where
  pub proposal : Text
  pub pre : Text

pub record Fondeo (T : Tipos) : Type 0 where
  pub peer : Text
  pub capital : ℕ  -- u64
  pub soy_mandante : Bool
  pub propuesta : Option T.Propuesta
  pub outputs : Option T.Decoys
  pub esqueleto : Option T.Esqueleto
  pub sobre : Option SobreFondeo
  pub blob : Option (List ℕ)
  pub txid : Option Text
  pub visto : Bool
  pub error : Option Text
  pub aviso : Option AvisoFondeo
  pub aviso_enviado : Bool
  pub avisar : Bool
  pub avise_pedir : Bool
  pub espera_moneda : Bool
  pub dije_busqueda : Bool
  pub viene_del_par : Bool
  pub solo_aviso : Bool
  pub par_buscando : Bool
  pub abortar : Bool
  pub gastadas : Option (List Salida)

pub record Gasto (T : Tipos) : Type 0 where
  pub peer : Text
  pub capital : ℕ  -- u64
  pub pct : ℕ  -- u32
  pub soy_mandante : Bool
  pub propuesta : Option T.PropuestaPago
  pub session : Option T.SesionPago
  pub signed : Option T.Firmado
  pub pre_otro : Option (List ℕ)
  pub share_otro : Option (List ℕ)
  pub envie_open : Bool
  pub envie_pre : Bool
  pub envie_share : Bool
  pub blob : Option (List ℕ)
  pub txid : Option Text
  pub visto : Bool
  pub error : Option Text
  pub avisar : Bool

pub record Linea : Type 0 where
  pub obra : Text
  pub partida : Option ℕ
  pub texto : Texto

-- The part of the state that the sessions use.
pub record Motor (T : Tipos) : Type 0 where
  pub wallet : Option T.Billetera
  pub cuentas : Dict T.Cuenta
  pub dkg : Dict (DkgRun T)
  pub dkg_inbox : Dict DkgInbox
  pub fondeos : Mapa (Fondeo T)
  pub gastos : Mapa (Gasto T)
  pub pares : Dict Text
  pub pedir_view : List Text
  pub tip : Option ℕ
  pub lineas : List Linea
  pub libro : Libro
  pub retro : ℕ
  pub cajas_libros : Dict LibroCaja
