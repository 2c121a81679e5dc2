-- ===== src/Motor/Sesiones/Buzon.antt =====
-- caja.rs of the motor: the messages on the joint keys, on the address of the other party and on what it
-- asks for.
use home_builder_pay.Base.{
  ℕ, Bool, true, false, ◌&&◌, ◌||◌, not, Option, none, some, List, [], ◌∷◌, ◌++◌, if◌then◌else◌,
  ltb, leb, ◌==◌, any, all, is_some, is_none, is_empty, byte_len, Text, text_eq,
}
use home_builder_pay.Base.Dict.{get, insert, contains_key}
use home_builder_pay.Acuerdo.{Obra}
use home_builder_pay.Red.{CajaMsg}
use home_builder_pay.Motor.Bytes.{parse_idx}
use home_builder_pay.Motor.Avisos.{AvisoFondeo, aviso_es_del_otro}
use home_builder_pay.Motor.Mapa.{leer_clave, sacar_clave, cambiar_clave}
use home_builder_pay.Motor.Sesiones.{
  Tipos, DkgInbox, DkgRun, Fondeo, Motor, insertar_fondeo, pedir_gasto,
}

-- `is_ascii_alphanumeric`, or a dash.
abbrev de_id : ℕ → Bool
de_id c = (leb 48 c && leb c 57) || (leb 65 c && leb c 90) || (leb 97 c && leb c 122) || c == 45

unfoldable pub id_sano : Text → Bool
id_sano id = not (is_empty id) && ltb (byte_len id) 80 && all de_id id

-- `HashSet::insert`
abbrev pub poner_id : Text → List Text → List Text
poner_id s ids = if any (text_eq s) ids then ids else ids ++ s ∷ []

-- A write to a slot that is empty: the first message counts.
abbrev pub poner_dkg : List ℕ → Option (List ℕ) → Option (List ℕ)
poner_dkg cuerpo none = some cuerpo
poner_dkg cuerpo (some b) = some b

pub data ParteDe : Type 0 where
  commit share view : ParteDe

abbrev pub poner_parte : ParteDe → List ℕ → DkgInbox → DkgInbox
poner_parte commit b d = record d { commit_otro = poner_dkg b d.commit_otro }
poner_parte share b d = record d { share_otro = poner_dkg b d.share_otro }
poner_parte view b d = record d { view_otro = poner_dkg b d.view_otro }

abbrev sin_dkg : DkgInbox
sin_dkg = record { commit_otro = none; share_otro = none; view_otro = none }

abbrev o_sin_dkg : Option DkgInbox → DkgInbox
o_sin_dkg none = sin_dkg
o_sin_dkg (some d) = d

abbrev pub es_view : ParteDe → Bool
es_view view = true
es_view _ = false

abbrev pub es_ajeno : Option AvisoFondeo → Bool
es_ajeno none = false
es_ajeno (some a) = aviso_es_del_otro a

-- `obras.iter().find(|o| o.id == id)`
abbrev pub buscar_obra : Text → List Obra → Option Obra
buscar_obra id [] = none
buscar_obra id (o ∷ os) = if text_eq o.id id then some o else buscar_obra id os

module _ {T : Tipos} where
  unfoldable pub guardar_par : Text → Text → Motor T → Motor T
  unfolding id_sano
  guardar_par obra addr m =
      if is_empty obra || is_empty addr || not (id_sano obra)
      then m
      else record m { pares = insert obra addr m.pares }

  abbrev pub buffer_en : Text → ParteDe → List ℕ → Option (DkgRun T) → Motor T → Motor T
  buffer_en obra cual b (some run) m = record m {
    dkg = insert obra (record run { otro = poner_parte cual b run.otro }) m.dkg;
  }
  buffer_en obra cual b none m = record m {
    dkg_inbox = insert obra (poner_parte cual b (o_sin_dkg (get obra m.dkg_inbox))) m.dkg_inbox;
  }

  unfoldable pub buffer_dkg : Text → ParteDe → List ℕ → Motor T → Motor T
  buffer_dkg obra cual b m =
      if contains_key obra m.cuentas
      then if es_view cual then record m { pedir_view = poner_id obra m.pedir_view } else m
      else buffer_en obra cual b (get obra m.dkg) m

  abbrev pub soltar_aviso_ajeno : Fondeo T → Fondeo T
  soltar_aviso_ajeno f = record f {
    par_buscando = false;
    aviso = if es_ajeno f.aviso then none else f.aviso;
  }

  abbrev pub abrir_con : Obra → ℕ → Text → Option (Fondeo T) → Motor T → Motor T
  abrir_con o i yo none m = (insertar_fondeo o i yo true m).1
  abrir_con o i yo (some f) m =
      if f.solo_aviso && is_none f.txid
      then (insertar_fondeo o i yo true (record m { fondeos = sacar_clave (o.id, i) m.fondeos })).1
      else record m { fondeos = cambiar_clave (o.id, i) soltar_aviso_ajeno m.fondeos }

  abbrev pub abrir_en : Text → Option ℕ → Option Obra → Motor T → Motor T
  abrir_en yo (some i) (some o) m = abrir_con o i yo (leer_clave (o.id, i) m.fondeos) m
  abrir_en yo _ _ m = m

  unfoldable pub abrir_fondeo_red : CajaMsg → List Obra → (yo : Text) → Motor T → Motor T
  abrir_fondeo_red c obras yo m = abrir_en yo (parse_idx c.cuerpo) (buscar_obra c.obra obras) m

  abbrev pub gasto_red : Text → Option ℕ → Option Obra → Motor T → Motor T
  gasto_red yo (some i) (some o) m =
      if is_some (leer_clave (o.id, i) m.gastos) then m else (pedir_gasto o i yo m).1
  gasto_red yo _ _ m = m

  unfoldable pub abrir_gasto_red : CajaMsg → List Obra → (yo : Text) → Motor T → Motor T
  abrir_gasto_red c obras yo m = gasto_red yo (parse_idx c.cuerpo) (buscar_obra c.obra obras) m
