-- ===== src/Motor/Sesiones/Valida.antt =====
-- What holds of every funding session, and that messages and ticks keep it.
use home_builder_pay.Base.{
  ℕ, ◌≡◌, inl, inr, Bool, true, false, ◌&&◌, ◌||◌, not, Option, none, some, arith, is_some, is_none,
  get_elem?, Bool-cases, Text, text_eq,
}
use home_builder_pay.Acuerdo.{Partida, Obra}
use home_builder_pay.Acuerdo.Operaciones.{piconero_partida}
use home_builder_pay.Motor.Avisos.{AvisoFondeo}
use home_builder_pay.Motor.Mapa.{Todas, leer_clave, Todas-poner_clave}
use home_builder_pay.Motor.Sesiones.{
  Tipos, Fondeo, Motor, clasificar_fondeo, fondeo_nuevo, fondeo_vacio, insertar_fondeo, insertar_en,
  insertar_con, minimo_fondeo, otro_id,
}
use home_builder_pay.Motor.Sesiones.Buzon.{es_ajeno, soltar_aviso_ajeno}

-- A session that waits for a coin has no notice and asks for nothing; one that the other party opened
-- asks for nothing; a notice of the other party's is not to be sent.
unfoldable pub sana : {T : Tipos} → Fondeo T → Bool
sana f =
    (not f.espera_moneda || is_none f.aviso)
    && (not f.espera_moneda || not f.avisar)
    && (not f.viene_del_par || not f.avisar)
    && (not (es_ajeno f.aviso) || f.aviso_enviado)

abbrev Clasificado : Option AvisoFondeo × Bool → Type 0
Clasificado c = (es_ajeno c.0 ≡ false) × ((not c.1 || is_none c.0) ≡ true)

-- A new session.
module _ (T : Tipos) where
  fondeo_nuevo-sana :
      (peer : Text) (capital : ℕ) (b d : Bool) (c : Option AvisoFondeo × Bool)
      → Clasificado c
      → sana (fondeo_nuevo {T = T} peer capital b d c) ≡ true
  unfolding sana
  fondeo_nuevo-sana peer capital b d (a, e) h = ground (arith, h)

  pub fondeo_vacio-sana :
      (peer : Text) (error : Option Text) (a : Option AvisoFondeo)
      → sana (fondeo_vacio {T = T} peer error a) ≡ true
  unfolding sana
  fondeo_vacio-sana peer error a = ground arith

module _ {T : Tipos} where
  abbrev pub Sana : Fondeo T → Type 0
  Sana f = sana f ≡ true

  abbrev pub Sanas : Motor T → Type 0
  Sanas m = Todas Sana m.fondeos

  clasificar_fondeo-Clasificado :
      (m : Motor T) (obra : Text) (minimo : ℕ) → Clasificado (clasificar_fondeo m obra minimo)
  unfolding clasificar_fondeo
  clasificar_fondeo-Clasificado m obra minimo = ground arith

  insertar_con-Sanas :
      (o : Obra) (i : ℕ) (yo : Text) (d : Bool) (c : Option ℕ) (m : Motor T)
      → Sanas m
      → Sanas (insertar_con o i yo d c m).1
  insertar_con-Sanas o i yo d none m h = h
  insertar_con-Sanas o i yo d (some c) m h =
      let q = clasificar_fondeo m o.id (minimo_fondeo (text_eq o.mandante.id yo) c) in
      let f = fondeo_nuevo (otro_id o yo) c (text_eq o.mandante.id yo) d q in
      let p =
        fondeo_nuevo-sana T (otro_id o yo) c (text_eq o.mandante.id yo) d q
          (clasificar_fondeo-Clasificado m o.id (minimo_fondeo (text_eq o.mandante.id yo) c)) in
      elim (Bool-cases (is_some (leer_clave (o.id, i) m.fondeos))) [
        | inl e ↦ rw e h
        | inr e ↦ rw e (Todas-poner_clave Sana (o.id, i) f m.fondeos p h)
      ]

  insertar_en-Sanas :
      (o : Obra) (i : ℕ) (yo : Text) (d : Bool) (p : Option Partida) (m : Motor T)
      → Sanas m
      → Sanas (insertar_en o i yo d p m).1
  insertar_en-Sanas o i yo d none m h = h
  insertar_en-Sanas o i yo d (some p) m h =
      ground (arith, insertar_con-Sanas o i yo d (piconero_partida o i) m h, h)

  pub insertar_fondeo-Sanas :
      (o : Obra) (i : ℕ) (yo : Text) (d : Bool) (m : Motor T)
      → Sanas m
      → Sanas (insertar_fondeo o i yo d m).1
  unfolding insertar_fondeo
  insertar_fondeo-Sanas o i yo d m h = insertar_en-Sanas o i yo d (get_elem? o.partidas i) m h

  pub soltar_aviso_ajeno-Sana : (f : Fondeo T) → Sana f → Sana (soltar_aviso_ajeno f)
  unfolding sana
  soltar_aviso_ajeno-Sana f h = ground (arith, h)
