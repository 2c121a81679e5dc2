-- ===== src/Motor/Acciones.antt =====
-- caja.rs of the motor: which buttons an installment has.

pub mod Avance
pub mod Botones
pub mod Candado
use home_builder_pay.Base.{
  ℕ, ◌-◌, Bool, true, false, ◌&&◌, ◌||◌, not, Option, none, some, List, [], ◌∷◌, if◌then◌else◌, ltb,
  leb, ◌==◌, Text, text_eq, any, is_some, is_none, get_elem?,
}
use home_builder_pay.Acuerdo.{
  Persona, Rol, Partida, PartidaEstado, Obra, EstadoObra, partida_en_estado, obra_en_estado,
}
use home_builder_pay.Acuerdo.Operaciones.{esta_terminada}
use home_builder_pay.Acuerdo.Partes.{activa}
use home_builder_pay.Motor.{suma_sat, desbloqueo}
use home_builder_pay.Motor.Lineas.{Texto, es_freno, EnCurso, en_curso, rango_curso}

abbrev pub puede_empezar_fondeo_de_nuevo : (encerrando frenado : Bool) → Bool
puede_empezar_fondeo_de_nuevo encerrando frenado = encerrando && frenado

pub data Traba : Type 0 where
  libre sin_bloque : Traba
  faltan : (faltan : Option ℕ) → (libre : ℕ) → Traba

abbrev pub trabada : Traba → Bool
trabada Traba.libre = false
trabada _ = true

abbrev hasta_libre : ℕ → Option ℕ → Traba
hasta_libre l none = Traba.faltan none l
hasta_libre l (some t) = if leb l t then Traba.libre else Traba.faltan (some (l - t)) l

abbrev traba_en : Option ℕ → Option ℕ → Traba
traba_en none tip = Traba.sin_bloque
traba_en (some h) tip = hasta_libre (suma_sat h desbloqueo) tip

unfoldable pub traba_partida : Partida → (altura_fondeo tip : Option ℕ) → Traba
traba_partida p altura_fondeo tip =
    if not
      (partida_en_estado p PartidaEstado.encerrada || partida_en_estado p PartidaEstado.en_trato)
    then Traba.libre
    else if is_none p.fondeo_txid || is_some p.pago_txid
    then Traba.libre
    else traba_en altura_fondeo tip

pub record AccionesPartida : Type 0 where
  pub en_curso : EnCurso
  pub frenado : Bool
  pub editar_texto : Bool
  pub proponer_encierre : Bool
  pub cancelar_propuesta : Bool
  pub confirmar_fondeo : Bool
  pub empezar_fondeo_de_nuevo : Bool
  pub no_encerrar : Bool
  pub avisar_termino : Bool
  pub aceptar_pago : Bool
  pub contraofertar : Bool
  pub salir_local : Bool
  pub me_toca : Bool
  pub traba : Traba

abbrev pub sin_acciones : AccionesPartida
sin_acciones = record {
  en_curso = EnCurso.nada;
  frenado = false;
  editar_texto = false;
  proponer_encierre = false;
  cancelar_propuesta = false;
  confirmar_fondeo = false;
  empezar_fondeo_de_nuevo = false;
  no_encerrar = false;
  avisar_termino = false;
  aceptar_pago = false;
  contraofertar = false;
  salir_local = false;
  me_toca = false;
  traba = Traba.libre;
}

-- The line that is furthest on.
unfoldable pub mas_avanzada : List Texto → EnCurso → EnCurso
mas_avanzada [] e = e
mas_avanzada (l ∷ ls) e =
    mas_avanzada ls (if ltb (rango_curso e) (rango_curso (en_curso l)) then en_curso l else e)

unfoldable pub curso_de : Partida → List Texto → EnCurso
unfolding mas_avanzada
curso_de p lineas =
    if is_some p.pago_txid && not (partida_en_estado p PartidaEstado.pagada)
    then EnCurso.pago_en_red
    else mas_avanzada lineas EnCurso.nada

abbrev es_de : Option Persona → Text → Bool
es_de none mid = false
es_de (some q) mid = text_eq q.id mid

abbrev es_indice : Option ℕ → ℕ → Bool
es_indice none i = false
es_indice (some j) i = j == i

abbrev en_red : EnCurso → Bool
en_red e = rango_curso e == 2 || rango_curso e == 4

abbrev pagando : EnCurso → Bool
pagando e = rango_curso e == 3 || rango_curso e == 4

-- The arms of `match p.estado`.
abbrev si_encerrando : (soy_prop : Bool) → AccionesPartida → AccionesPartida
si_encerrando soy_prop a =
    let b =
      if soy_prop && not a.frenado
      then record a { cancelar_propuesta = not (en_red a.en_curso) }
      else if puede_empezar_fondeo_de_nuevo true a.frenado
      then record a { empezar_fondeo_de_nuevo = true; no_encerrar = true }
      else if rango_curso a.en_curso == 0
      then record a { confirmar_fondeo = true; no_encerrar = true }
      else record a { no_encerrar = not (en_red a.en_curso) } in
    record b { salir_local = not (en_red a.en_curso) }

abbrev toca : Option Rol → (soy_m soy_c : Bool) → Bool
toca none soy_m soy_c = false
toca (some Rol.mandante) soy_m soy_c = soy_m
toca (some Rol.contratista) soy_m soy_c = soy_c

abbrev si_en_trato : (me_toca : Bool) → Traba → AccionesPartida → AccionesPartida
si_en_trato me_toca traba a = record a {
  me_toca = me_toca;
  traba = if not (pagando a.en_curso) then traba else a.traba;
  aceptar_pago = me_toca && not (pagando a.en_curso) && not (trabada traba);
  contraofertar = me_toca && not (pagando a.en_curso);
}

abbrev por_estado :
    PartidaEstado
    → (pendiente encerrando encerrada en_trato pagada : AccionesPartida) → AccionesPartida
por_estado PartidaEstado.pendiente a b c d e = a
por_estado PartidaEstado.encerrando a b c d e = b
por_estado PartidaEstado.encerrada a b c d e = c
por_estado PartidaEstado.en_trato a b c d e = d
por_estado PartidaEstado.pagada a b c d e = e

unfoldable pub acciones_de : Obra → ℕ → Partida → Text → List Texto → Traba → AccionesPartida
unfolding curso_de activa
acciones_de o i p mid lineas traba =
    let soy_m = text_eq o.mandante.id mid in
    let soy_c = text_eq o.contratista.id mid in
    let a = record sin_acciones { frenado = any es_freno lineas; en_curso = curso_de p lineas } in
    if not soy_m && not soy_c
    then sin_acciones
    else if esta_terminada o
    then a
    else por_estado p.estado
        (record a {
          editar_texto = true;
          proponer_encierre = not (obra_en_estado o EstadoObra.contra) && es_indice (activa o) i;
          salir_local = a.frenado;
        })
        (si_encerrando (es_de p.encerrado_por mid) a)
        (record a { traba = traba; avisar_termino = soy_c && not (trabada traba) })
        (si_en_trato (toca p.turno soy_m soy_c) traba a) a

unfoldable pub acciones_partida_con : Obra → ℕ → Text → List Texto → Traba → AccionesPartida
unfolding acciones_de
acciones_partida_con o i mid lineas traba = elim (get_elem? o.partidas i) [
  | none ↦ sin_acciones
  | some p ↦ acciones_de o i p mid lineas traba
]
