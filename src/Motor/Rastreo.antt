-- ===== src/Motor/Rastreo.antt =====
-- caja.rs of the motor: the book of the outputs of a job, and how the chain is read for it, some blocks
-- at a time. What the node answers is the parameter `cadena`: the outputs of each block.
pub mod Hallazgos
pub mod Alcance
pub mod Fin
use home_builder_pay.Base.{
  ℕ, suc, zero, ◌+◌, ◌-◌, Bool, true, false, ◌&&◌, ◌||◌, not, Option, none, some, List, [], ◌∷◌,
  ◌++◌, if◌then◌else◌, ltb, leb, ◌==◌, any, Text, text_eq,
}
use home_builder_pay.Motor.{suma_sat, minimo, lookback, max_historia, paso_atras_caja, paso_scan}

-- `Entrada` and `EntradaNueva`.
pub record Entrada : Type 0 where
  pub altura : ℕ
  pub monto : ℕ  -- u64
  pub tx : Text
  pub indice : ℕ  -- u64
  pub raw : List ℕ

pub record LibroCaja : Type 0 where
  pub direccion : Text
  pub desde : ℕ
  pub hasta : ℕ
  pub listo : Bool
  pub retro : ℕ
  pub entradas : List Entrada

-- `LibroCaja::nueva`
abbrev pub nueva : Text → LibroCaja
nueva direccion = record {
  direccion = direccion;
  desde = 0;
  hasta = 0;
  listo = false;
  retro = 0;
  entradas = [];
}

-- `true` where it goes back.
unfoldable pub siguiente_trozo :
    (tip desde hasta : ℕ) → (listo : Bool) → (retro : ℕ) → Option (ℕ × ℕ × Bool)
siguiente_trozo tip desde hasta listo retro =
    if not listo
    then some (tip - lookback, tip, false)
    else if ltb hasta tip
    then (let d = suma_sat hasta 1 in some (d, minimo (suma_sat d (paso_scan - 1)) tip, false))
    else if ltb 0 retro && ltb 0 desde
    then (let n = minimo (minimo retro paso_scan) desde in
        let h = desde - 1 in some (h + 1 - n, h, true))
    else none

unfoldable pub sumar_atras : (tip desde : ℕ) → (listo : Bool) → (retro : ℕ) → ℕ
sumar_atras tip desde listo retro =
    if listo && desde == 0
    then 0
    else let profundidad =
        if listo then suma_sat (tip - desde) retro else suma_sat lookback retro in
      minimo (max_historia - profundidad) paso_atras_caja

unfoldable pub bloques_mirados : Option ℕ → LibroCaja → ℕ
bloques_mirados none libro =
    if libro.listo
    then suma_sat (libro.hasta - libro.desde) libro.retro
    else suma_sat lookback libro.retro
bloques_mirados (some tip) libro =
    if libro.listo then suma_sat (tip - libro.desde) libro.retro else suma_sat lookback libro.retro

abbrev pub misma : Entrada → Entrada → Bool
misma n e = text_eq e.tx n.tx && e.indice == n.indice

-- `fundir_caja`: the loop over what was found.
unfoldable pub fundir_caja : List Entrada → List Entrada → List Entrada
fundir_caja es [] = es
fundir_caja es (n ∷ ns) =
    fundir_caja (if n.monto == 0 then es else if any (misma n) es then es else es ++ n ∷ []) ns

-- `Listo::CajaScan` without an error.
unfoldable pub recibir_trozo :
    (desde hasta : ℕ) → (retro : Bool) → List Entrada → LibroCaja → LibroCaja
unfolding fundir_caja
recibir_trozo desde hasta retro entradas l =
    let f = record l { entradas = fundir_caja l.entradas entradas } in
    if retro
    then record f { desde = desde; retro = l.retro - suma_sat (hasta - desde) 1 }
    else if not l.listo
    then record f { desde = desde; hasta = hasta; listo = true }
    else record f { hasta = if ltb hasta l.hasta then l.hasta else hasta }

-- `pedir_atras_caja`: what it changes of the book.
unfoldable pub pedir_atras : ℕ → LibroCaja → LibroCaja
unfolding sumar_atras
pedir_atras tip l =
    let n = sumar_atras tip l.desde l.listo l.retro in
    if n == 0 then l else record l { retro = suma_sat l.retro n }

-- `caja_cubierta`
abbrev pub caja_cubierta : Option ℕ → LibroCaja → Bool
caja_cubierta none l = false
caja_cubierta (some tip) l = l.listo && leb tip l.hasta && l.retro == 0

module _ (cadena : ℕ → List Entrada) where
  -- What the node finds in `n` blocks from `d`.
  unfoldable pub hallar : (d n : ℕ) → List Entrada
  hallar d zero = []
  hallar d (suc n) = cadena d ++ hallar (suc d) n

  abbrev por_trozo : Option (ℕ × ℕ × Bool) → LibroCaja → Option LibroCaja
  por_trozo none l = none
  por_trozo (some (d, h, retro)) l =
      if ltb h d then none else some (recibir_trozo d h retro (hallar d (suc h - d)) l)

  -- `lanzar_trozo_caja` and the answer to it.
  unfoldable pub trozo : (tip : ℕ) → LibroCaja → Option LibroCaja
  unfolding siguiente_trozo recibir_trozo hallar
  trozo tip l = por_trozo (siguiente_trozo tip l.desde l.hasta l.listo l.retro) l

  abbrev o_igual : Option LibroCaja → LibroCaja → LibroCaja
  o_igual none l = l
  o_igual (some l2) l = l2

  -- `n` turns at the same tip.
  unfoldable pub rastrear : (n tip : ℕ) → LibroCaja → LibroCaja
  unfolding trozo
  rastrear zero tip l = l
  rastrear (suc n) tip l = rastrear n tip (o_igual (trozo tip l) l)

-- What happens to a book: a turn, or the user asks to look further back.
pub data Turno : Type 0 where
  mira pide : (tip : ℕ) → Turno

unfoldable pub turno : (ℕ → List Entrada) → Turno → LibroCaja → LibroCaja
unfolding trozo pedir_atras
turno cadena (mira tip) l = o_igual cadena (trozo cadena tip l) l
turno cadena (pide tip) l = pedir_atras tip l

unfoldable pub turnos : (ℕ → List Entrada) → List Turno → LibroCaja → LibroCaja
unfolding turno
turnos cadena [] l = l
turnos cadena (t ∷ ts) l = turnos cadena ts (turno cadena t l)
