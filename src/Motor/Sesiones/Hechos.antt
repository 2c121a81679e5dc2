-- ===== src/Motor/Sesiones/Hechos.antt =====
-- What the wallet has seen in the chain is accepted by the job.
use mathlib.Core.Option.{some-injective}
use home_builder_pay.Base.{
  ℕ, ◌≡◌, refl, sym, subst, ap, ◌∙◌, inl, inr, ◌⊎◌, Bool, true, false, ◌&&◌, Option, none, some,
  List, [], ◌∷◌, arith, if◌then◌else◌, ℤ, ok, err, Result, is_some, get_elem?, All, All-append,
  All-get_elem?, get_elem?-set_self, Bool-cases, Text,
}
use home_builder_pay.Precio.{es_usd}
use home_builder_pay.Sellado.{Cripto, preparar_para_red}
use home_builder_pay.Sellado.Conserva.{preparar_para_red-sin_notas}
use home_builder_pay.Acuerdo.{Persona, Partida, PartidaEstado, Obra, partida_en_estado, capital}
use home_builder_pay.Acuerdo.Operaciones.{
  encerrar_confirmar, aceptar_pago, confirmada, cobrada, recibo_de,
}
use home_builder_pay.Acuerdo.Efecto.{encerrar_confirmar-ok, aceptar_pago_en}
use home_builder_pay.Acuerdo.Invariante.{ObraValida, PartidaValida}
use home_builder_pay.Motor.Mapa.{Clave, Mapa}
use home_builder_pay.Motor.Sesiones.{Tipos, Motor, Fondeo, Gasto, rol_en}
use home_builder_pay.Motor.Sesiones.Buzon.{buscar_obra}
use home_builder_pay.Motor.Sesiones.Turnos.{
  Hecho, hechos, hechos_fondeo, hechos_pago, fondeo_en, pago_en, hecho_fondeo, hecho_pago, por_otro,
  mismo_rol,
}
use home_builder_pay.Motor.Sesiones.Asiento.{
  tras, confirma, asentar_fondeo, asentar_pago, asentar, aplicar_hecho,
}

-- Where a fact comes from.
abbrev Viene : (yo : Text) → List Obra → Hecho → Type 0
Viene yo obras h =
    (o : Obra) × (p : Partida) × (t : Text) × (buscar_obra h.obra obras ≡ some o)
    × (get_elem? o.partidas h.partida ≡ some p)
    × (((h.fondeo ≡ some t)
          × (h.pago ≡ none)
          × (p.estado ≡ PartidaEstado.encerrando)
          × (por_otro p.encerrado_por yo ≡ true))
        ⊎ ((h.fondeo ≡ none)
            × (h.pago ≡ some t)
            × (p.estado ≡ PartidaEstado.en_trato)
            × (mismo_rol p.turno (rol_en o yo) ≡ true)))

module _ (yo : Text) (obras : List Obra) where
  hecho_fondeo-Viene :
      (k : Clave) (t : Text) (o : Obra) (q : Option Partida)
      → buscar_obra k.0 obras ≡ some o
      → get_elem? o.partidas k.1 ≡ q
      → All (Viene yo obras) (hecho_fondeo k yo t q)
  hecho_fondeo-Viene k t o none b e = tt
  hecho_fondeo-Viene k t o (some p) b e =
      elim (Bool-cases
        (partida_en_estado p PartidaEstado.encerrando && por_otro p.encerrado_por yo)) [
          | inl c ↦ rw c ((o, p, t, b, e, inl (refl, refl, ground arith, ground arith)), tt)
          | inr c ↦ rw c tt
        ]

  hecho_pago-Viene :
      (k : Clave) (t : Text) (o : Obra) (q : Option Partida)
      → buscar_obra k.0 obras ≡ some o
      → get_elem? o.partidas k.1 ≡ q
      → All (Viene yo obras) (hecho_pago k yo t o q)
  hecho_pago-Viene k t o none b e = tt
  hecho_pago-Viene k t o (some p) b e =
      elim (Bool-cases
        (partida_en_estado p PartidaEstado.en_trato && mismo_rol p.turno (rol_en o yo))) [
          | inl c ↦ rw c ((o, p, t, b, e, inr (refl, refl, ground arith, ground arith)), tt)
          | inr c ↦ rw c tt
        ]

  fondeo_en-Viene :
      (k : Clave) (t : Option Text) (q : Option Obra)
      → buscar_obra k.0 obras ≡ q
      → All (Viene yo obras) (fondeo_en k yo t q)
  fondeo_en-Viene k none q b = tt
  fondeo_en-Viene k (some t) none b = tt
  fondeo_en-Viene k (some t) (some o) b = hecho_fondeo-Viene k t o (get_elem? o.partidas k.1) b refl

  pago_en-Viene :
      (k : Clave) (t : Option Text) (q : Option Obra)
      → buscar_obra k.0 obras ≡ q
      → All (Viene yo obras) (pago_en k yo t q)
  pago_en-Viene k none q b = tt
  pago_en-Viene k (some t) none b = tt
  pago_en-Viene k (some t) (some o) b = hecho_pago-Viene k t o (get_elem? o.partidas k.1) b refl

  si_visto-Viene :
      (b : Bool) (hs : List Hecho)
      → All (Viene yo obras) hs
      → All (Viene yo obras) (if b then hs else [])
  si_visto-Viene true hs h = h
  si_visto-Viene false hs h = tt

  module _ {T : Tipos} where
    hechos_fondeo-Viene : (m : Mapa (Fondeo T)) → All (Viene yo obras) (hechos_fondeo yo obras m)
    unfolding hechos_fondeo
    hechos_fondeo-Viene [] = tt
    hechos_fondeo-Viene ((k, f) ∷ m) =
        All-append (Viene yo obras) _ (hechos_fondeo yo obras m)
          (si_visto-Viene f.visto (fondeo_en k yo f.txid (buscar_obra k.0 obras))
            (fondeo_en-Viene k f.txid (buscar_obra k.0 obras) refl))
          (hechos_fondeo-Viene m)

    hechos_pago-Viene : (m : Mapa (Gasto T)) → All (Viene yo obras) (hechos_pago yo obras m)
    unfolding hechos_pago
    hechos_pago-Viene [] = tt
    hechos_pago-Viene ((k, g) ∷ m) =
        All-append (Viene yo obras) _ (hechos_pago yo obras m)
          (si_visto-Viene g.visto (pago_en k yo g.txid (buscar_obra k.0 obras))
            (pago_en-Viene k g.txid (buscar_obra k.0 obras) refl))
          (hechos_pago-Viene m)

    hechos-Viene : (m : Motor T) → All (Viene yo obras) (hechos yo obras m)
    unfolding hechos
    hechos-Viene m =
        All-append (Viene yo obras) (hechos_fondeo yo obras m.fondeos)
          (hechos_pago yo obras m.gastos) (hechos_fondeo-Viene m.fondeos)
          (hechos_pago-Viene m.gastos)

tras-ok :
    (f : Partida → Partida) (i : ℕ) (r : Result (Unit {0}) × Obra) (c : Partida)
    → r.0 ≡ ok tt
    → get_elem? r.1.partidas i ≡ some c
    → ((tras f i r).0 ≡ true) × (get_elem? (tras f i r).1.partidas i ≡ some (f c))
tras-ok f i (ok u, o) c h e = (refl, rw e (get_elem?-set_self o.partidas i (f c) e))
tras-ok f i (err x, o) c h e = cc

-- The installment has the transaction of the fact, and the state that goes with it.
abbrev pub Asentado : Hecho → Partida → Type 0
Asentado h p =
    ((h.fondeo ≡ p.fondeo_txid)
      × (is_some p.fondeo_txid ≡ true)
      × (p.estado ≡ PartidaEstado.encerrada))
    ⊎ ((h.pago ≡ p.pago_txid) × (is_some p.pago_txid ≡ true) × (p.estado ≡ PartidaEstado.pagada))

abbrev Aplicado : Hecho → Bool × Obra → Type 0
Aplicado h r =
    (r.0 ≡ true) × (p : Partida) × (get_elem? r.1.partidas h.partida ≡ some p) × Asentado h p

module _ (yo : Persona) (now : ℤ) (h : Hecho) (o : Obra) {p : Partida}
    (en : get_elem? o.partidas h.partida ≡ some p)
    (v : PartidaValida (es_usd o.moneda) o.garantia p) (rol : is_some (rol_en o yo.id) ≡ true) where
  confirmar_sale :
      p.estado ≡ PartidaEstado.encerrando
      → por_otro p.encerrado_por yo.id ≡ true
      → (encerrar_confirmar h.partida yo now o).0 ≡ ok tt
  unfolding encerrar_confirmar
  confirmar_sale e q = ground (arith, en, v.con_proponente)

  aceptar_sale :
      p.estado ≡ PartidaEstado.en_trato
      → mismo_rol p.turno (rol_en o yo.id) ≡ true
      → (aceptar_pago h.partida yo now o).0 ≡ ok tt
  unfolding aceptar_pago
  aceptar_sale e q = ground (arith, en, v.con_propuesta)

  asentar_fondeo-ok :
      (t : Text)
      → p.estado ≡ PartidaEstado.encerrando
      → por_otro p.encerrado_por yo.id ≡ true
      → ((asentar_fondeo yo now h.partida (some t) o).0 ≡ true)
        × (get_elem? (asentar_fondeo yo now h.partida (some t) o).1.partidas h.partida
            ≡ some (record (confirmada now p) { fondeo_txid = some t }))
  asentar_fondeo-ok t e q =
      let sale = confirmar_sale e q in
      rw (lo_confirma e q) (
        tras-ok (λ x. record x { fondeo_txid = some t }) h.partida
          (encerrar_confirmar h.partida yo now o) (confirmada now p) sale
          (ap (λ x. get_elem? x.partidas h.partida)
              (encerrar_confirmar-ok h.partida yo now o en sale).1
            ∙ get_elem?-set_self o.partidas h.partida (confirmada now p) en))
    where
      lo_confirma :
          p.estado ≡ PartidaEstado.encerrando
          → por_otro p.encerrado_por yo.id ≡ true
          → confirma (get_elem? o.partidas h.partida) yo.id ≡ true
      lo_confirma a b = ground (arith, en)

  asentar_pago-ok :
      (t : Text)
      → p.estado ≡ PartidaEstado.en_trato
      → mismo_rol p.turno (rol_en o yo.id) ≡ true
      → ((asentar_pago yo now h.partida (some t) o).0 ≡ true)
        × (c : Partida) × (c.estado ≡ PartidaEstado.pagada)
        × (get_elem? (asentar_pago yo now h.partida (some t) o).1.partidas h.partida
            ≡ some (record c { pago_txid = some t }))
  asentar_pago-ok t e q =
      let sale = aceptar_sale e q in
      let (p2, n, en2, pr, es, r) = aceptar_pago_en h.partida yo now o sale in
      let c = cobrada (recibo_de h.partida p2 (capital p2 o.garantia) n yo now) n p2 in
      let k =
        tras-ok (λ x. record x { pago_txid = some t }) h.partida (aceptar_pago h.partida yo now o) c
          sale
          (ap (λ x. get_elem? x.partidas h.partida) r
            ∙ get_elem?-set_self o.partidas h.partida c en2) in
      (k.0, c, refl, k.1)

  fondeo-Aplicado :
      (t : Text)
      → h.fondeo ≡ some t
      → h.pago ≡ none
      → p.estado ≡ PartidaEstado.encerrando
      → por_otro p.encerrado_por yo.id ≡ true
      → Aplicado h (asentar yo now h o)
  unfolding asentar
  fondeo-Aplicado t hf hp e q =
      let k = asentar_fondeo-ok t e q in
      rw (hf, hp)
        (
          ground (arith, k.0),
          record (confirmada now p) { fondeo_txid = some t },
          k.1,
          inl (refl, refl, refl),
        )

  pago-Aplicado :
      (t : Text)
      → h.fondeo ≡ none
      → h.pago ≡ some t
      → p.estado ≡ PartidaEstado.en_trato
      → mismo_rol p.turno (rol_en o yo.id) ≡ true
      → Aplicado h (asentar yo now h o)
  unfolding asentar
  pago-Aplicado t hf hp e q =
      let (k, c, es, g) = asentar_pago-ok t e q in
      rw (hf, hp) (ground (arith, k), record c { pago_txid = some t }, g, inr (refl, refl, es))

hechos-asentar :
    {T : Tipos} (m : Motor T) (yo : Persona) (now : ℤ) (obras : List Obra) (j : ℕ) (h : Hecho)
    (o : Obra)
    → get_elem? (hechos yo.id obras m) j ≡ some h
    → buscar_obra h.obra obras ≡ some o
    → ObraValida o
    → is_some (rol_en o yo.id) ≡ true
    → Aplicado h (asentar yo now h o)
hechos-asentar m yo now obras j h o e b v rol =
    let (o2, p, t, b2, en2, c) =
      All-get_elem? (Viene yo.id obras) (hechos yo.id obras m) j (hechos-Viene yo.id obras m) e in
    let mismo = some-injective _ _ (sym b2 ∙ b) in
    let en = subst (λ x. get_elem? x.partidas h.partida ≡ some p) mismo en2 in
    let pv =
      All-get_elem? (PartidaValida (es_usd o.moneda) o.garantia) o.partidas h.partida
        v.partidas_validas en in
    elim c [
      | inl (hf, hp, es, q) ↦ fondeo-Aplicado yo now h o en pv rol t hf hp es q
      | inr (hf, hp, es, q) ↦
          pago-Aplicado yo now h o en pv rol t hf hp es
            (subst (λ x. mismo_rol p.turno (rol_en x yo.id) ≡ true) mismo q)
    ]

-- If the wallet tells a valid job, of which its user is a party, of what it has seen, the node has seen the
-- other party of late and the job that results can be sealed, then the fact is accepted: the job is
-- published, and there the installment of the fact is locked with the transaction of its funding, or paid
-- with the transaction of its payment.
pub hechos-aplicar_hecho :
    {T : Tipos} (c : Cripto) (sec : Text) (m : Motor T) (yo : Persona) (now : ℤ) (obras : List Obra)
    (j : ℕ) (h : Hecho) (o : Obra)
    → get_elem? (hechos yo.id obras m) j ≡ some h
    → buscar_obra h.obra obras ≡ some o
    → ObraValida o
    → is_some (rol_en o yo.id) ≡ true
    → (preparar_para_red c yo.id yo.clave_pub sec (asentar yo now h o).1).0 ≡ ok tt
    → (x : Obra) × (p : Partida) × (aplicar_hecho c true sec yo now h o ≡ some x)
      × (get_elem? x.partidas h.partida ≡ some p)
      × Asentado h p
unfolding aplicar_hecho
hechos-aplicar_hecho c sec m yo now obras j h o e b v rol sella =
    let (publico, p, en, a) = hechos-asentar m yo now obras j h o e b v rol in
    let (q, en2, k) =
      preparar_para_red-sin_notas c yo.id yo.clave_pub sec (asentar yo now h o).1 h.partida en in
    (
      (preparar_para_red c yo.id yo.clave_pub sec (asentar yo now h o).1).1,
      q,
      ground arith,
      en2,
      subst (λ x. Asentado h x) (sym k) a,
    )
