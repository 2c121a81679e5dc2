-- ===== src/Fusion/Obras.antt =====
-- acuerdo.rs `Obra::fusionar`: what a merge of two copies of a job keeps.
use home_builder_pay.Base.{
  ℕ, suc, ◌≤◌, ◌≡◌, refl, sym, ap, ◌∙◌, none, List, [], ◌∷◌, arith, length, resize, length-resize,
}
use home_builder_pay.Acuerdo.{Obra, Partida, EstadoObra, rango_obra}
use home_builder_pay.Fusion.{
  maximo, fusionar, fusionar_claves, fusionar_avance, fusionar_extra, vaciar_terminada,
  fusionar_cierre, ajustar_estado, fusionar_partidas, zip_partidas,
}

fusionar_avance-rango :
    (o x : Obra)
    → rango_obra (fusionar_avance o x).estado ≡ maximo (rango_obra o.estado) (rango_obra x.estado)
unfolding fusionar_avance
fusionar_avance-rango o x = ground arith

fusionar_extra-estado : (o x : Obra) → (fusionar_extra o x).estado ≡ o.estado
unfolding fusionar_extra
fusionar_extra-estado o x = ground arith

fusionar_cierre-estado : (o x : Obra) → (fusionar_cierre o x).estado ≡ o.estado
unfolding fusionar_cierre
fusionar_cierre-estado o x = ground arith

ajustar_estado-rango : (o : Obra) → rango_obra o.estado ≤ rango_obra (ajustar_estado o).estado
unfolding ajustar_estado
ajustar_estado-rango o = ground arith

-- A merge never takes a job back: its state comes no earlier than that of either copy.
pub fusionar-rango :
    (o x : Obra)
    → (rango_obra o.estado ≤ rango_obra (fusionar o x).estado)
      × (rango_obra x.estado ≤ rango_obra (fusionar o x).estado)
unfolding fusionar
fusionar-rango o x =
    let o1 = fusionar_avance (fusionar_claves o x) x in
    let o2 = vaciar_terminada (fusionar_extra o1 x) in
    ground (
      arith,
      fusionar_avance-rango (fusionar_claves o x) x,
      fusionar_extra-estado o1 x,
      fusionar_cierre-estado o2 x,
      ajustar_estado-rango (fusionar_cierre o2 x),
    )

fusionar_avance-contadores :
    (o x : Obra)
    → ((fusionar_avance o x).extra_seq ≡ o.extra_seq)
      × ((fusionar_avance o x).cierre_seq ≡ o.cierre_seq)
unfolding fusionar_avance
fusionar_avance-contadores o x = ground arith

fusionar_extra-seq : (o x : Obra) → (fusionar_extra o x).extra_seq ≡ maximo o.extra_seq x.extra_seq
unfolding fusionar_extra
fusionar_extra-seq o x = ground arith

fusionar_extra-cierre : (o x : Obra) → (fusionar_extra o x).cierre_seq ≡ o.cierre_seq
unfolding fusionar_extra
fusionar_extra-cierre o x = ground arith

fusionar_cierre-contadores :
    (o x : Obra)
    → ((fusionar_cierre o x).extra_seq ≡ o.extra_seq)
      × ((fusionar_cierre o x).cierre_seq ≡ maximo o.cierre_seq x.cierre_seq)
unfolding fusionar_cierre
fusionar_cierre-contadores o x = ground arith

-- After a merge the counters of the proposed extra installment and of the proposed closing are the larger
-- ones of the two copies.
pub fusionar-contadores :
    (o x : Obra)
    → ((fusionar o x).extra_seq ≡ maximo o.extra_seq x.extra_seq)
      × ((fusionar o x).cierre_seq ≡ maximo o.cierre_seq x.cierre_seq)
unfolding fusionar ajustar_estado
fusionar-contadores o x =
    let o1 = fusionar_avance (fusionar_claves o x) x in
    let o2 = vaciar_terminada (fusionar_extra o1 x) in
    (
      (fusionar_cierre-contadores o2 x).0
          ∙ fusionar_extra-seq o1 x
          ∙ ap (λ n. maximo n x.extra_seq) (fusionar_avance-contadores (fusionar_claves o x) x).0,
      (fusionar_cierre-contadores o2 x).1
          ∙ ap (λ n. maximo n x.cierre_seq)
              (fusionar_extra-cierre o1 x ∙ (fusionar_avance-contadores (fusionar_claves o x) x).1),
    )

fusionar_avance-id : (o x : Obra) → (fusionar_avance o x).id ≡ o.id
unfolding fusionar_avance
fusionar_avance-id o x = ground arith

fusionar_extra-id : (o x : Obra) → (fusionar_extra o x).id ≡ o.id
unfolding fusionar_extra
fusionar_extra-id o x = ground arith

fusionar_cierre-id : (o x : Obra) → (fusionar_cierre o x).id ≡ o.id
unfolding fusionar_cierre
fusionar_cierre-id o x = ground arith

-- A merge keeps the id of the job.
pub fusionar-id : (o x : Obra) → (fusionar o x).id ≡ o.id
unfolding fusionar ajustar_estado
fusionar-id o x =
    let o1 = fusionar_avance (fusionar_claves o x) x in
    fusionar_cierre-id (vaciar_terminada (fusionar_extra o1 x)) x
    ∙ fusionar_extra-id o1 x
    ∙ fusionar_avance-id (fusionar_claves o x) x

abandonada-vacia :
    (o x : Obra)
    → (ajustar_estado (fusionar_cierre (vaciar_terminada o) x)).estado ≡ EstadoObra.abandonada
    → ((ajustar_estado (fusionar_cierre (vaciar_terminada o) x)).extra ≡ none)
      × ((ajustar_estado (fusionar_cierre (vaciar_terminada o) x)).cierre ≡ none)
unfolding ajustar_estado fusionar_cierre
abandonada-vacia o x h = ground arith

-- A job that is abandoned after a merge has no proposed extra installment and no proposed closing, even
-- if one of the copies has.
pub fusionar-abandonada :
    (o x : Obra)
    → (fusionar o x).estado ≡ EstadoObra.abandonada
    → ((fusionar o x).extra ≡ none) × ((fusionar o x).cierre ≡ none)
unfolding fusionar
fusionar-abandonada o x h =
    abandonada-vacia (fusionar_extra (fusionar_avance (fusionar_claves o x) x) x) x h

length-zip_partidas : (as' bs : List Partida) → length (zip_partidas as' bs) ≡ length as'
unfolding zip_partidas
length-zip_partidas [] bs = refl
length-zip_partidas (a ∷ as') [] = refl
length-zip_partidas (a ∷ as') (b ∷ bs) = ap suc (length-zip_partidas as' bs)

length-fusionar_partidas : (as' bs : List Partida) (n : ℕ) → length (fusionar_partidas as' bs n) ≡ n
unfolding fusionar_partidas
length-fusionar_partidas as' bs n =
    length-zip_partidas (resize n _ as') (resize n _ bs) ∙ length-resize n _ as'

avance-cuenta :
    (o x : Obra)
    → o.n_partidas ≡ length o.partidas
    → (fusionar_avance o x).n_partidas ≡ length (fusionar_avance o x).partidas
unfolding fusionar_avance
avance-cuenta o x h = ground (
  arith,
  length-fusionar_partidas o.partidas x.partidas x.n_partidas,
  length-fusionar_partidas o.partidas x.partidas o.n_partidas,
)

extra-cuenta :
    (o x : Obra)
    → o.n_partidas ≡ length o.partidas
    → (fusionar_extra o x).n_partidas ≡ length (fusionar_extra o x).partidas
unfolding fusionar_extra
extra-cuenta o x h = ground (arith, length-fusionar_partidas o.partidas x.partidas x.n_partidas)

final-cuenta :
    (o x : Obra)
    → let f = ajustar_estado (fusionar_cierre (vaciar_terminada o) x) in
      (f.n_partidas ≡ o.n_partidas) × (f.partidas ≡ o.partidas)
unfolding ajustar_estado fusionar_cierre
final-cuenta o x = ground arith

-- A merge into a job that counts its installments gives a job that does, whatever the other copy claims
-- to have.
pub fusionar-cuenta :
    (o x : Obra)
    → o.n_partidas ≡ length o.partidas
    → (fusionar o x).n_partidas ≡ length (fusionar o x).partidas
unfolding fusionar
fusionar-cuenta o x h =
    let o1 = fusionar_avance (fusionar_claves o x) x in
    let f = final-cuenta (fusionar_extra o1 x) x in
    f.0 ∙ extra-cuenta o1 x (avance-cuenta (fusionar_claves o x) x h) ∙ sym (ap length f.1)
