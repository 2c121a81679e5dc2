-- ===== src/Sellado/Conserva.antt =====
-- acuerdo.rs: what sealing a job keeps of its installments.
use home_builder_pay.Base.{
  ℕ, zero, suc, ◌≡◌, refl, ap, ◌∙◌, some, List, [], ◌∷◌, map, Result, ok, err, arith, get_elem?,
  Text, ok_or, bind, Error,
}
use home_builder_pay.Acuerdo.{Partida, Obra}
use home_builder_pay.Acuerdo.Partes.{estampar_clave}
use home_builder_pay.Sellado.{
  Cripto, con_notas, limpiar_nota, limpiar_claro_sellado, sellar_notas, sellar_partidas, sellar_con,
  sellar_para, sellar, preparar_para_red, pub_de, pub_otro,
}

abbrev pub sin_notas : Partida → Partida
sin_notas p = record p { notas = [] }

map-limpiar :
    (ps : List Partida) → map sin_notas (map (con_notas limpiar_nota) ps) ≡ map sin_notas ps
map-limpiar [] = refl
map-limpiar (p ∷ ps) = ap (◌∷◌ (sin_notas p)) (map-limpiar ps)

module _ (c : Cripto) (mi_sec : Text) where
  map-sellar_partidas :
      (otro id : Text) (k : ℕ) (ps : List Partida)
      → map sin_notas (sellar_partidas c mi_sec otro id k ps).1.1 ≡ map sin_notas ps
  unfolding sellar_partidas
  map-sellar_partidas otro id k [] = refl
  map-sellar_partidas otro id k (p ∷ ps) =
      ground (arith, map-sellar_partidas otro id (sellar_notas c mi_sec otro id k p.notas).1.0 ps)

  map-sellar_con :
      (otro : Text) (o : Obra)
      → map sin_notas (sellar_con c mi_sec otro o).1.partidas ≡ map sin_notas o.partidas
  unfolding sellar_con
  map-sellar_con otro o = ground (arith, map-sellar_partidas otro o.id 0 o.partidas)

  map-sellar_para :
      (o : Obra) (r : Result Text)
      → map sin_notas (sellar_para c mi_sec o r).1.partidas ≡ map sin_notas o.partidas
  map-sellar_para o (err e) = refl
  map-sellar_para o (ok otro) = ground (arith, map-sellar_con otro o)

  map-sellar : (o : Obra) → map sin_notas (sellar c mi_sec o).1.partidas ≡ map sin_notas o.partidas
  unfolding sellar limpiar_claro_sellado
  map-sellar o =
      let r = bind (ok_or (pub_de c mi_sec) Error.sin_clave) (pub_otro o) in
      ground (arith, map-sellar_para o r, map-limpiar o.partidas)

estampar_clave-partidas :
    (mi_id mi_pub : Text) (o : Obra) → (estampar_clave mi_id mi_pub o).partidas ≡ o.partidas
unfolding estampar_clave
estampar_clave-partidas mi_id mi_pub o = ground arith

get_elem?-sin_notas :
    (ps qs : List Partida) (i : ℕ) {p : Partida}
    → map sin_notas qs ≡ map sin_notas ps
    → get_elem? ps i ≡ some p
    → (q : Partida) × (get_elem? qs i ≡ some q) × (sin_notas q ≡ sin_notas p)
get_elem?-sin_notas [] qs i h e = cc
get_elem?-sin_notas (x ∷ ps) [] i h e = cc
get_elem?-sin_notas (x ∷ ps) (y ∷ qs) zero h e = (y, refl, ground arith)
get_elem?-sin_notas (x ∷ ps) (y ∷ qs) (suc i) h e = get_elem?-sin_notas ps qs i (ground arith) e

-- Preparing a job for the network keeps all of an installment but its notes.
pub preparar_para_red-sin_notas :
    (c : Cripto) (mi_id mi_pub mi_sec : Text) (o : Obra) (i : ℕ) {p : Partida}
    → get_elem? o.partidas i ≡ some p
    → (q : Partida) × (get_elem? (preparar_para_red c mi_id mi_pub mi_sec o).1.partidas i ≡ some q)
      × (sin_notas q ≡ sin_notas p)
unfolding preparar_para_red
preparar_para_red-sin_notas c mi_id mi_pub mi_sec o i h =
    let o1 = estampar_clave mi_id mi_pub o in
    get_elem?-sin_notas o.partidas (sellar c mi_sec o1).1.partidas i
      (map-sellar c mi_sec o1 ∙ ap (map sin_notas) (estampar_clave-partidas mi_id mi_pub o)) h
