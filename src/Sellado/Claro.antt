-- ===== src/Sellado/Claro.antt =====
-- acuerdo.rs: what sealing leaves in clear.
use home_builder_pay.Base.{
  ℕ, ◌+◌, ◌≡◌, refl, Bool, false, not, Option, none, some, List, [], ◌∷◌, map, any, arith, Error,
  Result, ok, err, Text, text_eq_iff, is_empty, if◌then◌else◌, Result-cases, subst, Bool-cases,
  bind, ok_or, inl, inr,
}
use home_builder_pay.Acuerdo.{NotaPartida, Partida, ExtraPartida, Obra}
use home_builder_pay.Sellado.{
  Cripto, pub_otro, nota_clara, extra_clara, hay_texto_claro, sin_nota, limpiar_nota, con_notas,
  limpiar_claro_sellado, sin_texto_claro, pub_de, sellar_notas, sellar_partidas, sellar_el_extra,
  sellar_con, sellar_para, sellar,
}

-- If the other side of a key is a key, the other side of that one is the first: both sides of a job seal
-- for each other.
pub pub_otro-pub_otro : (o : Obra) (a b : Text) → pub_otro o a ≡ ok b → pub_otro o b ≡ ok a
unfolding pub_otro
pub_otro-pub_otro o a b h = ground (
  arith,
  text_eq_iff o.mandante.clave_pub a,
  text_eq_iff o.contratista.clave_pub a,
  text_eq_iff o.mandante.clave_pub b,
  text_eq_iff o.contratista.clave_pub b,
)

limpiar-claras :
    (ns : List NotaPartida)
    → any nota_clara ns ≡ false
    → any nota_clara (map limpiar_nota ns) ≡ false
limpiar-claras [] h = refl
limpiar-claras (n ∷ ns) h = ground (arith, limpiar-claras ns)

limpiar_partidas-claras :
    (ps : List Partida)
    → any (λ p. any nota_clara p.notas) ps ≡ false
    → any (λ p. any nota_clara p.notas) (map (con_notas limpiar_nota) ps) ≡ false
limpiar_partidas-claras [] h = refl
limpiar_partidas-claras (p ∷ ps) h =
    ground (arith, limpiar-claras p.notas, limpiar_partidas-claras ps)

limpiar_claro_sellado-claro :
    (o : Obra) → hay_texto_claro o ≡ false → hay_texto_claro (limpiar_claro_sellado o) ≡ false
unfolding hay_texto_claro limpiar_claro_sellado
limpiar_claro_sellado-claro o h = ground (arith, limpiar_partidas-claras o.partidas)

module _ (c : Cripto) (mi_sec otro id : Text) where
  sellar_notas-claras :
      (k : ℕ) (ns : List NotaPartida)
      → (sellar_notas c mi_sec otro id k ns).0 ≡ ok tt
      → any nota_clara (sellar_notas c mi_sec otro id k ns).1.1 ≡ false
  unfolding sellar_notas
  sellar_notas-claras k [] h = refl
  sellar_notas-claras k (n ∷ ns) h =
      ground (arith, sellar_notas-claras (k + 1) ns, sellar_notas-claras k ns)

  sellar_partidas-claras :
      (k : ℕ) (ps : List Partida)
      → (sellar_partidas c mi_sec otro id k ps).0 ≡ ok tt
      → any (λ p. any nota_clara p.notas) (sellar_partidas c mi_sec otro id k ps).1.1 ≡ false
  unfolding sellar_partidas
  sellar_partidas-claras k [] h = refl
  sellar_partidas-claras k (p ∷ ps) h = ground (
    arith,
    sellar_notas-claras k p.notas,
    sellar_partidas-claras (sellar_notas c mi_sec otro id k p.notas).1.0 ps,
  )

  sellar_el_extra-claro :
      (k : ℕ) (e e2 : Option ExtraPartida)
      → sellar_el_extra c mi_sec otro id k e ≡ ok e2
      → extra_clara e2 ≡ false
  unfolding sellar_el_extra
  sellar_el_extra-claro k none e2 h = ground arith
  sellar_el_extra-claro k (some e) e2 h = ground arith

sellar_con-claro :
    (c : Cripto) (mi_sec otro : Text) (o : Obra)
    → (sellar_con c mi_sec otro o).0 ≡ ok tt
    → hay_texto_claro (sellar_con c mi_sec otro o).1 ≡ false
unfolding sellar_con hay_texto_claro
sellar_con-claro c mi_sec otro o h =
    let r = sellar_partidas c mi_sec otro o.id 0 o.partidas in
    elim (Result-cases (sellar_el_extra c mi_sec otro o.id r.1.0 o.extra)) [
      | inl (e2, e) ↦ ground (
        arith,
        sellar_partidas-claras c mi_sec otro o.id 0 o.partidas,
        sellar_el_extra-claro c mi_sec otro o.id r.1.0 o.extra e2 e,
      )
      | inr (x, e) ↦ absurd (ground arith)
    ]

sellar_para-claro :
    (c : Cripto) (mi_sec : Text) (o : Obra) (r : Result Text)
    → (sellar_para c mi_sec o r).0 ≡ ok tt
    → hay_texto_claro (sellar_para c mi_sec o r).1 ≡ false
sellar_para-claro c mi_sec o (err e) h = absurd (ground arith)
sellar_para-claro c mi_sec o (ok otro) h = ground (arith, sellar_con-claro c mi_sec otro o)

-- A job that was sealed with success, whatever the box does, has no unsealed text: each note and the
-- proposed extra installment either has a sealed text or has no text.
pub sellar-hay_texto_claro :
    (c : Cripto) (mi_sec : Text) (o : Obra)
    → (sellar c mi_sec o).0 ≡ ok tt
    → hay_texto_claro (sellar c mi_sec o).1 ≡ false
unfolding sellar
sellar-hay_texto_claro c mi_sec o h = elim (Bool-cases (hay_texto_claro o)) [
  | inr claro ↦ rw claro (limpiar_claro_sellado-claro o claro)
  | inl oscuro ↦
      let r = bind (ok_or (pub_de c mi_sec) Error.sin_clave) (pub_otro o) in
      rw oscuro (
        sellar_para-claro c mi_sec o r (
          subst
            (λ b.
              (if not b then (ok tt, limpiar_claro_sellado o) else sellar_para c mi_sec o r).0
              ≡ ok tt)
            oscuro h))
]

abbrev pub nota_con_texto : NotaPartida → Bool
nota_con_texto n = not (is_empty n.texto)

abbrev pub extra_con_texto : Option ExtraPartida → Bool
extra_con_texto none = false
extra_con_texto (some e) = not (is_empty e.detalle)

sin_nota-texto : (ns : List NotaPartida) → any nota_con_texto (map sin_nota ns) ≡ false
sin_nota-texto [] = refl
sin_nota-texto (n ∷ ns) = sin_nota-texto ns

sin_notas-texto :
    (ps : List Partida)
    → any (λ p. any nota_con_texto p.notas) (map (con_notas sin_nota) ps) ≡ false
sin_notas-texto [] = refl
sin_notas-texto (p ∷ ps) = ground (arith, sin_nota-texto p.notas, sin_notas-texto ps)

limpiar-sin_nota : (ns : List NotaPartida) → map sin_nota (map limpiar_nota ns) ≡ map sin_nota ns
limpiar-sin_nota [] = refl
limpiar-sin_nota (n ∷ ns) = ground (arith, limpiar-sin_nota ns)

limpiar-sin_notas :
    (ps : List Partida)
    → map (con_notas sin_nota) (map (con_notas limpiar_nota) ps) ≡ map (con_notas sin_nota) ps
limpiar-sin_notas [] = refl
limpiar-sin_notas (p ∷ ps) = ground (arith, limpiar-sin_nota p.notas, limpiar-sin_notas ps)

-- The copy for the gossip has no text in clear in any note nor in the proposed extra installment, and it
-- is the same whether or not the job was first cleaned of the texts that are sealed.
pub sin_texto_claro_lem :
    (o : Obra)
    → (any (λ p. any nota_con_texto p.notas) (sin_texto_claro o).partidas ≡ false)
      × (extra_con_texto (sin_texto_claro o).extra ≡ false)
      × (sin_texto_claro (limpiar_claro_sellado o) ≡ sin_texto_claro o)
unfolding sin_texto_claro limpiar_claro_sellado
sin_texto_claro_lem o =
    (sin_notas-texto o.partidas, ground arith, ground (arith, limpiar-sin_notas o.partidas))
