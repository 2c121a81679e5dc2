-- ===== src/Acuerdo/Invariante/Obras.antt =====
-- acuerdo.rs: the calls on the whole job keep it valid.
use home_builder_pay.Base.{
  ℕ, ◌+◌, ◌%◌, ◌≡◌, ◌≢◌, inl, inr, if◌then◌else◌, Result-cases, none, some, ok, sym, subst, List,
  [], ◌∷◌, ◌++◌, map, ℤ, arith, Option-cases, Result-cases, ap, ◌∙◌, Text, All-append,
  length-append, length-map, ltb,
}
use home_builder_pay.Precio.{es_usd}
use home_builder_pay.Montos.{u32_mod, n_partidas, ajusta_detalles}
use home_builder_pay.Montos.Division.{n_partidas-lt, length-ajusta_detalles}
use home_builder_pay.Acuerdo.{
  Aceptacion, ExtraPartida, Obra, Persona, EstadoObra, sat_suc, partida_pendiente, pendiente_monto,
}
use home_builder_pay.Acuerdo.Operaciones.{
  precio_sirve, es_pagada, confirmada, propuesta, cancelada, avisada, contraofertada, cobrada,
  con_detalle, nueva_nota, recibo_de,
}
use home_builder_pay.Acuerdo.Operaciones
use home_builder_pay.Acuerdo.Partes
use home_builder_pay.Acuerdo.Atomic.{
  confirmar_contra-Intacta, rechazar_contra-Intacta, aceptar_extra_failed,
}
use home_builder_pay.Acuerdo.Invariante.{
  PartidaValida, ObraValida, valida_tras, pendientes-validas, ContraValida,
}

pub proponer_extra-ObraValida :
    (q : Persona) (t : Text) (m : ℕ) (now : ℤ) (o : Obra)
    → ObraValida o
    → ObraValida (Partes.proponer_extra q t m now o).1
unfolding Partes.proponer_extra
proponer_extra-ObraValida q t m now o v = ground arith

pub rechazar_extra-ObraValida :
    (q : Persona) (now : ℤ) (o : Obra) → ObraValida o → ObraValida (Partes.rechazar_extra q now o).1
unfolding Partes.rechazar_extra
rechazar_extra-ObraValida q now o v = ground arith

pub abandonar-ObraValida :
    (q : Persona) (now : ℤ) (o : Obra) → ObraValida o → ObraValida (Partes.abandonar q now o).1
unfolding Partes.abandonar
abandonar-ObraValida q now o v = ground arith

pub aceptar_cierre-ObraValida :
    (q : Persona) (now : ℤ) (o : Obra) → ObraValida o → ObraValida (Partes.aceptar_cierre q now o).1
unfolding Partes.aceptar_cierre
aceptar_cierre-ObraValida q now o v = ground arith

pub rechazar_cierre-ObraValida :
    (q : Persona) (now : ℤ) (o : Obra)
    → ObraValida o
    → ObraValida (Partes.rechazar_cierre q now o).1
unfolding Partes.rechazar_cierre
rechazar_cierre-ObraValida q now o v = ground arith

confirmar_contra-ok :
    (m : Text) (now : ℤ) (o : Obra) (a : Aceptacion)
    → o.contra ≡ some a
    → (Operaciones.confirmar_contra m now o).0 ≡ ok tt
    → (Operaciones.confirmar_contra m now o).1 ≡ record o {
      contra = none;
      garantia = a.garantia;
      n_partidas = a.n_partidas;
      partidas = map partida_pendiente a.detalles;
      estado = EstadoObra.acordada;
      actualizado = now;
    }
unfolding Operaciones.confirmar_contra
confirmar_contra-ok m now o a e h = ground arith

pub confirmar_contra-ObraValida :
    (m : Text) (now : ℤ) (o : Obra)
    → ObraValida o
    → ObraValida (Operaciones.confirmar_contra m now o).1
confirmar_contra-ObraValida m now o v = valida_tras o _ v (confirmar_contra-Intacta m now o) λ h.
    elim (Option-cases o.contra) [
      | inl e ↦ absurd (unfold Operaciones.confirmar_contra in ground arith)
      | inr (a, e) ↦ subst ObraValida (sym (confirmar_contra-ok m now o a e h)) (record {
        cuenta =
            subst ContraValida e v.contra_valida
            ∙ ap (λ n. n % u32_mod) (sym (length-map a.detalles partida_pendiente));
        partidas_validas = pendientes-validas (es_usd o.moneda) a.garantia a.detalles;
        contra_valida = tt;
        cerrada_pagada = λ c. cc;
      })
    ]

-- Going back to the published bond keeps a job valid.
reponer-ObraValida :
    (o : Obra) → ObraValida o → o.estado ≢ EstadoObra.cerrada → ObraValida (Operaciones.reponer o)
unfolding Operaciones.reponer
reponer-ObraValida o v ne = elim (Result-cases (n_partidas o.trabajo g)) [
  | inl (n, e) ↦
      rw (e, Operaciones.reponer)
        (record {
          cuenta =
              sym (n_partidas-lt o.trabajo g n e)
              ∙ ap (λ k. k % u32_mod)
                  (sym (
                    length-map (ajusta_detalles n ds) partida_pendiente
                    ∙ length-ajusta_detalles n ds));
          partidas_validas = pendientes-validas (es_usd o.moneda) g (ajusta_detalles n ds);
          contra_valida = v.contra_valida;
          cerrada_pagada = λ c. absurd (ne c);
        })
  | inr (x, e) ↦ rw (e, Operaciones.reponer) v
]
  where
    g : ℕ
    g = if ltb 0 o.garantia_publicada then o.garantia_publicada else o.garantia

    ds : List Text
    ds = map (λ p. p.detalle) o.partidas

rechazar_contra-ok :
    (m : Text) (now : ℤ) (o : Obra)
    → (Operaciones.rechazar_contra m now o).0 ≡ ok tt
    → (Operaciones.rechazar_contra m now o).1
      ≡ record (Operaciones.reponer (record o { contra = none; estado = EstadoObra.rechazada })) {
        actualizado = now;
      }
unfolding Operaciones.rechazar_contra
rechazar_contra-ok m now o h = ground arith

pub rechazar_contra-ObraValida :
    (m : Text) (now : ℤ) (o : Obra)
    → ObraValida o
    → ObraValida (Operaciones.rechazar_contra m now o).1
rechazar_contra-ObraValida m now o v =
    valida_tras o _ v (rechazar_contra-Intacta m now o)
      λ h. subst ObraValida (sym (rechazar_contra-ok m now o h)) (otra_hora repuesta)
  where
    rechazada : Obra
    rechazada = record o { contra = none; estado = EstadoObra.rechazada }

    repuesta : ObraValida (Operaciones.reponer rechazada)
    repuesta =
        reponer-ObraValida rechazada
          (record {
            cuenta = v.cuenta;
            partidas_validas = v.partidas_validas;
            contra_valida = tt;
            cerrada_pagada = λ c. cc;
          })
          (λ c. cc)

    otra_hora : {x : Obra} → ObraValida x → ObraValida (record x { actualizado = now })
    otra_hora w = record {
      cuenta = w.cuenta;
      partidas_validas = w.partidas_validas;
      contra_valida = w.contra_valida;
      cerrada_pagada = w.cerrada_pagada;
    }

-- The job with an extra installment appended.
con_extra : Obra → ExtraPartida → ℕ → ℤ → Obra
con_extra o x trabajo now = record o {
  trabajo = trabajo;
  extra = none;
  n_partidas = (o.n_partidas + 1) % u32_mod;
  partidas = o.partidas ++ pendiente_monto x.detalle x.monto ∷ [];
  extra_seq = sat_suc o.extra_seq;
  actualizado = now;
}

aceptar_extra-ok :
    (q : Persona) (now : ℤ) (o : Obra) (x : ExtraPartida)
    → o.extra ≡ some x
    → (Partes.aceptar_extra q now o).0 ≡ ok tt
    → (o.estado ≢ EstadoObra.cerrada)
      × ((Partes.aceptar_extra q now o).1 ≡ con_extra o x (o.trabajo + x.monto) now)
unfolding Partes.aceptar_extra con_extra
aceptar_extra-ok q now o x e h = ground arith

con_extra-ObraValida :
    (o : Obra) (x : ExtraPartida) (t : ℕ) (now : ℤ)
    → ObraValida o
    → o.estado ≢ EstadoObra.cerrada
    → ObraValida (con_extra o x t now)
unfolding con_extra pendiente_monto
con_extra-ObraValida o x t now v ne = record {
  cuenta =
      omega
        (arith, v.cuenta, length-append {0} o.partidas (pendiente_monto x.detalle x.monto ∷ []));
  partidas_validas =
      All-append (PartidaValida (es_usd o.moneda) o.garantia) o.partidas
        (pendiente_monto x.detalle x.monto ∷ []) v.partidas_validas (nueva, tt);
  contra_valida = v.contra_valida;
  cerrada_pagada = λ c. absurd (ne c);
}
  where
    nueva : PartidaValida (es_usd o.moneda) o.garantia (pendiente_monto x.detalle x.monto)
    nueva = ground arith

pub aceptar_extra-ObraValida :
    (q : Persona) (now : ℤ) (o : Obra) → ObraValida o → ObraValida (Partes.aceptar_extra q now o).1
aceptar_extra-ObraValida q now o v = elim (Result-cases (Partes.aceptar_extra q now o).0) [
  | inl (tt, h) ↦ elim (Option-cases o.extra) [
    | inl e ↦ absurd (unfold Partes.aceptar_extra in ground arith)
    | inr (x, e) ↦
        let f = aceptar_extra-ok q now o x e h in
        subst ObraValida (sym f.1) (con_extra-ObraValida o x (o.trabajo + x.monto) now v f.0)
  ]
  | inr (x, h) ↦ elim (aceptar_extra_failed q now o h) [
    | inl same ↦ subst ObraValida (sym same) v
    | inr lost ↦ subst ObraValida (sym lost.1) (record {
      cuenta = v.cuenta;
      partidas_validas = v.partidas_validas;
      contra_valida = v.contra_valida;
      cerrada_pagada = v.cerrada_pagada;
    })
  ]
]
