-- ===== src/Acuerdo/Ofertas.antt =====
-- acuerdo.rs: people, offers, acceptances, and the job that an accepted offer becomes. A new id
-- (`Uuid::new_v4`) and the clock are arguments.
use home_builder_pay.Base.{
  ℕ, ◌≡◌, Bool, not, none, some, List, [], map, ◌==◌, if◌then◌else◌, ℤ, pos, Error, Result, ok, err,
  bind, ok_or, Text, text_eq, is_some, arith, length, length-map, Result-cases, inl, inr,
}
use home_builder_pay.Precio.{Moneda, es_usd}
use home_builder_pay.Montos.{limpia_nombre, n_partidas, ajusta_detalles}
use home_builder_pay.Montos.Division.{n_partidas-lt, length-ajusta_detalles}
use home_builder_pay.Acuerdo.{Persona, EstadoObra, Oferta, Aceptacion, Obra, partida_pendiente}
use home_builder_pay.Acuerdo.Invariante.{ObraValida, pendientes-validas}

-- `Persona::nueva`
unfoldable pub nueva_persona : Text → Text → Result Persona
nueva_persona id nombre =
    bind (ok_or (limpia_nombre nombre) Error.nombre)
      λ n. ok (record { id = id; nombre = n; visto = pos 0; clave_pub = []; direccion = [] })

-- `Persona::renombrar`
unfoldable pub renombrar : Persona → Text → Result Persona
renombrar p nombre =
    bind (ok_or (limpia_nombre nombre) Error.nombre) λ n. ok (record p { nombre = n })

-- `Oferta::publicar`
unfoldable pub publicar : Text → ℤ → Persona → Text → ℕ → ℕ → List Text → Result Oferta
publicar id now mandante nombre trabajo garantia detalles =
    bind (ok_or (limpia_nombre nombre) Error.nombre) λ limpio.
      bind (n_partidas trabajo garantia) λ n. ok (record {
        id = id;
        nombre = limpio;
        trabajo = trabajo;
        garantia_sugerida = garantia;
        n_partidas_sugeridas = n;
        mandante = mandante;
        detalles = ajusta_detalles n detalles;
        actualizado = now;
        retiro_hash = [];
        moneda = Moneda.unidades;
      })

-- `Oferta::publicar_usd`
unfoldable pub publicar_usd : Text → ℤ → Persona → Text → ℕ → ℕ → List Text → Result Oferta
unfolding publicar
publicar_usd id now mandante nombre trabajo garantia detalles =
    bind (publicar id now mandante nombre trabajo garantia detalles)
      λ o. ok (record o { moneda = Moneda.usd })

-- `Aceptacion::de_con`
unfoldable pub de_con : Oferta → Persona → ℕ → List Text → Result Aceptacion
de_con oferta contratista garantia detalles = bind (n_partidas oferta.trabajo garantia) λ n.
    ok (record {
      oferta_id = oferta.id;
      contratista = contratista;
      garantia = garantia;
      n_partidas = n;
      detalles = ajusta_detalles n detalles;
    })

-- `Aceptacion::de`
unfoldable pub de : Oferta → Persona → ℕ → Result Aceptacion
unfolding de_con
de oferta contratista garantia = de_con oferta contratista garantia oferta.detalles

-- `Aceptacion::es_contra`
unfoldable pub es_contra : Aceptacion → Oferta → Bool
es_contra a oferta = not (a.garantia == oferta.garantia_sugerida)

-- `Obra::desde_oferta`
unfoldable pub desde_oferta : Oferta → Aceptacion → ℤ → Result Obra
unfolding es_contra
desde_oferta oferta acc now =
    if not (text_eq acc.oferta_id oferta.id)
    then err Error.no_esta
    else bind (n_partidas oferta.trabajo acc.garantia) λ n. ok (record {
      id = oferta.id;
      nombre = oferta.nombre;
      trabajo = oferta.trabajo;
      garantia = acc.garantia;
      garantia_publicada = oferta.garantia_sugerida;
      n_partidas = n;
      mandante = oferta.mandante;
      contratista = acc.contratista;
      estado = if es_contra acc oferta then EstadoObra.contra else EstadoObra.acordada;
      partidas = map partida_pendiente acc.detalles;
      contra = if es_contra acc oferta then some acc else none;
      extra = none;
      extra_seq = 0;
      actualizado = now;
      cierre = none;
      cierre_seq = 0;
      moneda = oferta.moneda;
    })

-- A job made from an offer and an acceptance of it: it is valid, it waits for the client exactly when the
-- acceptance asks for another bond, and the pieces of the two are where they belong.
pub desde_oferta_lem :
    (oferta : Oferta) (quien : Persona) (garantia : ℕ) (ds : List Text) (now : ℤ) (acc : Aceptacion)
    (o : Obra)
    → de_con oferta quien garantia ds ≡ ok acc
    → desde_oferta oferta acc now ≡ ok o
    → ObraValida o
      × (o.n_partidas ≡ length o.partidas)
      × (o.trabajo ≡ oferta.trabajo)
      × (o.moneda ≡ oferta.moneda)
      × (o.mandante ≡ oferta.mandante)
      × (o.contratista ≡ quien)
      × (is_some o.contra ≡ not (garantia == oferta.garantia_sugerida))
unfolding de_con desde_oferta
desde_oferta_lem oferta quien garantia ds now acc o ha ho =
    elim (Result-cases (n_partidas oferta.trabajo garantia)) [
      | inr (x, e) ↦ absurd (ground arith)
      | inl (n, e) ↦ ground (
        arith,
        n_partidas-lt oferta.trabajo garantia n e,
        length-ajusta_detalles n ds,
        length-map (ajusta_detalles n ds) partida_pendiente,
        pendientes-validas (es_usd oferta.moneda) garantia (ajusta_detalles n ds),
      )
    ]
