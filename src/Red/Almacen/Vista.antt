-- ===== src/Red/Almacen/Vista.antt =====
-- dht.rs: the store as the four lists that it holds, and what a value that arrives changes of them. What is asked of the libraries is the record `Fiel`: lists are read back as they were
-- written, and the four keys differ.
use home_builder_pay.Base.{
  ℕ, ◌≡◌, refl, ◌∙◌, false, List, if◌then◌else◌, arith, Text, text_eq, text_eq_iff,
}
use home_builder_pay.Base.Dict
use home_builder_pay.Base.Dict.{Dict}
use home_builder_pay.Acuerdo.{Persona, Oferta, Obra}
use home_builder_pay.Retiro.{RetiroOferta, sin_retiradas}
use home_builder_pay.Red.{
  Json, Externo, encode, decode, clave_tablero, clave_obras, clave_presentes, clave_retiradas,
}
use home_builder_pay.Red.Almacen.{
  unir_ofertas, unir_obras, unir_presentes, fundir_retiros, leer_en, tablero_de, obras_de,
  presentes_de, retiradas_de,
}

pub record Fiel {V : Type 0} (e : Externo V) : Type 0 where
  pub ofertas_lem : (xs : List Oferta) → decode e e.ofertas (encode e e.ofertas xs) ≡ xs
  pub obras_lem : (xs : List Obra) → decode e e.obras (encode e e.obras xs) ≡ xs
  pub presentes_lem : (xs : List Persona) → decode e e.presentes (encode e e.presentes xs) ≡ xs
  pub retiradas_lem : (xs : List RetiroOferta) → decode e e.retiradas (encode e e.retiradas xs) ≡ xs
  pub tablero_obras : text_eq (clave_tablero e) (clave_obras e) ≡ false
  pub tablero_presentes : text_eq (clave_tablero e) (clave_presentes e) ≡ false
  pub tablero_retiradas : text_eq (clave_tablero e) (clave_retiradas e) ≡ false
  pub obras_presentes : text_eq (clave_obras e) (clave_presentes e) ≡ false
  pub obras_retiradas : text_eq (clave_obras e) (clave_retiradas e) ≡ false
  pub presentes_retiradas : text_eq (clave_presentes e) (clave_retiradas e) ≡ false

pub record Vista : Type 0 where
  pub tablero : List Oferta
  pub obras : List Obra
  pub presentes : List Persona
  pub retiradas : List RetiroOferta

-- A value that arrives, read at its key.
pub data Llegada : Type 0 where
  ofertas : List Oferta → Llegada
  obras : List Obra → Llegada
  presentes : List Persona → Llegada
  retiradas : List RetiroOferta → Llegada
  otra : Llegada

unfoldable pub fundir : (List ℕ → List ℕ) → Llegada → Vista → Vista
fundir sha256 (ofertas b) v = record v {
  tablero = sin_retiradas sha256 (unir_ofertas v.tablero b) v.retiradas;
}
fundir sha256 (obras b) v = record v { obras = unir_obras v.obras b }
fundir sha256 (presentes b) v = record v { presentes = unir_presentes v.presentes b }
fundir sha256 (retiradas b) v = record v {
  tablero = sin_retiradas sha256 v.tablero (fundir_retiros v.retiradas b);
  retiradas = fundir_retiros v.retiradas b;
}
fundir sha256 otra v = v

pub text_eq_sym : (s t : Text) → text_eq s t ≡ text_eq t s
text_eq_sym s t = ground (arith, text_eq_iff s t, text_eq_iff t s)

module _ {V : Type 0} (e : Externo V) where
  leer_en-insert_self :
      {A : Type 0} (j : Json V A) (k : Text) (v : V) (s : Dict V)
      → leer_en e j k (Dict.insert k v s) ≡ decode e j v
  leer_en-insert_self j k v s = ground (arith, Dict.get-insert k k v s, (text_eq_iff k k).1 refl)

  leer_en-insert_ne :
      {A : Type 0} (j : Json V A) (k q : Text) (v : V) (s : Dict V)
      → text_eq k q ≡ false
      → leer_en e j q (Dict.insert k v s) ≡ leer_en e j q s
  leer_en-insert_ne j k q v s h = ground (arith, Dict.get-insert k q v s)

  unfoldable pub vista : Dict V → Vista
  vista s = record {
    tablero = tablero_de e s;
    obras = obras_de e s;
    presentes = presentes_de e s;
    retiradas = retiradas_de e s;
  }

  unfoldable pub llegada : Text → V → Llegada
  llegada key val =
      if text_eq key (clave_tablero e)
      then ofertas (decode e e.ofertas val)
      else if text_eq key (clave_retiradas e)
      then retiradas (decode e e.retiradas val)
      else if text_eq key (clave_obras e)
      then obras (decode e e.obras val)
      else if text_eq key (clave_presentes e)
      then presentes (decode e e.presentes val)
      else otra

  module _ (f : Fiel e) where
    -- Writing one of the lists changes that list in the view.
    pub vista-tablero :
        (s : Dict V) (xs : List Oferta)
        → vista (Dict.insert (clave_tablero e) (encode e e.ofertas xs) s)
          ≡ record (vista s) { tablero = xs }
    unfolding vista
    vista-tablero s xs = simp (
      leer_en-insert_self,
      f.ofertas_lem,
      leer_en-insert_ne e.obras (clave_tablero e) (clave_obras e) (encode e e.ofertas xs) s
          f.tablero_obras,
      leer_en-insert_ne e.presentes (clave_tablero e) (clave_presentes e) (encode e e.ofertas xs) s
          f.tablero_presentes,
      leer_en-insert_ne e.retiradas (clave_tablero e) (clave_retiradas e) (encode e e.ofertas xs) s
          f.tablero_retiradas,
    )

    pub vista-obras :
        (s : Dict V) (xs : List Obra)
        → vista (Dict.insert (clave_obras e) (encode e e.obras xs) s)
          ≡ record (vista s) { obras = xs }
    unfolding vista
    vista-obras s xs = simp (
      leer_en-insert_self,
      f.obras_lem,
      leer_en-insert_ne e.ofertas (clave_obras e) (clave_tablero e) (encode e e.obras xs) s
          (text_eq_sym (clave_obras e) (clave_tablero e) ∙ f.tablero_obras),
      leer_en-insert_ne e.presentes (clave_obras e) (clave_presentes e) (encode e e.obras xs) s
          (f.obras_presentes),
      leer_en-insert_ne e.retiradas (clave_obras e) (clave_retiradas e) (encode e e.obras xs) s
          (f.obras_retiradas),
    )

    pub vista-presentes :
        (s : Dict V) (xs : List Persona)
        → vista (Dict.insert (clave_presentes e) (encode e e.presentes xs) s)
          ≡ record (vista s) { presentes = xs }
    unfolding vista
    vista-presentes s xs = simp (
      leer_en-insert_self,
      f.presentes_lem,
      leer_en-insert_ne e.ofertas (clave_presentes e) (clave_tablero e) (encode e e.presentes xs) s
          (text_eq_sym (clave_presentes e) (clave_tablero e) ∙ f.tablero_presentes),
      leer_en-insert_ne e.obras (clave_presentes e) (clave_obras e) (encode e e.presentes xs) s
          (text_eq_sym (clave_presentes e) (clave_obras e) ∙ f.obras_presentes),
      leer_en-insert_ne e.retiradas (clave_presentes e) (clave_retiradas e)
          (encode e e.presentes xs) s (f.presentes_retiradas),
    )

    pub vista-retiradas :
        (s : Dict V) (xs : List RetiroOferta)
        → vista (Dict.insert (clave_retiradas e) (encode e e.retiradas xs) s)
          ≡ record (vista s) { retiradas = xs }
    unfolding vista
    vista-retiradas s xs = simp (
      leer_en-insert_self,
      f.retiradas_lem,
      leer_en-insert_ne e.ofertas (clave_retiradas e) (clave_tablero e) (encode e e.retiradas xs) s
          (text_eq_sym (clave_retiradas e) (clave_tablero e) ∙ f.tablero_retiradas),
      leer_en-insert_ne e.obras (clave_retiradas e) (clave_obras e) (encode e e.retiradas xs) s
          (text_eq_sym (clave_retiradas e) (clave_obras e) ∙ f.obras_retiradas),
      leer_en-insert_ne e.presentes (clave_retiradas e) (clave_presentes e)
          (encode e e.retiradas xs) s
          (text_eq_sym (clave_retiradas e) (clave_presentes e) ∙ f.presentes_retiradas),
    )

    pub otra_clave :
        (k : Text) (v : V) (s : Dict V)
        → text_eq k (clave_tablero e) ≡ false
        → text_eq k (clave_retiradas e) ≡ false
        → text_eq k (clave_obras e) ≡ false
        → text_eq k (clave_presentes e) ≡ false
        → vista (Dict.insert k v s) ≡ vista s
    unfolding vista
    otra_clave k v s a b c d = simp (
      leer_en-insert_ne e.ofertas k (clave_tablero e) v s a,
      leer_en-insert_ne e.retiradas k (clave_retiradas e) v s b,
      leer_en-insert_ne e.obras k (clave_obras e) v s c,
      leer_en-insert_ne e.presentes k (clave_presentes e) v s d,
    )
