-- ===== src/Red/Nodo/Validez.antt =====
-- dht.rs: what holds of a node after any events: it never takes itself for another, and its queues are
-- bounded.
use home_builder_pay.Base.{
  ℕ, ◌≤◌, ◌<◌, ◌≡◌, Bool, false, ◌||◌, Option, none, some, List, [], ◌∷◌, if◌then◌else◌, leb, ℤ,
  Text, text_eq, is_empty, length, length-append, arith, Option-cases, Bool-cases, inl, inr,
}
use home_builder_pay.Base.Dict
use home_builder_pay.Base.Dict.{Dict, AllValues}
use home_builder_pay.Red.{PeerAddr, Msg, CajaMsg, o_nada}
use home_builder_pay.Red.Nodo.{
  Nodo, empujar, max_buzon, max_caja, encolar, encolar_en, sumar_pares, recibir_soy, guardar_caja,
  relevar_a, ruta, es_texto,
}
use home_builder_pay.Red.Nodo.Sesiones.{registrar_vivo}

pub record NodoValido {V : Type 0} (n : Nodo V) : Type 0 where
  pub sin_par_propio : Dict.get n.id n.peers ≡ none
  pub sin_sesion_propia : Dict.get n.id n.vivos ≡ none
  pub personas_ajenas : AllValues (λ node. text_eq node n.id ≡ false) n.personas
  pub caja_acotada : length n.caja ≤ max_caja
  pub buzon_acotado : AllValues (λ cola. length cola ≤ max_buzon) n.buzon

empujar-le {ℓ} :
    {A : Type ℓ} (n : ℕ) (x : A) (xs : List A) → 0 < n → length xs ≤ n → length (empujar n x xs) ≤ n
unfolding empujar
empujar-le n x [] p h = ground arith
empujar-le n x (y ∷ ys) p h =
    ground (arith, length-append ys (x ∷ []), length-append (y ∷ ys) (x ∷ []))

pub sumar_pares-propio :
    (me : Text) (list : List (Text × PeerAddr)) (ps : Dict PeerAddr)
    → Dict.get me ps ≡ none
    → Dict.get me (sumar_pares me list ps) ≡ none
unfolding sumar_pares
sumar_pares-propio me [] ps h = h
sumar_pares-propio me ((id, addr) ∷ list) ps h =
    sumar_pares-propio me list (if text_eq id me then ps else Dict.insert id addr ps)
      (ground (arith, Dict.get-insert id me addr ps))

module _ {V : Type 0} where
  cola-le :
      (k : Text) (b : Dict (List (Msg V)))
      → AllValues (λ cola. length cola ≤ max_buzon) b
      → length (o_nada [] (Dict.get k b)) ≤ max_buzon
  cola-le k b h = elim (Option-cases (Dict.get k b)) [
    | inl e ↦ rw e (unfold max_buzon in omega arith)
    | inr (c, e) ↦ rw e (Dict.AllValues-get (λ cola. length cola ≤ max_buzon) k b h e)
  ]

  pub encolar-NodoValido :
      (k : Text) (m : Msg V) (n : Nodo V) → NodoValido n → NodoValido (encolar k m n)
  unfolding encolar
  encolar-NodoValido k m n v = record {
    sin_par_propio = v.sin_par_propio;
    sin_sesion_propia = v.sin_sesion_propia;
    personas_ajenas = v.personas_ajenas;
    caja_acotada = v.caja_acotada;
    buzon_acotado =
        unfold encolar_en in
        Dict.AllValues-insert (λ cola. length cola ≤ max_buzon) k
          (empujar max_buzon m (o_nada [] (Dict.get k n.buzon))) n.buzon
          (empujar-le max_buzon m (o_nada [] (Dict.get k n.buzon)) (unfold max_buzon in omega arith)
            (cola-le k n.buzon v.buzon_acotado))
          v.buzon_acotado;
  }

  con_persona-NodoValido :
      (p node : Text) (n : Nodo V)
      → text_eq node n.id ≡ false
      → NodoValido n
      → NodoValido (record n { personas = Dict.insert p node n.personas })
  con_persona-NodoValido p node n h v = record {
    sin_par_propio = v.sin_par_propio;
    sin_sesion_propia = v.sin_sesion_propia;
    personas_ajenas =
        Dict.AllValues-insert (λ x. text_eq x n.id ≡ false) p node n.personas h v.personas_ajenas;
    caja_acotada = v.caja_acotada;
    buzon_acotado = v.buzon_acotado;
  }

  pub recibir_soy-NodoValido :
      (node p : Text) (origen : Option Text) (n : Nodo V)
      → NodoValido n
      → NodoValido (recibir_soy node p origen n).1
  unfolding recibir_soy
  recibir_soy-NodoValido node p origen n v =
      elim (Bool-cases (is_empty node || is_empty p || text_eq node n.id)) [
        | inl a ↦ rw a v
        | inr a ↦ elim (Bool-cases (es_texto (Dict.get p n.personas) node)) [
          | inl b ↦ rw (a, b) v
          | inr b ↦ rw (a, b) (con_persona-NodoValido p node n (ground arith) v)
        ]
      ]

  con_caja-NodoValido :
      (m : CajaMsg) (n : Nodo V)
      → NodoValido n
      → NodoValido (record n { caja = empujar max_caja m n.caja })
  con_caja-NodoValido m n v = record {
    sin_par_propio = v.sin_par_propio;
    sin_sesion_propia = v.sin_sesion_propia;
    personas_ajenas = v.personas_ajenas;
    caja_acotada = empujar-le max_caja m n.caja (unfold max_caja in omega arith) v.caja_acotada;
    buzon_acotado = v.buzon_acotado;
  }

  pub guardar_caja-NodoValido :
      (obra de paso : Text) (b : Option (List ℕ)) (n : Nodo V)
      → NodoValido n
      → NodoValido (guardar_caja obra de paso b n)
  guardar_caja-NodoValido obra de paso none n v = v
  guardar_caja-NodoValido obra de paso (some b) n v = elim (Bool-cases (leb (length b) 900_000)) [
    | inl cabe ↦
        rw cabe (con_caja-NodoValido (record { obra = obra; de = de; paso = paso; cuerpo = b }) n v)
    | inr no_cabe ↦ rw no_cabe v
  ]

  pub relevar_a-NodoValido :
      (dest origen : Option Text) (m : Msg V) (n : Nodo V)
      → NodoValido n
      → NodoValido (relevar_a dest origen m n).1
  relevar_a-NodoValido none origen m n v = v
  relevar_a-NodoValido (some dest) origen m n v =
      elim (Bool-cases (es_texto origen dest || text_eq dest n.id)) [
        | inl a ↦ rw a v
        | inr a ↦ elim (Option-cases (ruta n dest m)) [
          | inl b ↦ rw (a, b) (encolar-NodoValido dest m n v)
          | inr (envio, b) ↦ rw (a, b) v
        ]
      ]

  pub con_pares-NodoValido :
      (ps : Dict PeerAddr) (n : Nodo V)
      → Dict.get n.id ps ≡ none
      → NodoValido n
      → NodoValido (record n { peers = ps })
  con_pares-NodoValido ps n h v = record {
    sin_par_propio = h;
    sin_sesion_propia = v.sin_sesion_propia;
    personas_ajenas = v.personas_ajenas;
    caja_acotada = v.caja_acotada;
    buzon_acotado = v.buzon_acotado;
  }

  -- The store, the clock, the persona and the archive do not matter.
  pub con_estado-NodoValido :
      (s : Dict V) (now : ℤ) (p : Option Text) (ids : List Text) (n : Nodo V)
      → NodoValido n
      → NodoValido (record n { store = s; sync_at = now; persona = p; obras_salidas = ids })
  con_estado-NodoValido s now p ids n v = record {
    sin_par_propio = v.sin_par_propio;
    sin_sesion_propia = v.sin_sesion_propia;
    personas_ajenas = v.personas_ajenas;
    caja_acotada = v.caja_acotada;
    buzon_acotado = v.buzon_acotado;
  }

  pub registrar_vivo-NodoValido :
      (node : Text) (sid : ℕ) (entrante : Bool) (n : Nodo V)
      → NodoValido n
      → NodoValido (registrar_vivo node sid entrante n).1
  unfolding registrar_vivo
  registrar_vivo-NodoValido node sid entrante n v = elim (Bool-cases (text_eq node n.id)) [
    | inl yo ↦ rw yo v
    | inr otro ↦ rw otro (
        let r : NodoValido
            (record n { vivos = Dict.insert node sid n.vivos; buzon = Dict.remove node n.buzon }) =
          record {
            sin_par_propio = v.sin_par_propio;
            sin_sesion_propia =
                ground (arith, v.sin_sesion_propia, Dict.get-insert node n.id sid n.vivos);
            personas_ajenas = v.personas_ajenas;
            caja_acotada = v.caja_acotada;
            buzon_acotado =
                Dict.AllValues-remove (λ cola. length cola ≤ max_buzon) node n.buzon
                  v.buzon_acotado;
          } in
        r)
  ]
