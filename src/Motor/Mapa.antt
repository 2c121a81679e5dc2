-- ===== src/Motor/Mapa.antt =====
-- `HashMap<(String, usize), V>`, the sessions of a wallet by job and installment, as an association list.
-- The order of the entries is the order in which `iter()` shows them, which the program does not choose.
use home_builder_pay.Base.{
  ℕ, ◌≡◌, ap, ◌∙◌, Bool, true, false, ◌&&◌, not, Option, none, some, List, [], ◌∷◌, arith,
  if◌then◌else◌, ◌==◌, ==_iff, filter, is_some, All, Text, text_eq, text_eq_iff,
}

abbrev pub Clave : Type 0
Clave = Text × ℕ

abbrev pub clave_eq : Clave → Clave → Bool
clave_eq a b = text_eq a.0 b.0 && a.1 == b.1

abbrev pub Mapa {ℓ} : Type ℓ → Type ℓ
Mapa V = List (Clave × V)

module _ {ℓ} {V : Type ℓ} where
  abbrev pub leer_clave : Clave → Mapa V → Option V
  leer_clave k [] = none
  leer_clave k ((j, v) ∷ m) = if clave_eq j k then some v else leer_clave k m

  abbrev pub poner_clave : Clave → V → Mapa V → Mapa V
  poner_clave k v [] = (k, v) ∷ []
  poner_clave k v ((j, w) ∷ m) = if clave_eq j k then (k, v) ∷ m else (j, w) ∷ poner_clave k v m

  abbrev pub sacar_clave : Clave → Mapa V → Mapa V
  sacar_clave k m = filter (λ e. not (clave_eq e.0 k)) m

  -- A write through `get_mut`.
  abbrev pub cambiar_clave : Clave → (V → V) → Mapa V → Mapa V
  cambiar_clave k f [] = []
  cambiar_clave k f ((j, v) ∷ m) =
      if clave_eq j k then (j, f v) ∷ m else (j, v) ∷ cambiar_clave k f m

  -- A write to what `iter_mut().find(…)` finds.
  abbrev pub cambiar_primera : (Clave × V → Bool) → (V → V) → Mapa V → Mapa V
  cambiar_primera p f [] = []
  cambiar_primera p f (e ∷ m) = if p e then (e.0, f e.1) ∷ m else e ∷ cambiar_primera p f m

  -- `keys().find(…)`
  abbrev pub buscar_clave : (Clave × V → Bool) → Mapa V → Option Clave
  buscar_clave p [] = none
  buscar_clave p (e ∷ m) = if p e then some e.0 else buscar_clave p m

-- A predicate on every value.
module _ {ℓ κ} {V : Type ℓ} (P : V → Type κ) where
  abbrev pub Todas : Mapa V → Type κ
  Todas m = All (λ e. P e.1) m

  pub Todas-poner_clave :
      (k : Clave) (v : V) (m : Mapa V) → P v → Todas m → Todas (poner_clave k v m)
  Todas-poner_clave k v [] p h = (p, tt)
  Todas-poner_clave k v ((j, w) ∷ m) p h = ground (arith, Todas-poner_clave k v m)

  pub Todas-filter : (q : Clave × V → Bool) (m : Mapa V) → Todas m → Todas (filter q m)
  Todas-filter q [] h = tt
  Todas-filter q (e ∷ m) h = ground (arith, Todas-filter q m)

  pub Todas-cambiar_clave :
      (k : Clave) (f : V → V) (m : Mapa V)
      → ((v : V) → P v → P (f v))
      → Todas m
      → Todas (cambiar_clave k f m)
  Todas-cambiar_clave k f [] g h = tt
  Todas-cambiar_clave k f ((j, v) ∷ m) g h = ground (arith, g v, Todas-cambiar_clave k f m g)

  pub Todas-cambiar_primera :
      (p : Clave × V → Bool) (f : V → V) (m : Mapa V)
      → ((v : V) → P v → P (f v))
      → Todas m
      → Todas (cambiar_primera p f m)
  Todas-cambiar_primera p f [] g h = tt
  Todas-cambiar_primera p f (e ∷ m) g h = ground (arith, g e.1, Todas-cambiar_primera p f m g)

  pub Todas-leer_clave : (k : Clave) (m : Mapa V) {v : V} → Todas m → leer_clave k m ≡ some v → P v
  Todas-leer_clave k [] h e = absurd (ground arith)
  Todas-leer_clave k ((j, w) ∷ m) {v} h e = ground (arith, Todas-leer_clave k m {v = v})

-- A test of the value at a key, false where there is none.
module _ {ℓ} {V : Type ℓ} (q : V → Bool) where
  abbrev pub cumple : Option V → Bool
  cumple none = false
  cumple (some v) = q v

  abbrev pub en_clave : Clave → Mapa V → Bool
  en_clave k m = cumple (leer_clave k m)

  pub en_clave-cambiar_clave :
      (k j : Clave) (f : V → V) (m : Mapa V)
      → ((v : V) → q v ≡ true → q (f v) ≡ true)
      → en_clave k m ≡ true
      → en_clave k (cambiar_clave j f m) ≡ true
  en_clave-cambiar_clave k j f [] g h = h
  en_clave-cambiar_clave k j f ((i, v) ∷ m) g h =
      ground (arith, g v, en_clave-cambiar_clave k j f m g)

  pub en_clave-cambiar_primera :
      (k : Clave) (p : Clave × V → Bool) (f : V → V) (m : Mapa V)
      → ((v : V) → q v ≡ true → q (f v) ≡ true)
      → en_clave k m ≡ true
      → en_clave k (cambiar_primera p f m) ≡ true
  en_clave-cambiar_primera k p f [] g h = h
  en_clave-cambiar_primera k p f (((i, n), v) ∷ m) g h =
      ground (arith, g v, en_clave-cambiar_primera k p f m g)

  -- A new entry, or the removal of one that fails the test.
  pub en_clave-poner_clave :
      (k j : Clave) (v : V) (m : Mapa V)
      → is_some (leer_clave j m) ≡ false
      → en_clave k m ≡ true
      → en_clave k (poner_clave j v m) ≡ true
  en_clave-poner_clave k j v [] e h = absurd (ground arith)
  en_clave-poner_clave k j v ((i, w) ∷ m) e h = ground (arith, en_clave-poner_clave k j v m)

  clave_eq-same : (i j k : Clave) → clave_eq i j ≡ true → clave_eq i k ≡ true → clave_eq k j ≡ true
  clave_eq-same i j k a b =
      ground (arith, text_eq_iff i.0 j.0, text_eq_iff i.0 k.0, text_eq_iff k.0 j.0)

  pub en_clave-sacar_clave :
      (k j : Clave) (m : Mapa V)
      → clave_eq k j ≡ false
      → en_clave k m ≡ true
      → en_clave k (sacar_clave j m) ≡ true
  en_clave-sacar_clave k j [] e h = h
  en_clave-sacar_clave k j ((i, w) ∷ m) e h =
      ground (arith, clave_eq-same i j k, en_clave-sacar_clave k j m)

  -- Equal keys have the same value.
  pub en_clave-igual :
      (k j : Clave) (m : Mapa V) → clave_eq k j ≡ true → en_clave k m ≡ en_clave j m
  en_clave-igual k j m e =
      ap (λ x. en_clave (x, k.1) m) ((text_eq_iff k.0 j.0).0 (ground arith))
      ∙ ap (λ x. en_clave (j.0, x) m) ((==_iff k.1 j.1).0 (ground arith))
