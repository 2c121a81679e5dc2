-- ===== src/Motor/Sesiones/Vistas.antt =====
-- Whatever messages arrive, what becomes of a funding that was seen in the chain.
use home_builder_pay.Base.{
  ◌≡◌, refl, Bool, true, false, List, [], ◌∷◌, ◌++◌, arith, if◌then◌else◌, any, all, Text, text_eq,
  text_eq_iff,
}
use home_builder_pay.Acuerdo.{Obra}
use home_builder_pay.Red.{CajaMsg}
use home_builder_pay.Motor.Mapa.{Clave, Mapa, en_clave}
use home_builder_pay.Motor.Sesiones.{Tipos, Motor}
use home_builder_pay.Motor.Sesiones.Mensajes.{Lector, paso_de, tomar, ingerir}
use home_builder_pay.Motor.Sesiones.Firme.{es_firme, nombra, Firme, tomar-Firme}

-- The transactions that the messages of others name.
unfoldable pub nombradas : (yo : Text) → List CajaMsg → List Text
nombradas yo [] = []
nombradas yo (c ∷ cs) =
    (if text_eq c.de yo then [] else nombra (paso_de c.paso) c) ++ nombradas yo cs

all-append :
    (p : Text → Bool) (xs ys : List Text)
    → all p (xs ++ ys) ≡ true
    → (all p xs ≡ true) × (all p ys ≡ true)
all-append p [] ys h = (refl, h)
all-append p (x ∷ xs) ys h = ground (arith, h, all-append p xs ys)

en_clave_mas :
    {V : Type 0} (k : Clave) (p q : V → Bool) (m : Mapa V)
    → ((x : V) → p x ≡ true → q x ≡ true)
    → en_clave p k m ≡ true
    → en_clave q k m ≡ true
en_clave_mas k p q [] g h = h
en_clave_mas k p q ((j, x) ∷ m) g h = ground (arith, h, g x, en_clave_mas k p q m g)

module _ {T : Tipos} (ts : List Text) (k : Clave) (r : Lector T) where
  ingerir-nombradas :
      (cs : List CajaMsg) (yo : Text) (obras : List Obra) (m : Motor T)
      → all (λ x. any (text_eq x) ts) (nombradas yo cs) ≡ true
      → Firme ts k m
      → Firme ts k (ingerir r cs yo obras m)
  unfolding ingerir nombradas
  ingerir-nombradas [] yo obras m n h = h
  ingerir-nombradas (c ∷ cs) yo obras m n h =
      let q =
        all-append (λ x. any (text_eq x) ts)
          (if text_eq c.de yo then [] else nombra (paso_de c.paso) c) (nombradas yo cs) n in
      ingerir-nombradas cs yo obras _ q.1 (uno (text_eq c.de yo) q.0)
    where
      uno :
          (b : Bool)
          → all (λ x. any (text_eq x) ts) (if b then [] else nombra (paso_de c.paso) c) ≡ true
          → Firme ts k (if b then m else tomar r (paso_de c.paso) c yo obras m)
      uno true n = h
      uno false n = tomar-Firme ts k r (paso_de c.paso) c yo obras m n h

todas_estan :
    (ts us : List Text)
    → ((x : Text) → any (text_eq x) us ≡ true → any (text_eq x) ts ≡ true)
    → all (λ x. any (text_eq x) ts) us ≡ true
todas_estan ts [] h = refl
todas_estan ts (u ∷ us) h =
    let a = h u (ground (arith, text_eq_iff u u)) in
    ground (arith, a, todas_estan ts us (λ x g. h x (ground (arith, g))))

-- Whatever messages arrive, from whomever, a funding that the wallet has marked as seen in the chain, with
-- the transaction t, stays: it is still marked as seen, and its transaction is t or a text of 64 bytes or
-- more that a `fund-tx` of another sender has brought, which replaces it.
pub ingerir-Firme :
    {T : Tipos} (k : Clave) (t : Text) (r : Lector T) (cs : List CajaMsg) (yo : Text)
    (obras : List Obra) (m : Motor T)
    → en_clave (es_firme (t ∷ [])) k m.fondeos ≡ true
    → en_clave (es_firme (t ∷ nombradas yo cs)) k (ingerir r cs yo obras m).fondeos ≡ true
ingerir-Firme k t r cs yo obras m h =
    ingerir-nombradas (t ∷ nombradas yo cs) k r cs yo obras m
      (todas_estan (t ∷ nombradas yo cs) (nombradas yo cs) (λ x g. ground (arith, g)))
      (en_clave_mas k (es_firme (t ∷ [])) (es_firme (t ∷ nombradas yo cs)) m.fondeos
        (λ f g. ground (arith, g)) h)
