-- ===== src/Base/Dict.antt =====
-- `HashMap<String, V>` as an association list with one entry for each key. The order of the entries is
-- the order in which `iter()` shows them, which the program does not choose.
use mathlib.Core.Path.{◌≡◌, refl}
use mathlib.Core.Bool.{Bool, not}
use mathlib.Core.List.{List, [], ◌∷◌}
use mathlib.Core.Option.{Option, none, some}
use native.Mathlib.Omega.{arith}
use home_builder_pay.Base.Tests.{if◌then◌else◌, is_some}
use home_builder_pay.Base.Lists.{filter, All}
use home_builder_pay.Base.Strings.{Text, text_eq, text_eq_iff}

abbrev pub Dict {ℓ} : Type ℓ → Type ℓ
Dict V = List (Text × V)

module _ {ℓ} {V : Type ℓ} where
  abbrev pub get : Text → Dict V → Option V
  get k [] = none
  get k ((j, v) ∷ m) = if text_eq j k then some v else get k m

  abbrev pub insert : Text → V → Dict V → Dict V
  insert k v [] = (k, v) ∷ []
  insert k v ((j, w) ∷ m) = if text_eq j k then (k, v) ∷ m else (j, w) ∷ insert k v m

  abbrev pub remove : Text → Dict V → Dict V
  remove k m = filter (λ e. not (text_eq e.0 k)) m

  abbrev pub contains_key : Text → Dict V → Bool
  contains_key k m = is_some (get k m)

  pub get-insert :
      (k j : Text) (v : V) (m : Dict V)
      → get j (insert k v m) ≡ (if text_eq k j then some v else get j m)
  get-insert k j v [] = refl
  get-insert k j v ((i, w) ∷ m) =
      ground (arith, text_eq_iff k j, text_eq_iff i k, text_eq_iff i j, get-insert k j v m)

  pub get-remove :
      (k j : Text) (m : Dict V) → get j (remove k m) ≡ (if text_eq k j then none else get j m)
  get-remove k j [] = ground arith
  get-remove k j ((i, w) ∷ m) =
      ground (
        arith,
        text_eq_iff k j,
        text_eq_iff i k,
        text_eq_iff i j,
        text_eq_iff j k,
        get-remove k j m,
      )

-- A predicate on every value.
module _ {ℓ κ} {V : Type ℓ} (P : V → Type κ) where
  abbrev pub AllValues : Dict V → Type κ
  AllValues m = All (λ e. P e.1) m

  pub AllValues-insert :
      (k : Text) (v : V) (m : Dict V) → P v → AllValues m → AllValues (insert k v m)
  AllValues-insert k v [] p h = (p, tt)
  AllValues-insert k v ((j, w) ∷ m) p h = ground (arith, AllValues-insert k v m)

  pub AllValues-remove : (k : Text) (m : Dict V) → AllValues m → AllValues (remove k m)
  AllValues-remove k [] h = tt
  AllValues-remove k ((j, w) ∷ m) h = ground (arith, AllValues-remove k m)

  pub AllValues-get : (k : Text) (m : Dict V) {v : V} → AllValues m → get k m ≡ some v → P v
  AllValues-get k [] h e = absurd (ground arith)
  AllValues-get k ((j, w) ∷ m) {v} h e = ground (arith, AllValues-get k m {v = v})
