-- ===== src/Tests/Sobres.antt =====
-- An envelope with a cipher that appends 16 bytes.
use home_builder_pay.Base.{
  ◌≡◌, refl, ℕ, some, List, [], ◌∷◌, ◌++◌, inr, resize, arith, take, ◌-◌, length, length-append,
}
use home_builder_pay.Sobre.{Cifra, ParamsKdf, bien, sellar_con, abrir}
use home_builder_pay.Sobre.Vuelta.{FielCifra, abrir-sellar_con, take-append}

abbrev sello : List ℕ
sello = resize 16 9 []

abbrev llana : Cifra
llana = record {
  hash = λ clave sal p. inr clave;
  cifrar = λ k nonce aad plano. some (plano ++ sello);
  descifrar = λ k nonce aad ct. some (take (length ct - 16) ct);
}

llana-FielCifra : FielCifra llana
llana-FielCifra = record {
  vuelta = λ k nonce aad plano ct h.
      ground (arith, h, length-append plano sello, take-append (length plano) plano sello refl);
  largo = λ k nonce aad plano ct h. ground (arith, h, length-append plano sello);
}

abbrev rapido : ParamsKdf
rapido = record { memoria_kib = 8_192; pasadas = 1; hilos = 1 }

abbrev sal : List ℕ
sal = resize 16 1 []

abbrev nonce : List ℕ
nonce = resize 24 2 []

abbrev sobre : List ℕ
sobre =
    75 ∷ 83 ∷ 84 ∷ 82 ∷ 66 ∷ 65 ∷ 75 ∷ 0 ∷ 1 ∷ 1 ∷ 0 ∷ 32 ∷ 0 ∷ 0 ∷ 1 ∷ 0 ∷ 0 ∷ 0 ∷ 1 ∷ sal
    ++ nonce
    ++ (5 ∷ 6 ∷ sello)

abrir-sellar_con_example : abrir llana sobre (7 ∷ []) ≡ bien (5 ∷ 6 ∷ [])
unfolding sellar_con
abrir-sellar_con_example =
    abrir-sellar_con llana (5 ∷ 6 ∷ []) (7 ∷ []) rapido sal nonce sobre llana-FielCifra refl refl
      refl
