-- ===== src/Fusion/Notas.antt =====
-- acuerdo.rs `restaurar_notas` and `elevar_cajas`: the notes of two copies of an installment.
use home_builder_pay.Base.{◌&&◌, not, List, [], ◌∷◌, if◌then◌else◌, is_empty}
use home_builder_pay.Acuerdo.{NotaPartida}

-- The last lines of the loops of `restaurar_notas` and `elevar_cajas`: a sealed note has no text.
abbrev pub sin_texto : NotaPartida → NotaPartida
sin_texto a = if is_empty a.caja then a else record a { texto = [] }

unfoldable pub restaurar_nota : NotaPartida → NotaPartida → NotaPartida
restaurar_nota a b = sin_texto (
    if is_empty a.caja && not (is_empty b.caja)
    then record a { caja = b.caja; texto = [] }
    else if is_empty a.texto && is_empty a.caja && not (is_empty b.texto)
    then record a { texto = b.texto }
    else a)

unfoldable pub elevar_nota : NotaPartida → NotaPartida → NotaPartida
elevar_nota a b =
    sin_texto (
      if is_empty a.caja && not (is_empty b.caja)
      then record a { caja = b.caja; texto = [] }
      else a)

-- `iter_mut().zip(…)`: what has no partner stays.
unfoldable pub zip_notas :
    (NotaPartida → NotaPartida → NotaPartida)
    → List NotaPartida
    → List NotaPartida
    → List NotaPartida
zip_notas f [] bs = []
zip_notas f (a ∷ as') [] = a ∷ as'
zip_notas f (a ∷ as') (b ∷ bs) = f a b ∷ zip_notas f as' bs

unfoldable pub restaurar_notas : List NotaPartida → List NotaPartida → List NotaPartida
unfolding zip_notas restaurar_nota
restaurar_notas = zip_notas restaurar_nota

unfoldable pub elevar_cajas : List NotaPartida → List NotaPartida → List NotaPartida
unfolding zip_notas elevar_nota
elevar_cajas = zip_notas elevar_nota
