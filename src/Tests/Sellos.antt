-- ===== src/Tests/Sellos.antt =====
-- Sealing a concrete job, with a box that adds nothing to the message.
use home_builder_pay.Base.{text_eq, ℕ, ◌≡◌, refl, false, some, [], ◌∷◌, Text, resize, pos}
use home_builder_pay.Acuerdo.{Partida, Obra}
use home_builder_pay.Sellado.{
  sellar_el_extra, sellar_caja, sellar_notas, sellar_partidas, sellar_con, pub_de, Cripto, pub_otro,
  hay_texto_claro, sellar,
}
use home_builder_pay.Sellado.Claro.{sellar-hay_texto_claro}
use home_builder_pay.Tests.Muestras.{ana, luis, libre, obra}

-- A key is 32 copies of its only character, and is public.
abbrev pub llana : Cripto
llana = record {
  codificar = λ bs. resize 1 0 bs;
  decodificar = λ t. some (resize 32 (resize_de t) []);
  publica = λ sec. sec;
  cifrar = λ sec pubk nonce msg. some msg;
  azar = λ k. k ∷ [];
}
  where
    resize_de : Text → ℕ
    resize_de [] = 0
    resize_de (x ∷ xs) = x

abbrev con_nota : Partida
con_nota = record libre {
  notas =
      record {
        autor_id = ana.id;
        autor_nombre = [];
        porcentaje = 80;
        texto = 120 ∷ [];
        cuando = pos 1;
        caja = [];
      }
      ∷ [];
}

abbrev con_claves : Obra
con_claves = record (obra con_nota) {
  mandante = record ana { clave_pub = 1 ∷ [] };
  contratista = record luis { clave_pub = 2 ∷ [] };
}

sellar-hay_texto_claro_example : hay_texto_claro (sellar llana (1 ∷ []) con_claves).1 ≡ false
unfolding sellar hay_texto_claro pub_de pub_otro text_eq sellar_con sellar_partidas sellar_notas
    sellar_caja sellar_el_extra
sellar-hay_texto_claro_example = sellar-hay_texto_claro llana (1 ∷ []) con_claves refl
