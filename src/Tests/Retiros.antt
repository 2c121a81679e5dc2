-- ===== src/Tests/Retiros.antt =====
-- Withdrawals of a concrete offer, with the length of a message as its digest.
use home_builder_pay.Base.{ℕ, ◌%◌, ◌<◌, List, [], ◌∷◌, All, arith, Text, pos, length}
use home_builder_pay.Acuerdo.{Obra, EstadoObra}
use home_builder_pay.Retiro.{RetiroOferta, sellar_retiro, lapida}
use home_builder_pay.Tests.Muestras.{ana, luis, libre, obra, oferta}

abbrev resumen : List ℕ → List ℕ
resumen m = length m % 256 ∷ []

resumen_en_bytes : (m : List ℕ) → All (λ b. b < 256) (resumen m)
resumen_en_bytes m = (omega arith, tt)

abbrev clave : Text
clave = 107 ∷ []

abbrev rechazada : Obra
rechazada = record (obra libre) { estado = EstadoObra.rechazada }

abbrev retiro : RetiroOferta
retiro = lapida resumen (sellar_retiro resumen clave oferta) ana.id clave (pos 1)

-- A withdrawal of an unsealed offer, and one of another offer.
abbrev pub retiro_viejo : RetiroOferta
retiro_viejo = record { oferta_id = 1 ∷ []; autor_id = ana.id; cuando = pos 1; prueba = [] }

abbrev pub retiro_ajeno : RetiroOferta
retiro_ajeno = record { oferta_id = 2 ∷ []; autor_id = luis.id; cuando = pos 1; prueba = [] }
