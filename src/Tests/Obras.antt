-- ===== src/Tests/Obras.antt =====
-- Calls on a job: the theorems of Acuerdo at concrete jobs.
use home_builder_pay.Acuerdo.Partes.{aceptar_extra}
use home_builder_pay.Base.{
  split_whitespace, join, ◌≡◌, ◌≢◌, ◌≤◌, ◌<◌, ◌+◌, ◌*◌, ◌%◌, ◌⊎◌, refl, List, [], ◌∷◌, ℤ, pos,
  text_eq, true, ◌&&◌, not, none, some, Error, is_ok, arith, get_elem?,
}
use home_builder_pay.Precio.{PrecioFijado, usd_a_piconero, coherente}
use home_builder_pay.Montos.{limpia_nota, porcentaje, u64_mod}
use home_builder_pay.Acuerdo.{
  Partida, Obra, Aceptacion, Persona, Rol, ReciboPartida, EstadoObra, PartidaEstado, capital,
}
use home_builder_pay.Acuerdo.Operaciones.{
  rol_en, encerrar_proponer_con, encerrar_confirmar, contra_pago, aceptar_pago, piconero_partida,
}
use home_builder_pay.Acuerdo.Pedido.{Pedido, aplicar, correr}
use home_builder_pay.Acuerdo.Atomic.{aplicar_failed}
use home_builder_pay.Acuerdo.Invariante.{ObraValida}
use home_builder_pay.Acuerdo.Invariante.Historia.{correr-ObraValida}
use home_builder_pay.Acuerdo.Encierre.{encerrar_dos_partes, encerrar_fija_precio}
use home_builder_pay.Acuerdo.Pago.{contra_pago-aceptar_pago}
use home_builder_pay.Tests.Muestras.{ana, luis, precio, libre, en_trato, cobrada_ya, obra}

nueva-ObraValida : ObraValida (obra libre)
nueva-ObraValida = ground arith

-- From the lock of the first installment to its payment.
abbrev historia : List (ℤ × Pedido)
historia =
    (pos 1, Pedido.encerrar_proponer 0 ana (some precio))
    ∷ (pos 2, Pedido.encerrar_confirmar 0 luis)
    ∷ (pos 3, Pedido.avisar_termino 0 luis 80 (120 ∷ []))
    ∷ (pos 4, Pedido.contra_pago 0 ana 70 (120 ∷ []))
    ∷ (pos 5, Pedido.aceptar_pago 0 luis)
    ∷ []

correr-ObraValida_example : ObraValida (correr historia (obra libre))
correr-ObraValida_example = correr-ObraValida historia (obra libre) nueva-ObraValida

aplicar_failed_example :
    ((aplicar (Pedido.aceptar_extra luis) (pos 1) (obra libre)).1 ≡ obra libre)
    ⊎ ((q : Persona) × (Pedido.aceptar_extra luis ≡ Pedido.aceptar_extra q)
        × (Error.no_esta ≡ Error.monto)
        × ((aplicar (Pedido.aceptar_extra luis) (pos 1) (obra libre)).1
            ≡ record (obra libre) { extra = none }))
unfolding aplicar aceptar_extra text_eq
aplicar_failed_example = aplicar_failed (Pedido.aceptar_extra luis) (pos 1) (obra libre) refl

encerrar_dos_partes_example :
    is_ok
      (encerrar_confirmar 0 luis
        (pos 2)
        (encerrar_proponer_con 0 ana (some precio) (pos 1) (obra libre)).1).0
    ≡ is_ok (rol_en (obra libre) luis.id) && not (text_eq ana.id luis.id)
unfolding encerrar_proponer_con text_eq coherente usd_a_piconero capital
encerrar_dos_partes_example =
    encerrar_dos_partes 0 ana (some precio) (pos 1) (obra libre) luis (pos 2) refl

encerrar_fija_precio_example :
    (fijado : PrecioFijado) × (p : Partida) × (some precio ≡ some fijado)
    × (coherente fijado ≡ true)
    × (get_elem? (obra libre).partidas 0 ≡ some p)
    × (fijado.usd_centavos ≡ capital p 200000)
    × (piconero_partida (encerrar_proponer_con 0 ana (some precio) (pos 1) (obra libre)).1 0
        ≡ some fijado.piconero)
unfolding encerrar_proponer_con text_eq coherente usd_a_piconero capital
encerrar_fija_precio_example =
    encerrar_fija_precio 0 ana (some precio) (pos 1) (obra libre) refl refl

contra_pago-aceptar_pago_example :
    (antes p : Partida) × (recibo : ReciboPartida) × (get_elem? (obra en_trato).partidas 0
      ≡ some antes)
    × (get_elem?
          (aceptar_pago 0 luis
            (pos 5)
            (contra_pago 0 ana 70 (120 ∷ []) (pos 4) (obra en_trato)).1).1.partidas
          0
        ≡ some p)
    × (p.estado ≡ PartidaEstado.pagada)
    × (p.pago ≡ some 70)
    × (p.recibo ≡ some recibo)
    × (recibo.porcentaje ≡ 70)
    × (100 * recibo.monto ≤ capital antes 200000 * 70 % u64_mod)
    × (capital antes 200000 * 70 % u64_mod < 100 * recibo.monto + 100)
unfolding contra_pago aceptar_pago text_eq porcentaje limpia_nota join split_whitespace
contra_pago-aceptar_pago_example =
    contra_pago-aceptar_pago 0 ana luis 70 (120 ∷ []) (pos 4) (pos 5) (obra en_trato)
      Rol.contratista refl refl refl

ana_no_luis : ana.id ≢ luis.id
ana_no_luis h = absurd (ground arith)

-- Ana accepts what Luis asks for the last installment.
abbrev ultima : Obra
ultima = record (obra en_trato) { partidas = en_trato ∷ cobrada_ya ∷ [] }

abbrev contraoferta : Aceptacion
contraoferta = record {
  oferta_id = 1 ∷ [];
  contratista = luis;
  garantia = 100000;
  n_partidas = 4;
  detalles = [] ∷ [] ∷ [] ∷ [] ∷ [];
}

abbrev contraofertada : Obra
contraofertada = record (obra libre) {
  garantia = 100000;
  n_partidas = 4;
  estado = EstadoObra.contra;
  partidas = libre ∷ libre ∷ libre ∷ libre ∷ [];
  contra = some contraoferta;
  actualizado = pos 1;
}
