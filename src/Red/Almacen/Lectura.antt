-- ===== src/Red/Almacen/Lectura.antt =====
-- dht.rs `merge_store`: what is read of the store after a value has arrived.
use home_builder_pay.Base.{
  ℕ, ◌+◌, ◌≡◌, ◌≤◌, Bool, false, ◌&&◌, ◌||◌, not, List, ◌++◌, leb, Text, is_empty, any, length, ◌⊎◌,
}
use home_builder_pay.Base.Dict.{Dict}
use home_builder_pay.Acuerdo.{Oferta}
use home_builder_pay.Fusion.{fusionar}
use home_builder_pay.Retiro.{RetiroOferta, sin_retiradas}
use home_builder_pay.Red.Almacen.{retiro_igual, max_retiradas}
use home_builder_pay.Red.Almacen.Vista.{Vista, Llegada}
use home_builder_pay.Red.Almacen.Lapidas.{EnOrden}
use home_builder_pay.Red.Almacen.Copias.{
  busca, de_id, junta, lista, retirable, oferta_id, obra_id, persona_id, Ultima,
}

-- A withdrawal with the id of an offer and of an author, that says the same as `x`.
abbrev pub dice : RetiroOferta → RetiroOferta → Bool
dice x r = not (is_empty r.oferta_id) && not (is_empty r.autor_id) && retiro_igual x r

-- What the four lists were (`v`) and are (`w`) when a value arrives, without saying how they are merged.
abbrev pub Recibida : (List ℕ → List ℕ) → Llegada → Vista → Vista → Type 0
Recibida sha256 (Llegada.ofertas b) v w =
    ((m : List Oferta) × (w.tablero ≡ sin_retiradas sha256 m v.retiradas)
      × ((k : Text)
          → busca oferta_id k m
            ≡ junta retirable (busca oferta_id k v.tablero) (de_id oferta_id k b)))
    × (w.obras ≡ v.obras)
    × (w.presentes ≡ v.presentes)
    × (w.retiradas ≡ v.retiradas)
Recibida sha256 (Llegada.obras b) v w =
    ((k : Text)
      → busca obra_id k w.obras ≡ junta fusionar (busca obra_id k v.obras) (de_id obra_id k b))
    × (w.tablero ≡ v.tablero)
    × (w.presentes ≡ v.presentes)
    × (w.retiradas ≡ v.retiradas)
Recibida sha256 (Llegada.presentes b) v w =
    ((k : Text)
      → Ultima (lista (busca persona_id k v.presentes) ++ de_id persona_id k b)
          (busca persona_id k w.presentes))
    × (w.tablero ≡ v.tablero)
    × (w.obras ≡ v.obras)
    × (w.retiradas ≡ v.retiradas)
Recibida sha256 (Llegada.retiradas b) v w =
    ((length w.retiradas ≤ max_retiradas) × EnOrden w.retiradas)
    × ((x : RetiroOferta)
        → (leb (length v.retiradas + length b) max_retiradas ≡ false)
          ⊎ (any (retiro_igual x) w.retiradas
              ≡ (any (retiro_igual x) v.retiradas || any (dice x) b)))
    × (w.tablero ≡ sin_retiradas sha256 v.tablero w.retiradas)
    × (w.obras ≡ v.obras)
    × (w.presentes ≡ v.presentes)
Recibida sha256 Llegada.otra v w = w ≡ v
