-- ===== src/Retiro.antt =====
-- crates/konstruado-core/src/retiro.rs: the withdrawal of an offer that nobody took. SHA-256 is a
-- parameter, from bytes to bytes.
pub mod Hex
pub mod Lapidas
use home_builder_pay.Base.{
  ℕ, ◌+◌, ◌-◌, ◌*◌, ◌/◌, ◌%◌, Bool, true, false, ◌&&◌, ◌||◌, not, Option, none, some, List, [], ◌∷◌,
  ◌++◌, ltb, leb, ◌==◌, if◌then◌else◌, ℤ, Error, Result, ok, err, Text, text_eq, is_empty, chars,
  any, filter,
}
use home_builder_pay.Precio.{trim}
use home_builder_pay.Acuerdo.{Oferta, Obra}
use home_builder_pay.Acuerdo.Partes.{oferta_en_tablero}

pub record RetiroOferta : Type 0 where
  pub oferta_id : Text
  pub autor_id : Text
  pub cuando : ℤ
  pub prueba : Text

-- `{x:02x}` of a byte, digit by digit.
abbrev pub hex_char : ℕ → ℕ
hex_char n = if ltb n 10 then 48 + n else 87 + n

unfoldable pub hex : List ℕ → Text
hex [] = []
hex (b ∷ bs) = hex_char (b / 16) ∷ hex_char (b % 16) ∷ hex bs

abbrev pub hex_val : ℕ → Option ℕ
hex_val c =
    if leb b'0' c && leb c b'9'
    then some (c - 48)
    else if leb b'a' c && leb c b'f'
    then some (c - 87)
    else if leb b'A' c && leb c b'F'
    then some (c - 55)
    else none

abbrev pub juntar : Option ℕ → Option ℕ → Option ℕ
juntar (some h) (some l) = some (16 * h + l)
juntar _ _ = none

-- `u8::from_str_radix` of two characters in base 16, which takes a sign `+`.
unfoldable pub byte_de : ℕ → ℕ → Option ℕ
byte_de a b = if a == b'+' then hex_val b else juntar (hex_val a) (hex_val b)

abbrev pub cons_byte : Option ℕ → Option (List ℕ) → Option (List ℕ)
cons_byte (some b) (some bs) = some (b ∷ bs)
cons_byte _ _ = none

-- `unhex` goes by bytes. A text with a character beyond ASCII has none, by the length, by the bounds of
-- a character or by its digits, so pairs of characters do as well.
unfoldable pub unhex : Text → Option (List ℕ)
unfolding byte_de
unhex [] = some []
unhex (a ∷ []) = none
unhex (a ∷ b ∷ s) = cons_byte (byte_de a b) (unhex s)

-- `str::as_bytes`: UTF-8.
abbrev utf8_char : ℕ → List ℕ
utf8_char c =
    if ltb c 0x80
    then c ∷ []
    else if ltb c 0x800
    then (0xc0 + c / 64) ∷ (0x80 + c % 64) ∷ []
    else if ltb c 0x10000
    then (0xe0 + c / 4096) ∷ (0x80 + c / 64 % 64) ∷ (0x80 + c % 64) ∷ []
    else (0xf0 + c / 262144) ∷ (0x80 + c / 4096 % 64) ∷ (0x80 + c / 64 % 64) ∷ (0x80 + c % 64) ∷ []

unfoldable pub utf8 : Text → List ℕ
utf8 [] = []
utf8 (c ∷ s) = utf8_char c ++ utf8 s

abbrev pub dominio : Text
dominio = chars "konstruado-retiro-v1"

-- `Oferta::mejor_que`
unfoldable pub mejor_que : Oferta → Oferta → Bool
mejor_que o otra = not (is_empty o.retiro_hash) && is_empty otra.retiro_hash

module _ (sha256 : List ℕ → List ℕ) where
  unfoldable pub secreto : Text → Text → Option (List ℕ)
  unfolding trim utf8
  secreto clave_sec oferta_id =
      if is_empty (trim clave_sec)
      then none
      else some (sha256 (utf8 dominio ++ (utf8 clave_sec ++ 0 ∷ utf8 oferta_id)))

  unfoldable pub hash_hex : List ℕ → Text
  hash_hex bs = hex (sha256 bs)

  abbrev pub con_retiro : Oferta → Option (List ℕ) → Oferta
  con_retiro o none = o
  con_retiro o (some s) = record o { retiro_hash = hash_hex s }

  -- `Oferta::sellar_retiro`
  unfoldable pub sellar_retiro : Text → Oferta → Oferta
  sellar_retiro clave_sec o = con_retiro o (secreto clave_sec o.id)

  abbrev pub prueba_vale : Option (List ℕ) → Text → Bool
  prueba_vale none h = false
  prueba_vale (some raw) h = text_eq (hash_hex raw) h

  -- `RetiroOferta::vale_para`
  unfoldable pub vale_para : RetiroOferta → Oferta → Bool
  vale_para r o =
      if not (text_eq r.oferta_id o.id) || not (text_eq r.autor_id o.mandante.id)
      then false
      else if is_empty o.retiro_hash
      then true
      else prueba_vale (unhex r.prueba) o.retiro_hash

  abbrev pub hex_o_nada : Option (List ℕ) → Text
  hex_o_nada none = []
  hex_o_nada (some s) = hex s

  -- The withdrawal that `retirar_oferta` builds.
  abbrev pub lapida : Oferta → Text → Text → ℤ → RetiroOferta
  lapida oferta yo_id clave_sec now = record {
    oferta_id = oferta.id;
    autor_id = yo_id;
    cuando = now;
    prueba = hex_o_nada (secreto clave_sec oferta.id);
  }

  unfoldable pub retirar_oferta : Oferta → Text → Text → List Obra → ℤ → Result RetiroOferta
  retirar_oferta oferta yo_id clave_sec obras now =
      if not (text_eq oferta.mandante.id yo_id)
      then err Error.no_es_tuya
      else if not (oferta_en_tablero oferta.id obras)
      then err Error.oferta_tomada
      else if not (vale_para (lapida oferta yo_id clave_sec now) oferta)
      then err Error.no_es_tuya
      else ok (lapida oferta yo_id clave_sec now)

  unfoldable pub sin_retiradas : List Oferta → List RetiroOferta → List Oferta
  sin_retiradas ofertas retiros = filter (λ o. not (any (λ r. vale_para r o) retiros)) ofertas
