-- ===== src/Sobre.antt =====
-- crates/xmr-joint/src/sobre.rs: the sealed envelope of a complete backup. Argon2 and XChaCha20-Poly1305
-- are the fields of the record `Cifra`; the salt and the nonce that are drawn are arguments.
pub mod Vuelta
use home_builder_pay.Base.{
  ℕ, suc, zero, ◌+◌, ◌-◌, ◌*◌, ◌/◌, ◌%◌, Bool, true, false, ◌&&◌, ◌||◌, not, Option, none, some,
  List, [], ◌∷◌, ◌++◌, if◌then◌else◌, ltb, leb, ◌==◌, ◌⊎◌, inl, inr, Text, text_eq, is_empty, chars,
  length, take,
}
use home_builder_pay.Retiro.{utf8}

-- `KSTRBAK\0`
abbrev pub magia : List ℕ
magia = 75 ∷ 83 ∷ 84 ∷ 82 ∷ 66 ∷ 65 ∷ 75 ∷ 0 ∷ []

abbrev pub version : ℕ
version = 1

abbrev pub kdf_argon2id : ℕ
kdf_argon2id = 1

abbrev pub cabecera : ℕ
cabecera = 59

abbrev pub tag : ℕ
tag = 16

pub record ParamsKdf : Type 0 where
  pub memoria_kib : ℕ  -- u32
  pub pasadas : ℕ  -- u32
  pub hilos : ℕ  -- u8

-- `sanos`
unfoldable pub sanos : ParamsKdf → Bool
sanos p =
    leb 8_192 p.memoria_kib
    && leb p.memoria_kib 1_048_576
    && (leb 1 p.pasadas && leb p.pasadas 16 && (leb 1 p.hilos && leb p.hilos 8))

pub data ErrorSobre : Type 0 where
  no_es_respaldo : ErrorSobre
  version_ajena : ℕ → ErrorSobre
  danado clave : ErrorSobre
  interno : Text → ErrorSobre

pub data Intento (A : Type 0) : Type 0 where
  bien : A → Intento A
  mal : ErrorSobre → Intento A

-- `?`
infixl 5 ◌>>=◌
abbrev pub ◌>>=◌ : {A B : Type 0} → Intento A → (A → Intento B) → Intento B
bien a >>= f = f a
mal e >>= f = mal e

-- The calls of the libraries. `hash` gives the text of an error, or a key.
pub record Cifra : Type 0 where
  pub hash : (clave sal : List ℕ) → ParamsKdf → Text ⊎ List ℕ
  pub cifrar : (llave nonce aad plano : List ℕ) → Option (List ℕ)
  pub descifrar : (llave nonce aad cifrado : List ℕ) → Option (List ℕ)

-- `u32::to_le_bytes` and `u32::from_le_bytes`.
unfoldable pub le_bytes : ℕ → List ℕ
le_bytes n = n % 256 ∷ n / 256 % 256 ∷ n / 65_536 % 256 ∷ n / 16_777_216 % 256 ∷ []

unfoldable pub de_le_bytes : List ℕ → ℕ
de_le_bytes (a ∷ b ∷ c ∷ d ∷ bs) = a + 256 * b + 65_536 * c + 16_777_216 * d
de_le_bytes _ = 0

abbrev pub saltar : ℕ → List ℕ → List ℕ
saltar zero xs = xs
saltar (suc n) [] = []
saltar (suc n) (x ∷ xs) = saltar n xs

-- `datos[a..b]` and `datos[i]`; the length of `datos` is checked before.
abbrev pub rebanada : ℕ → ℕ → List ℕ → List ℕ
rebanada a b datos = take (b - a) (saltar a datos)

abbrev primero : List ℕ → ℕ
primero [] = 0
primero (b ∷ bs) = b

abbrev pub byte : ℕ → List ℕ → ℕ
byte i datos = primero (saltar i datos)

abbrev pub o_interno : Text ⊎ List ℕ → Intento (List ℕ)
o_interno (inl e) = mal (interno e)
o_interno (inr k) = bien k

abbrev pub o_error : Option (List ℕ) → ErrorSobre → Intento (List ℕ)
o_error none e = mal e
o_error (some b) e = bien b

unfoldable pub es_sobre : List ℕ → Bool
es_sobre datos = leb 8 (length datos) && text_eq (take 8 datos) magia

unfoldable pub revisar_cabecera : List ℕ → Intento ParamsKdf
unfolding es_sobre de_le_bytes sanos
revisar_cabecera datos =
    let p : ParamsKdf = record {
      memoria_kib = de_le_bytes (rebanada 10 14 datos);
      pasadas = de_le_bytes (rebanada 14 18 datos);
      hilos = byte 18 datos;
    } in
    if not (es_sobre datos)
    then mal no_es_respaldo
    else if ltb (length datos) 9
    then mal danado
    else if not (byte 8 datos == version)
    then mal (version_ajena (byte 8 datos))
    else if ltb (length datos) (cabecera + tag) || not (byte 9 datos == kdf_argon2id)
    then mal danado
    else if not (sanos p)
    then mal danado
    else bien p

-- The header: what the seal writes before the encrypted text.
unfoldable pub escribir_cabecera : ParamsKdf → (sal nonce : List ℕ) → List ℕ
unfolding le_bytes
escribir_cabecera p sal nonce =
    magia
    ++ (version ∷ kdf_argon2id ∷ le_bytes p.memoria_kib
        ++ (le_bytes p.pasadas ++ (p.hilos ∷ sal ++ nonce)))

module _ (c : Cifra) where
  unfoldable pub derivar : Text → List ℕ → ParamsKdf → Intento (List ℕ)
  derivar pass sal p =
      if is_empty pass
      then mal (interno (chars "codigo:respaldo-clave-vacia"))
      else o_interno (c.hash (utf8 pass) sal p)

  unfoldable pub sellar_con :
      (plano : List ℕ) → (pass : Text) → ParamsKdf → (sal nonce : List ℕ) → Intento (List ℕ)
  unfolding derivar escribir_cabecera sanos
  sellar_con plano pass p sal nonce =
      if not (sanos p)
      then mal danado
      else (derivar pass sal p >>= λ k.
          o_error (c.cifrar k nonce (escribir_cabecera p sal nonce) plano)
            (interno (chars "no pude cifrar"))
          >>= λ ct. bien (escribir_cabecera p sal nonce ++ ct))

  unfoldable pub abrir : List ℕ → Text → Intento (List ℕ)
  unfolding revisar_cabecera derivar
  abrir datos pass = revisar_cabecera datos >>= λ p. derivar pass (rebanada 19 35 datos) p >>= λ k.
      o_error (c.descifrar k (rebanada 35 59 datos) (take cabecera datos) (saltar cabecera datos))
        clave
