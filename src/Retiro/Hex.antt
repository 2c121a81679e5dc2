-- ===== src/Retiro/Hex.antt =====
-- retiro.rs `hex` and `unhex`: bytes as text and back.
use home_builder_pay.Base.{
  ℕ, ◌/◌, ◌%◌, ◌<◌, ◌≡◌, refl, sym, ap, ◌∙◌, some, List, [], ◌∷◌, All, arith, ◌==◌, false,
}
use home_builder_pay.Retiro.{hex, hex_char, hex_val, byte_de, unhex}

hex_val-hex_char : (n : ℕ) → n < 16 → hex_val (hex_char n) ≡ some n
hex_val-hex_char n h = ground arith

hex_char_no_signo : (n : ℕ) → n < 16 → (hex_char n == b'+') ≡ false
hex_char_no_signo n h = ground arith

byte_de-hex_char : (b : ℕ) → b < 256 → byte_de (hex_char (b / 16)) (hex_char (b % 16)) ≡ some b
unfolding byte_de
byte_de-hex_char b h =
    rw
      (
        hex_char_no_signo (b / 16) (omega arith),
        hex_val-hex_char (b / 16) (omega arith),
        hex_val-hex_char (b % 16) (omega arith),
      )
      (ap some (omega arith))

-- The text of a list of bytes is read back as that list.
pub unhex-hex : (bs : List ℕ) → All (λ b. b < 256) bs → unhex (hex bs) ≡ some bs
unfolding unhex hex
unhex-hex [] h = refl
unhex-hex (b ∷ bs) h = rw (byte_de-hex_char b h.0, unhex-hex bs h.1) refl

-- Two lists of bytes with the same text are the same.
pub hex-injective :
    (as' bs : List ℕ) → All (λ b. b < 256) as' → All (λ b. b < 256) bs → hex as' ≡ hex bs → as' ≡ bs
hex-injective as' bs ha hb e = let k = sym (unhex-hex as' ha) ∙ ap unhex e ∙ unhex-hex bs hb in cc
