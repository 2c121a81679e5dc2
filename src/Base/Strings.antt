-- ===== src/Base/Strings.antt =====
-- Rust's `String` as the list of its characters (Unicode scalar values), with the parts of the
-- standard library that the program uses: comparison, `split_whitespace`, UTF-8 length.
use Prim.Native.Nat.{ℕ, ◌+◌}
use Prim.Native.Char.{code}
use Prim.Native.String.{String}
use mathlib.Core.Path.{◌≡◌}
use mathlib.Core.Logic.{◌↔◌, inl, inr}
use mathlib.Core.Bool.{Bool, true, false, ◌&&◌, ◌||◌, not}
use mathlib.Core.List.{List, [], ◌∷◌, ◌++◌}
use native.Mathlib.Omega.{arith}
use home_builder_pay.Base.Tests.{Bool-cases, ltb, leb, ◌==◌, if◌then◌else◌}
use home_builder_pay.Base.Lists.{filter, is_empty}

abbrev pub Text : Type 0
Text = List ℕ

-- A literal of the source.
abbrev pub chars : String → Text
chars String.[] = []
chars (String.◌∷◌ c s) = code c ∷ chars s

-- `==` on strings.
unfoldable pub text_eq : Text → Text → Bool
text_eq [] [] = true
text_eq [] (_ ∷ _) = false
text_eq (_ ∷ _) [] = false
text_eq (a ∷ s) (b ∷ t) = a == b && text_eq s t

pub text_eq_iff : (s t : Text) → (text_eq s t ≡ true) ↔ (s ≡ t)
unfolding text_eq
text_eq_iff [] [] = ground arith
text_eq_iff [] (b ∷ t) = ground arith
text_eq_iff (a ∷ s) [] = ground arith
text_eq_iff (a ∷ s) (b ∷ t) = ground (arith, text_eq_iff s t)

-- `<` on strings compares their UTF-8 bytes, which orders them as their characters do.
unfoldable pub text_lt : Text → Text → Bool
text_lt _ [] = false
text_lt [] (_ ∷ _) = true
text_lt (a ∷ s) (b ∷ t) = ltb a b || (a == b && text_lt s t)

-- Of two different strings exactly one is less than the other.
pub text_lt_total : (s t : Text) → text_eq s t ≡ false → text_lt t s ≡ not (text_lt s t)
unfolding text_lt text_eq
text_lt_total [] [] h = ground arith
text_lt_total [] (b ∷ t) h = ground arith
text_lt_total (a ∷ s) [] h = ground arith
text_lt_total (a ∷ s) (b ∷ t) h = elim (Bool-cases (a == b)) [
  | inl e ↦ ground (arith, text_lt_total s t (ground arith))
  | inr e ↦ ground arith
]

-- `char::is_whitespace`: the Unicode property White_Space.
unfoldable pub is_whitespace : ℕ → Bool
is_whitespace c =
    (leb 9 c && leb c 13)
    || c == 0x20
    || c == 0x85
    || c == 0xa0
    || c == 0x1680
    || (leb 0x2000 c && leb c 0x200a)
    || c == 0x2028
    || c == 0x2029
    || c == 0x202f
    || c == 0x205f
    || c == 0x3000

-- The bytes that UTF-8 takes for one character, and `str::len`.
abbrev utf8_width : ℕ → ℕ
utf8_width c = if ltb c 0x80 then 1 else if ltb c 0x800 then 2 else if ltb c 0x10000 then 3 else 4

unfoldable pub byte_len : Text → ℕ
byte_len [] = 0
byte_len (c ∷ s) = utf8_width c + byte_len s

-- A character goes in front of the first piece.
unfoldable pub cons_piece : ℕ → List Text → List Text
cons_piece c [] = (c ∷ []) ∷ []
cons_piece c (w ∷ ws) = (c ∷ w) ∷ ws

-- `str::split(char::is_whitespace)`: the pieces between white space, empty ones included.
unfoldable pub split_pieces : Text → List Text
split_pieces [] = [] ∷ []
split_pieces (c ∷ s) =
    let rest = split_pieces s in if is_whitespace c then [] ∷ rest else cons_piece c rest

-- `str::split_whitespace`: the pieces that are not empty.
unfoldable pub split_whitespace : Text → List Text
unfolding split_pieces cons_piece is_whitespace
split_whitespace s = filter (λ w. not (is_empty w)) (split_pieces s)

-- `join(" ")`.
unfoldable pub join : List Text → Text
join [] = []
join (w ∷ []) = w
join (w ∷ v ∷ ws) = w ++ 0x20 ∷ join (v ∷ ws)
