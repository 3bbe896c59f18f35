-- ===== src/Base/Utf8.antt =====
-- The decoding of a string's characters that Go's `range` and package strings make, and the tests
-- of package unicode. Go's tables for characters above Latin-1 are a parameter.
use Prim.Native.Nat.{ℕ, zero, suc, ◌+◌, ◌-◌, ◌*◌}
use mathlib.Core.Bool.{Bool, ◌&&◌, ◌||◌}
use mathlib.Core.List.{[], ◌∷◌}
use ct_cve.Base.Tests.{leb, ltb, nat_eq, if◌then◌else◌}
use ct_cve.Base.Strings.{Text, is_digit}

-- unicode.IsDigit and unicode.IsLetter at the characters above U+00FF.
pub record Unicode : Type 0 where
  pub wide_digit : ℕ → Bool
  pub wide_letter : ℕ → Bool

-- unicode.IsLetter up to U+00FF.
abbrev pub is_latin_letter : ℕ → Bool
is_latin_letter c =
    (leb b'A' c && leb c b'Z')
    || (leb b'a' c && leb c b'z')
    || nat_eq c 0xaa
    || nat_eq c 0xb5
    || nat_eq c 0xba
    || (leb 0xc0 c && leb c 0xd6)
    || (leb 0xd8 c && leb c 0xf6)
    || (leb 0xf8 c && leb c 0xff)

module _ (u : Unicode) where
  abbrev pub is_digit_rune : ℕ → Bool
  is_digit_rune r = if leb r 0xff then is_digit r else u.wide_digit r

  abbrev pub is_letter_rune : ℕ → Bool
  is_letter_rune r = if leb r 0xff then is_latin_letter r else u.wide_letter r

-- A decoded character, and the number of bytes behind the first that belong to it.
pub record Rune : Type 0 where
  pub rune : ℕ
  pub more : ℕ

-- utf8.RuneError, of one byte.
abbrev bad_rune : Rune
bad_rune = record { rune = 0xfffd; more = 0 }

abbrev is_continuation : ℕ → Bool
is_continuation c = leb 0x80 c && leb c 0xbf

-- The bytes that may follow a first byte of a character of three or four bytes.
abbrev may_follow : ℕ → ℕ → Bool
may_follow c d =
    if nat_eq c 0xe0
    then leb 0xa0 d && leb d 0xbf
    else if nat_eq c 0xed
    then leb 0x80 d && leb d 0x9f
    else if nat_eq c 0xf0
    then leb 0x90 d && leb d 0xbf
    else if nat_eq c 0xf4
    then leb 0x80 d && leb d 0x8f
    else is_continuation d

decode_two : ℕ → Text → Rune
decode_two c [] = bad_rune
decode_two c (d ∷ _) =
    if is_continuation d then record { rune = (c - 0xc0) * 64 + (d - 0x80); more = 1 } else bad_rune

decode_three : ℕ → Text → Rune
decode_three c (d ∷ e ∷ _) =
    if may_follow c d && is_continuation e
    then record { rune = (c - 0xe0) * 4096 + (d - 0x80) * 64 + (e - 0x80); more = 2 }
    else bad_rune
decode_three c _ = bad_rune

decode_four : ℕ → Text → Rune
decode_four c (d ∷ e ∷ f ∷ _) =
    if may_follow c d && is_continuation e && is_continuation f
    then record {
      rune = (c - 0xf0) * 262144 + (d - 0x80) * 4096 + (e - 0x80) * 64 + (f - 0x80);
      more = 3;
    }
    else bad_rune
decode_four c _ = bad_rune

-- utf8.DecodeRuneInString of a text that begins with `c`.
unfoldable pub decode_rune : ℕ → Text → Rune
unfolding decode_two decode_three decode_four
decode_rune c s =
    if ltb c 0x80
    then record { rune = c; more = 0 }
    else if leb 0xc2 c && leb c 0xdf
    then decode_two c s
    else if leb 0xe0 c && leb c 0xef
    then decode_three c s
    else if leb 0xf0 c && leb c 0xf4
    then decode_four c s
    else bad_rune

-- strings.TrimLeftFunc. The first argument counts the bytes of a trimmed character still to skip.
unfoldable pub trim_from : (ℕ → Bool) → ℕ → Text → Text
unfolding decode_rune
trim_from f n [] = []
trim_from f (suc n) (c ∷ s) = trim_from f n s
trim_from f zero (c ∷ s) =
    let r = decode_rune c s in let rest = trim_from f r.more s in if f r.rune then rest else c ∷ s

unfoldable pub trim_left_func : Text → (ℕ → Bool) → Text
unfolding trim_from
trim_left_func s f = trim_from f 0 s
