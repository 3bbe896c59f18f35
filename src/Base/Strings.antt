-- ===== src/Base/Strings.antt =====
-- Go strings as lists of bytes, with the functions of the packages strings and strconv that the
-- program calls. `trim_space`, `to_lower` and `equal_fold` read each byte as a character, which is
-- what Go does on ASCII text.
use Prim.Native.Nat.{ℕ, ◌+◌, ◌-◌, ◌*◌, ◌^◌, ◌<◌}
use Prim.Native.Char.{code}
use Prim.Native.String.{String}
use mathlib.Core.Path.{◌≡◌, refl}
use mathlib.Core.Logic.{◌↔◌, inl, inr}
use mathlib.Core.Bool.{Bool, true, false, ◌&&◌, ◌||◌}
use mathlib.Core.Option.{Option, none, some}
use mathlib.Core.List.{List, [], ◌∷◌, map, reverse}
use native.Mathlib.Omega.{arith}
use ct_cve.Base.Tests.{leb, ltb, nat_eq, if◌then◌else◌, Bool-cases}
use ct_cve.Base.Int.{ℤ, pos, negsuc, neg}
use ct_cve.Base.Lists.{any, All}

abbrev pub Text : Type 0
Text = List ℕ

-- The code points of a literal; these are its bytes when the literal is ASCII.
abbrev pub codes : String → Text
codes String.[] = []
codes (String.◌∷◌ c s) = code c ∷ codes s

abbrev pub IsAscii : Text → Type 0
IsAscii = All (λ c. c < 0x80)

infix 50 ◌==◌
unfoldable pub ◌==◌ : Text → Text → Bool
[] == [] = true
[] == (_ ∷ _) = false
(_ ∷ _) == [] = false
(x ∷ xs) == (y ∷ ys) = nat_eq x y && xs == ys

pub eq_sound : (a b : Text) → (a == b) ≡ true → a ≡ b
unfolding ◌==◌
eq_sound [] [] h = refl
eq_sound [] (_ ∷ _) h = cc
eq_sound (_ ∷ _) [] h = cc
eq_sound (x ∷ xs) (y ∷ ys) h = ground (arith, eq_sound xs ys)

pub eq_refl : (a : Text) → (a == a) ≡ true
unfolding ◌==◌
eq_refl [] = refl
eq_refl (x ∷ xs) = ground (arith, eq_refl xs)

pub eq_iff : (a b : Text) → ((a == b) ≡ true) ↔ (a ≡ b)
eq_iff a b = (eq_sound a b, λ e. let h = eq_refl a in ground (arith, h))

pub eq_sym_false : (a b : Text) → (a == b) ≡ false → (b == a) ≡ false
eq_sym_false a b h = elim (Bool-cases (b == a)) [
  | inl e ↦ let f = eq_iff a b in let g = eq_sound b a e in ground arith
  | inr e ↦ e
]

-- unicode.IsDigit of a byte.
abbrev pub is_digit : ℕ → Bool
is_digit c = leb b'0' c && leb c b'9'

-- strings.Compare.
unfoldable pub text_compare : Text → Text → ℤ
text_compare [] [] = pos 0
text_compare [] (_ ∷ _) = negsuc 0
text_compare (_ ∷ _) [] = pos 1
text_compare (x ∷ xs) (y ∷ ys) =
    if ltb x y then negsuc 0 else if ltb y x then pos 1 else text_compare xs ys

-- The longest prefix, and what follows it, whose bytes pass the test.
unfoldable pub take_while : (ℕ → Bool) → Text → Text
take_while p [] = []
take_while p (c ∷ s) = if p c then c ∷ take_while p s else []

unfoldable pub drop_while : (ℕ → Bool) → Text → Text
drop_while p [] = []
drop_while p (c ∷ s) = if p c then drop_while p s else c ∷ s

-- strings.Cut at a single byte: `none` where the byte is not found.
abbrev pub prepend : ℕ → Option (Text × Text) → Option (Text × Text)
prepend c none = none
prepend c (some (before, after)) = some (c ∷ before, after)

unfoldable pub cut : Text → ℕ → Option (Text × Text)
cut [] sep = none
cut (c ∷ s) sep = let later = prepend c (cut s sep) in if nat_eq c sep then some ([], s) else later

-- The text before and behind the last occurrence of a byte (strings.LastIndex and two slices).
unfoldable pub cut_last : Text → ℕ → Option (Text × Text)
cut_last [] sep = none
cut_last (c ∷ s) sep = elim (cut_last s sep) [
  | some (before, after) ↦ some (c ∷ before, after)
  | none ↦ if nat_eq c sep then some ([], s) else none
]

-- strings.Contains of a single byte.
unfoldable pub contains : Text → ℕ → Bool
contains s c = any (nat_eq c) s

unfoldable pub has_prefix : Text → Text → Bool
has_prefix s [] = true
has_prefix [] (_ ∷ _) = false
has_prefix (c ∷ s) (p ∷ ps) = nat_eq c p && has_prefix s ps

abbrev lower : ℕ → ℕ
lower c = if leb b'A' c && leb c b'Z' then c + 32 else c

unfoldable pub to_lower : Text → Text
to_lower = map lower

unfoldable pub equal_fold : Text → Text → Bool
unfolding to_lower ◌==◌
equal_fold a b = to_lower a == to_lower b

abbrev pub is_space : ℕ → Bool
is_space c = (leb 9 c && leb c 13) || nat_eq c 32

unfoldable pub trim_space : Text → Text
unfolding drop_while
trim_space s = reverse (drop_while is_space (reverse (drop_while is_space s)))

parse_digits : ℕ → Text → Option ℕ
parse_digits n [] = some n
parse_digits n (c ∷ s) =
    let rest = parse_digits (n * 10 + (c - b'0')) s in if is_digit c then rest else none

-- The digits behind an optional sign, of which there must be one.
magnitude : Text → Option ℕ
unfolding parse_digits
magnitude [] = none
magnitude (c ∷ s) = parse_digits 0 (c ∷ s)

-- Each sign has its own bound.
signed : Bool → Option ℕ → Option ℤ
signed minus none = none
signed true (some n) = if leb n (2 ^ 63) then some (neg (pos n)) else none
signed false (some n) = if ltb n (2 ^ 63) then some (pos n) else none

-- strconv.Atoi; `none` stands for its error.
unfoldable pub atoi : Text → Option ℤ
unfolding magnitude signed
atoi [] = none
atoi (c ∷ s) =
    if nat_eq c b'-'
    then signed true (magnitude s)
    else if nat_eq c b'+'
    then signed false (magnitude s)
    else signed false (magnitude (c ∷ s))
