-- ===== src/Vuln/Natural.antt =====
-- The comparison of runs of digits and of other characters: `compareNaturalVersion` of
-- internal/vuln/version.go, which also serves Alpine versions (`compareAlpineVersion`).
pub mod Loop
pub mod Order
use ct_cve.Base.{
  ℕ, zero, suc, ◌+◌, Text, ℤ, pos, sub_ℕ, text_compare, is_digit, is_zero, is_empty, length,
  take_while, drop, not, if◌then◌else◌, Bool, true, false, ◌&&◌, ◌||◌, [], ◌∷◌,
}
use ct_cve.Vuln.Numeric.{compare_numeric_strings}

unfoldable pub take_natural_part : Text → Bool → Text
unfolding take_while
take_natural_part s numeric = take_while (λ c. if numeric then is_digit c else not (is_digit c)) s

-- `unicode.IsDigit(rune(s[0]))`, asked only of a text that is not empty
abbrev pub starts_with_digit : Text → Bool
starts_with_digit [] = false
starts_with_digit (c ∷ _) = is_digit c

-- Two parts, each digits or none: as numbers if both are digits.
pub compare_parts : (a b : Text) → ℤ
unfolding take_natural_part text_compare compare_numeric_strings
compare_parts a b =
    let anum = starts_with_digit a in
    let bnum = starts_with_digit b in
    let as_ = take_natural_part a anum in
    let bs = take_natural_part b bnum in
    if anum && bnum then compare_numeric_strings as_ bs else text_compare as_ bs

-- What is left behind the first part.
pub behind_part : Text → Text
unfolding take_natural_part
behind_part s = drop (length (take_natural_part s (starts_with_digit s))) s

-- The loop, with fuel.
pub natural_rounds : ℕ → Text → Text → ℤ
unfolding compare_parts behind_part
natural_rounds zero a b = pos 0
natural_rounds (suc fuel) a b =
    let c = compare_parts a b in
    let rest = natural_rounds fuel (behind_part a) (behind_part b) in
    if is_empty a && is_empty b
    then pos 0
    else if is_empty a || is_empty b
    then sub_ℕ (length a) (length b)
    else if is_zero c
    then rest
    else c

unfoldable pub compare_natural_version : Text → Text → ℤ
unfolding natural_rounds
compare_natural_version a b = natural_rounds (length a + length b) a b

unfoldable pub compare_alpine_version : Text → Text → ℤ
unfolding compare_natural_version
compare_alpine_version a b = compare_natural_version a b
