-- ===== src/Vuln/Numeric.antt =====
-- The comparison of runs of digits that every version comparison ends in: `takeDigits` and
-- `compareNumericStrings` of internal/vuln/version.go.
pub mod Order
pub mod Value
use ct_cve.Base.{
  ℕ, Text, ℤ, sub_ℕ, text_compare, nat_eq, is_digit, is_empty, length, take_while, drop_while,
  if◌then◌else◌, [], ◌∷◌,
}

unfoldable pub take_digits : Text → Text
unfolding take_while
take_digits s = take_while is_digit s

-- strings.TrimLeft(s, "0"), and "0" for what is then empty
unfoldable pub without_zeros : Text → Text
unfolding drop_while
without_zeros s =
    let rest = drop_while (λ c. nat_eq c b'0') s in if is_empty rest then b'0' ∷ [] else rest

unfoldable pub compare_numeric_strings : Text → Text → ℤ
unfolding text_compare without_zeros
compare_numeric_strings a b =
    let a' = without_zeros a in
    let b' = without_zeros b in
    if nat_eq (length a') (length b') then text_compare a' b' else sub_ℕ (length a') (length b')
