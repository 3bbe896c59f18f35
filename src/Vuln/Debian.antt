-- ===== src/Vuln/Debian.antt =====
-- The comparison of Debian versions: `compareDebianVersion` of internal/vuln/version.go and the
-- functions that it calls.
pub mod Loop
pub mod Order
pub mod Epoch
use ct_cve.Base.{
  ℕ, zero, suc, ◌+◌, Text, ℤ, pos, negsuc, ◌-ℤ◌, wrap64, atoi, cut, cut_last, is_digit, is_zero,
  is_empty, length, take_while, drop, leb, nat_eq, not, if◌then◌else◌, Bool, ◌&&◌, ◌||◌, Option,
  some, none, [], ◌∷◌,
}
use ct_cve.Base.Utf8.{is_latin_letter}
use ct_cve.Vuln.Numeric.{take_digits, compare_numeric_strings}

unfoldable pub take_debian_non_digit : Text → Text
unfolding take_while
take_debian_non_digit s = take_while (λ c. not (is_digit c)) s

-- A byte stands for a Latin-1 character here.
unfoldable pub debian_order_char : Text → ℤ
debian_order_char [] = pos 0
debian_order_char (c ∷ _) =
    if nat_eq c b'~' then negsuc 0 else if is_latin_letter c then pos c else pos (c + 256)

-- One character is taken off each side that has one, until both are empty.
unfoldable pub debian_lex_compare : Text → Text → ℤ
unfolding debian_order_char ◌-ℤ◌
debian_lex_compare [] [] = pos 0
debian_lex_compare (x ∷ xs) [] =
    let c = debian_order_char (x ∷ xs) -ℤ debian_order_char [] in
    let rest = debian_lex_compare xs [] in if is_zero c then rest else c
debian_lex_compare [] (y ∷ ys) =
    let c = debian_order_char [] -ℤ debian_order_char (y ∷ ys) in
    let rest = debian_lex_compare [] ys in if is_zero c then rest else c
debian_lex_compare (x ∷ xs) (y ∷ ys) =
    let c = debian_order_char (x ∷ xs) -ℤ debian_order_char (y ∷ ys) in
    let rest = debian_lex_compare xs ys in if is_zero c then rest else c

-- The loop of `debianPartCompare` with fuel: each round takes the leading characters that are no
-- digits off both sides, and then the leading digits.
pub debian_rounds : ℕ → Text → Text → ℤ
unfolding debian_lex_compare compare_numeric_strings take_debian_non_digit take_digits
debian_rounds zero a b = pos 0
debian_rounds (suc fuel) a b =
    let an = take_debian_non_digit a in
    let bn = take_debian_non_digit b in
    let a' = drop (length an) a in
    let b' = drop (length bn) b in
    let ad = take_digits a' in
    let bd = take_digits b' in
    let c = debian_lex_compare an bn in
    let d = compare_numeric_strings ad bd in
    let rest = debian_rounds fuel (drop (length ad) a') (drop (length bd) b') in
    if is_empty a && is_empty b
    then pos 0
    else if is_zero c
    then if is_zero d then rest else d
    else c

unfoldable pub debian_part_compare : Text → Text → ℤ
unfolding debian_rounds
debian_part_compare a b = debian_rounds (length a + length b) a b

pub record DebianVersion : Type 0 where
  pub epoch : ℤ
  pub upstream : Text
  pub revision : Text

-- What stands before the first ":" is the epoch if it is an integer, and else part of the version.
unfoldable pub with_epoch : Text → Text → Option ℤ → ℤ × Text
with_epoch v after none = (pos 0, v)
with_epoch v after (some parsed) = (parsed, after)

unfoldable pub after_cut : Text → Option (Text × Text) → ℤ × Text
unfolding with_epoch atoi
after_cut v none = (pos 0, v)
after_cut v (some (before, after)) = with_epoch v after (atoi before)

unfoldable pub split_epoch : Text → ℤ × Text
unfolding after_cut cut
split_epoch v = after_cut v (cut v b':')

pub at_last_dash : ℤ → Text → Option (Text × Text) → DebianVersion
at_last_dash epoch v none = record { epoch = epoch; upstream = v; revision = [] }
at_last_dash epoch v (some (upstream, revision)) = record {
  epoch = epoch;
  upstream = upstream;
  revision = revision;
}

unfoldable pub split_debian_version : Text → DebianVersion
unfolding split_epoch at_last_dash cut_last
split_debian_version v =
    let (epoch, rest) = split_epoch v in at_last_dash epoch rest (cut_last rest b'-')

-- The difference of two epochs, as Go computes it, in 64 bits.
unfoldable pub compare_split : DebianVersion → DebianVersion → ℤ
unfolding debian_part_compare wrap64 ◌-ℤ◌
compare_split a b =
    let e = a.epoch -ℤ b.epoch in
    let u = debian_part_compare a.upstream b.upstream in
    let r = debian_part_compare a.revision b.revision in
    if is_zero e then if is_zero u then r else u else wrap64 e

unfoldable pub compare_debian_version : Text → Text → ℤ
unfolding compare_split split_debian_version
compare_debian_version a b = compare_split (split_debian_version a) (split_debian_version b)
