-- ===== src/Feed/Clean.antt =====
-- The small functions on texts of internal/feed/distro.go and internal/feed/nvd.go.
pub mod Laws
use ct_cve.Base.{
  ℕ, Text, codes, ◌==◌, ◌++◌, is_empty, is_digit, trim_space, to_lower, equal_fold, has_prefix,
  cut_last, contains, take_while, drop_while, length, drop, take, leb, nat_eq, ◌-◌, ◌+◌, Bool, true,
  false, not, ◌&&◌, ◌||◌, any, if◌then◌else◌, Option, some, none, List, [], ◌∷◌,
}
use ct_cve.Feed.Types.{
  Severity, severity_critical, severity_high, severity_medium, severity_low, severity_none,
  severity_unknown,
}

-- The text is one of the texts.
unfoldable pub one_of : Text → List Text → Bool
unfolding ◌==◌
one_of text = any (λ t. t == text)

unfoldable pub severity_word : Text → Severity
unfolding ◌==◌ one_of
severity_word word =
    if word == codes "critical"
    then severity_critical
    else if one_of word (codes "high" ∷ codes "important" ∷ [])
    then severity_high
    else if one_of word (codes "medium" ∷ codes "moderate" ∷ [])
    then severity_medium
    else if word == codes "low"
    then severity_low
    else if one_of word (codes "none" ∷ codes "negligible" ∷ [])
    then severity_none
    else severity_unknown

unfoldable pub normalize_severity : Text → Severity
unfolding to_lower trim_space
normalize_severity value = severity_word (to_lower (trim_space value))

unfoldable pub starts_with_less : Text → Bool
starts_with_less [] = false
starts_with_less (c ∷ _) = nat_eq c b'<'

unfoldable pub clean_fixed_version : Text → Text
unfolding trim_space ◌==◌ starts_with_less
clean_fixed_version raw =
    let value = trim_space raw in
    if is_empty value || value == codes "0" || starts_with_less value then [] else value

unfoldable pub debian_release_can_affect : (status fixed : Text) → Bool
unfolding trim_space to_lower ◌==◌ starts_with_less
debian_release_can_affect raw_status raw_fixed =
    let status = to_lower (trim_space raw_status) in
    let fixed = trim_space raw_fixed in
    if status == codes "not-affected" || status == codes "undetermined"
    then false
    else not (is_empty fixed) && not (starts_with_less fixed)

abbrev pub cve_prefix : Text
cve_prefix = codes "CVE-"

unfoldable pub first_cve : List Text → Text
unfolding trim_space has_prefix
first_cve [] = []
first_cve (raw ∷ values) =
    let rest = first_cve values in
    let value = trim_space raw in if has_prefix value cve_prefix then value else rest

-- strings.TrimPrefix and strings.TrimSuffix
unfoldable pub trim_prefix : Text → Text → Text
unfolding has_prefix
trim_prefix s prefix = if has_prefix s prefix then drop (length prefix) s else s

unfoldable pub trim_suffix : Text → Text → Text
unfolding ◌==◌
trim_suffix s suffix =
    let before = length s - length suffix in
    if leb (length suffix) (length s) && drop before s == suffix then take before s else s

-- `seen` holds what was added before.
unfoldable pub unique_from : List Text → List Text → List Text
unfolding trim_space one_of
unique_from seen [] = []
unique_from seen (raw ∷ values) =
    let value = trim_space raw in
    let skip = is_empty value || one_of value seen in
    let rest = unique_from (if skip then seen else value ∷ seen) values in
    if skip then rest else value ∷ rest

unfoldable pub unique_non_empty_strings : List Text → List Text
unfolding unique_from
unique_non_empty_strings = unique_from []

abbrev rpm_architectures : List Text
rpm_architectures =
    codes "aarch64"
    ∷ codes "i386"
    ∷ codes "i486"
    ∷ codes "i586"
    ∷ codes "i686"
    ∷ codes "noarch"
    ∷ codes "ppc64le"
    ∷ codes "s390x"
    ∷ codes "src"
    ∷ codes "x86_64"
    ∷ []

-- Both parts around the last dot are non-empty where the text is cut.
unfoldable pub strip_rpm_architecture : Text → Text
unfolding one_of
strip_rpm_architecture value = elim (cut_last value b'.') [
  | none ↦ value
  | some (before, after) ↦
      if is_empty before || is_empty after
      then value
      else if one_of after rpm_architectures
      then before
      else value
]

unfoldable pub package_file_stem : Text → Text
unfolding trim_space trim_suffix strip_rpm_architecture
package_file_stem raw =
    strip_rpm_architecture
      (trim_suffix (trim_suffix (trim_space raw) (codes ".src.rpm")) (codes ".rpm"))

-- The two parts around the last dash, neither of them empty.
abbrev pub both_parts : Option (Text × Text) → Option (Text × Text)
both_parts none = none
both_parts (some (before, after)) =
    if is_empty before || is_empty after then none else some (before, after)

unfoldable pub at_dash : Text → Option (Text × Text)
at_dash value = both_parts (cut_last value b'-')

-- `none` stands for two empty texts.
unfoldable pub name_and_version : Text → Option (Text × Text) → Option (Text × Text)
unfolding trim_space
name_and_version release none = none
name_and_version release (some (raw_name, raw_version)) =
    let name = trim_space raw_name in
    let version = trim_space raw_version in
    if is_empty name || is_empty version then none else some (name, version ++ b'-' ∷ release)

unfoldable pub split_stem : Option (Text × Text) → Option (Text × Text)
unfolding name_and_version at_dash
split_stem none = none
split_stem (some (before, release)) = name_and_version release (at_dash before)

unfoldable pub split_red_hat_fixed_package : Text → Option (Text × Text)
unfolding package_file_stem at_dash split_stem
split_red_hat_fixed_package value = split_stem (at_dash (package_file_stem value))

abbrev is_separator : ℕ → Bool
is_separator c = nat_eq c b'.' || nat_eq c b'_' || nat_eq c b'-'

unfoldable pub ends_number : Text → Bool
ends_number [] = true
ends_number (c ∷ _) = is_separator c

-- `el([0-9]+)(?:[._-]|$)` at the beginning of the text. The digits are the longest run, as a digit
-- is no separator.
unfoldable pub el_number : Text → Option Text
unfolding take_while drop_while has_prefix ends_number
el_number s =
    let rest = drop 2 s in
    let digits = take_while is_digit rest in
    if has_prefix s (codes "el") && not (is_empty digits) && ends_number (drop_while is_digit rest)
    then some digits
    else none

-- Behind the first separator that the pattern fits.
unfoldable pub el_behind_separator : Text → Option Text
el_behind_separator [] = none
el_behind_separator (c ∷ s) =
    let later = el_behind_separator s in
    elim (if is_separator c then el_number s else none) [ some n ↦ some n | none ↦ later ]

-- The first match of rpmELVersionPattern; empty where there is none.
unfoldable pub red_hat_version_from_fixed_evr : Text → Text
unfolding el_number el_behind_separator
red_hat_version_from_fixed_evr fixed = elim (el_number fixed) [
  | some n ↦ n
  | none ↦ elim (el_behind_separator fixed) [ some n ↦ n | none ↦ [] ]
]
