-- ===== src/Vuln/Version.antt =====
-- `CompareDistroVersion` of internal/vuln/version.go: the comparison that a package source wants.
-- `none` stands for a comparison that does not end.
pub mod Order
pub mod Epoch
use ct_cve.Base.{
  zero, suc, Text, codes, ◌==◌, ℤ, pos, negsuc, any, if◌then◌else◌, Bool, Option, some, none, List,
  [], ◌∷◌, ◌>>=◌,
}
use ct_cve.Base.Utf8.{Unicode}
use ct_cve.Vuln.Debian.{compare_debian_version}
use ct_cve.Vuln.Rpm.{compare_rpm_version}
use ct_cve.Vuln.Natural.{compare_natural_version, compare_alpine_version}

unfoldable pub normalize_compare : ℤ → ℤ
normalize_compare (negsuc _) = negsuc 0
normalize_compare (pos (suc _)) = pos 1
normalize_compare (pos zero) = pos 0

-- One `case` of a switch on a string.
unfoldable pub one_of : Text → List Text → Bool
unfolding ◌==◌
one_of s cases = any (λ c. s == c) cases

abbrev pub debian_sources : List Text
debian_sources = codes "dpkg" ∷ codes "apt" ∷ codes "ubuntu" ∷ codes "debian" ∷ []

abbrev pub rpm_sources : List Text
rpm_sources =
    codes "rpm"
    ∷ codes "dnf"
    ∷ codes "yum"
    ∷ codes "redhat"
    ∷ codes "rhel"
    ∷ codes "fedora"
    ∷ codes "centos"
    ∷ []

abbrev pub alpine_sources : List Text
alpine_sources = codes "apk" ∷ codes "alpine" ∷ []

unfoldable pub compare_distro_version : Unicode → Text → Text → Text → Option ℤ
unfolding normalize_compare one_of compare_debian_version compare_rpm_version
    compare_natural_version compare_alpine_version
compare_distro_version u source a b =
    if one_of source debian_sources
    then some (normalize_compare (compare_debian_version a b))
    else if one_of source rpm_sources
    then (compare_rpm_version u a b >>= λ c. some (normalize_compare c))
    else if one_of source alpine_sources
    then some (normalize_compare (compare_alpine_version a b))
    else some (normalize_compare (compare_natural_version a b))
