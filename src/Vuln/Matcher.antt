-- ===== src/Vuln/Matcher.antt =====
-- The matching of an installed package to an advisory: internal/vuln/matcher.go. `none` stands for
-- a comparison of versions that does not end.
pub mod Laws
use ct_cve.Base.{
  Text, ℤ, codes, contains, has_prefix, to_lower, equal_fold, ◌==◌, ◌++◌, any, is_empty,
  is_negative, Bool, true, false, not, ◌&&◌, ◌||◌, if◌then◌else◌, Option, some, none, ◌>>=◌, List,
  [], ◌∷◌,
}
use ct_cve.Base.Utf8.{Unicode}
use ct_cve.Vuln.Types.{InventoryPackage, AffectedPackage, source_version_for_match}
use ct_cve.Vuln.Version.{one_of, compare_distro_version}

-- The reasons, which the source writes as texts.
pub data Reason : Type 0 where
  unsupported_source distro_mismatch distro_version_mismatch distro_codename_mismatch : Reason
  package_mismatch missing_installed_version listed_affected_version no_fixed_version : Reason
  below_vendor_fixed_evr below_fixed_version installed_is_fixed : Reason

abbrev rhel_names : List Text
rhel_names =
    codes "rhel"
    ∷ codes "redhat"
    ∷ codes "redhatenterpriseserver"
    ∷ codes "almalinux"
    ∷ codes "rocky"
    ∷ codes "centos"
    ∷ codes "ol"
    ∷ codes "oraclelinux"
    ∷ codes "miraclelinux"
    ∷ []

pub is_rhel_compatible_distro : InventoryPackage → Bool
unfolding one_of to_lower equal_fold
is_rhel_compatible_distro pkg =
    one_of (to_lower pkg.distro_id) rhel_names
    || any (λ like. equal_fold like (codes "rhel")) pkg.distro_id_like

pub distro_matches : InventoryPackage → AffectedPackage → Bool
unfolding equal_fold ◌==◌ is_rhel_compatible_distro
distro_matches pkg affected =
    if equal_fold pkg.distro_id affected.distro_id
    then true
    else if pkg.source == codes "rpm" && equal_fold affected.distro_id (codes "rhel")
    then is_rhel_compatible_distro pkg
    else false

pub distro_version_matches : InventoryPackage → AffectedPackage → Bool
unfolding equal_fold ◌==◌ is_rhel_compatible_distro contains has_prefix
distro_version_matches pkg affected =
    if affected.distro_version_id == pkg.distro_version_id
    then true
    else if pkg.source == codes "rpm"
        && equal_fold affected.distro_id (codes "rhel")
        && is_rhel_compatible_distro pkg
    then not (contains affected.distro_version_id b'.')
      && has_prefix pkg.distro_version_id (affected.distro_version_id ++ b'.' ∷ [])
    else false

pub supported_inventory_source : Text → Bool
unfolding one_of
supported_inventory_source source = one_of source (codes "dpkg" ∷ codes "rpm" ∷ codes "apk" ∷ [])

pub package_name_matches : InventoryPackage → AffectedPackage → Bool
unfolding ◌==◌
package_name_matches pkg affected =
    if is_empty affected.package_name
    then false
    else if not (is_empty pkg.source_name) && pkg.source_name == affected.package_name
    then true
    else if pkg.name == affected.package_name
    then true
    else not (is_empty affected.source_package_name)
      && pkg.source_name == affected.source_package_name

pub verdict : Text → ℤ → Bool × Reason
verdict source c =
    if is_negative c
    then (true, if source == codes "rpm" then below_vendor_fixed_evr else below_fixed_version)
    else (false, installed_is_fixed)

-- The end of `MatchPackage`, once the installed version is known.
pub match_version : Unicode → Text → Text → AffectedPackage → Option (Bool × Reason)
match_version u source installed affected =
    if is_empty installed
    then some (false, missing_installed_version)
    else if any (λ version. version == installed) affected.affected_versions
    then some (true, listed_affected_version)
    else if is_empty affected.fixed_version
    then some (false, no_fixed_version)
    else (compare_distro_version u source installed affected.fixed_version >>= λ c.
        some (verdict source c))

-- The tests before, each with the reason that it gives.
pub mismatch : InventoryPackage → AffectedPackage → Option Reason
mismatch pkg affected =
    if not (supported_inventory_source pkg.source)
    then some unsupported_source
    else if not (is_empty affected.distro_id) && not (distro_matches pkg affected)
    then some distro_mismatch
    else if not (is_empty affected.distro_version_id)
        && not (is_empty pkg.distro_version_id)
        && not (distro_version_matches pkg affected)
    then some distro_version_mismatch
    else if not (is_empty affected.distro_codename)
        && not (is_empty pkg.distro_codename)
        && not (affected.distro_codename == pkg.distro_codename)
    then some distro_codename_mismatch
    else if not (package_name_matches pkg affected)
    then some package_mismatch
    else none

pub unless_mismatch : Option Reason → Option (Bool × Reason) → Option (Bool × Reason)
unless_mismatch (some reason) rest = some (false, reason)
unless_mismatch none rest = rest

unfoldable pub match_package : Unicode → InventoryPackage → AffectedPackage → Option (Bool × Reason)
match_package u pkg affected =
    unless_mismatch (mismatch pkg affected)
      (match_version u pkg.source (source_version_for_match pkg affected) affected)

-- What a run on given values unfolds.
unfoldable pub matching : Unit {0}
unfolding match_package unless_mismatch mismatch match_version verdict supported_inventory_source
    distro_matches distro_version_matches package_name_matches source_version_for_match
    compare_distro_version ◌==◌
matching = tt
