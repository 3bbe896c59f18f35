-- ===== src/Vuln/Types.antt =====
-- Packages and advisories: internal/vuln/types.go. Fields that the matching does not read are left
-- out.
use ct_cve.Base.{Text, codes, contains, ◌==◌, is_empty, not, ◌&&◌, ◌||◌, if◌then◌else◌, List}

pub record InventoryPackage : Type 0 where
  pub name : Text
  pub version : Text
  pub source : Text
  pub distro_id : Text
  pub distro_id_like : List Text
  pub distro_version_id : Text
  pub distro_codename : Text
  pub source_name : Text
  pub source_version : Text

pub record AffectedPackage : Type 0 where
  pub distro_id : Text
  pub distro_version_id : Text
  pub distro_codename : Text
  pub package_name : Text
  pub source_package_name : Text
  pub fixed_version : Text
  pub affected_versions : List Text

-- The installed version, where the version of the source package lacks an epoch or a release that
-- the installed version has.
unfoldable pub best_rpm_version_for_match : Text → Text → Text
unfolding contains
best_rpm_version_for_match installed_version source_version =
    let source_has_epoch = contains source_version b':' in
    let installed_has_epoch = contains installed_version b':' in
    let source_has_release = contains source_version b'-' in
    let installed_has_release = contains installed_version b'-' in
    if is_empty source_version
    then installed_version
    else if is_empty installed_version
    then source_version
    else if (not source_has_release && installed_has_release)
        || (not source_has_epoch && installed_has_epoch)
    then installed_version
    else source_version

unfoldable pub source_version_for_match : InventoryPackage → AffectedPackage → Text
unfolding best_rpm_version_for_match ◌==◌
source_version_for_match pkg affected =
    if not (is_empty pkg.source_name)
      && pkg.source_name == affected.package_name
      && not (is_empty pkg.source_version)
    then if pkg.source == codes "rpm"
      then best_rpm_version_for_match pkg.version pkg.source_version
      else pkg.source_version
    else pkg.version
