-- ===== src/Feed/RedHat.antt =====
-- The advisories of Red Hat: `ParseRedHatCSAFList` of internal/feed/distro.go, on the decoded JSON.
pub mod Laws
use ct_cve.Base.{
  Text, codes, ◌≡◌, refl, subst, some_parts, is_empty, if◌then◌else◌, Bool, true, false, Option,
  some, none, List, [], ◌∷◌, All,
}
use ct_cve.CtOps.Time.{Time}
use ct_cve.Feed.Types.{
  Severity, CveRecord, AffectedEntry, FetchResult, new_record, no_package,
  source_red_hat_security_data,
}
use ct_cve.Feed.Clean.{
  normalize_severity, unique_non_empty_strings, split_red_hat_fixed_package,
  red_hat_version_from_fixed_evr,
}
use ct_cve.Feed.Records.{add_affected, add_record, no_result, has_record}
use ct_cve.Feed.Records.Laws.{
  IsSound, IsSoundWith, with_records, add_record-IsSoundWith, add_record-has_record,
  add_affected-IsSound, add_record-IsSound,
}
use ct_cve.Feed.Ubuntu.{parse_time}

pub record RedHatRow : Type 0 where
  pub rhsa : Text
  pub severity : Text
  pub released_on : Text
  pub cves : List Text
  pub released_packages : List Text
  pub resource_url : Text

-- time.Parse with RFC3339, and json.Marshal of a map, given its entries.
pub record RedHatLibrary : Type 0 where
  pub parse_rfc3339 : Text → Option Time
  pub encode_metadata : List (Text × Text) → Text

module _ (lib : RedHatLibrary) (row : RedHatRow) where
  unfoldable pub red_hat_record : Text → CveRecord
  unfolding parse_time
  red_hat_record cve_id =
      let released_at = parse_time lib.parse_rfc3339 row.released_on in
      record (new_record cve_id source_red_hat_security_data (normalize_severity row.severity)) {
        published_at = released_at;
        modified_at = released_at;
      }

  unfoldable pub red_hat_records : List Text → FetchResult → FetchResult
  red_hat_records [] f = f
  red_hat_records (cve_id ∷ cve_ids) f =
      red_hat_records cve_ids (with_records (add_record (red_hat_record cve_id) f.records) f)

  unfoldable pub red_hat_entry : (pkg name fixed distro_version cve_id : Text) → AffectedEntry
  red_hat_entry pkg name fixed distro_version cve_id = record {
    cve_id = cve_id;
    source = source_red_hat_security_data;
    affected = record no_package {
      distro_id = codes "rhel";
      distro_version_id = distro_version;
      package_name = name;
      fixed_version = fixed;
    };
    repository = [];
    severity = normalize_severity row.severity;
    package_state = codes "fixed";
    metadata_json = lib.encode_metadata (
        (codes "advisory", row.rhsa)
        ∷ (codes "released_on", row.released_on)
        ∷ (codes "package", pkg)
        ∷ (codes "resource_url", row.resource_url)
        ∷ (codes "source", codes "csaf")
        ∷ []);
  }

  unfoldable pub red_hat_entries :
      (pkg name fixed distro_version : Text) → List Text → FetchResult → FetchResult
  red_hat_entries pkg name fixed distro_version [] f = f
  red_hat_entries pkg name fixed distro_version (cve_id ∷ cve_ids) f =
      red_hat_entries pkg name fixed distro_version cve_ids
        (add_affected (red_hat_entry pkg name fixed distro_version cve_id) f)

  -- A package that is no name with a version of a release of RHEL is left out.
  unfoldable pub red_hat_package :
      List Text → Text → Option (Text × Text) → FetchResult → FetchResult
  red_hat_package cve_ids pkg none f = f
  red_hat_package cve_ids pkg (some (name, fixed)) f =
      let distro_version = red_hat_version_from_fixed_evr fixed in
      if is_empty distro_version then f else red_hat_entries pkg name fixed distro_version cve_ids f

  unfoldable pub red_hat_packages : List Text → List Text → FetchResult → FetchResult
  red_hat_packages cve_ids [] f = f
  red_hat_packages cve_ids (pkg ∷ packages) f =
      red_hat_packages cve_ids packages
        (red_hat_package cve_ids pkg (split_red_hat_fixed_package pkg) f)

  -- The row's own ids; without any the row is left out.
  unfoldable pub red_hat_row : List Text → FetchResult → FetchResult
  red_hat_row cve_ids f =
      if is_empty cve_ids
      then f
      else red_hat_packages cve_ids row.released_packages (red_hat_records cve_ids f)

unfoldable pub red_hat_rows : RedHatLibrary → List RedHatRow → FetchResult → FetchResult
red_hat_rows lib [] f = f
red_hat_rows lib (row ∷ rows) f =
    red_hat_rows lib rows (red_hat_row lib row (unique_non_empty_strings row.cves) f)

-- `none` is an error of the decoder.
unfoldable pub parse_red_hat_csaf_list :
    RedHatLibrary → Option (List RedHatRow) → Option FetchResult
parse_red_hat_csaf_list lib none = none
parse_red_hat_csaf_list lib (some rows) = some (red_hat_rows lib rows no_result)
