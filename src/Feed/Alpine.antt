-- ===== src/Feed/Alpine.antt =====
-- The Alpine security database: `ParseAlpineSecDB` of internal/feed/distro.go, on the decoded JSON.
use ct_cve.Base.{
  Text, codes, trim_space, has_prefix, is_empty, not, ◌||◌, if◌then◌else◌, Option, some, none, List,
  [], ◌∷◌, ◌≡◌, subst, some_parts,
}
use ct_cve.Feed.Types.{
  CveRecord, AffectedEntry, FetchResult, new_record, no_package, severity_unknown,
  source_alpine_sec_db,
}
use ct_cve.Feed.Clean.{clean_fixed_version, trim_prefix, cve_prefix}
use ct_cve.Feed.Records.{put_record, add_affected, no_result}
use ct_cve.Feed.Records.Laws.{
  IsSound, with_records, put_record-IsSoundWith, added-IsSound, if-IsSound,
}

-- `secfixes` gives the CVE ids by the version that fixes them.
pub record AlpinePackage : Type 0 where
  pub name : Text
  pub secfixes : List (Text × List Text)

module _ (release repository : Text) where
  unfoldable pub alpine_affected : (name fixed_version cve_id : Text) → AffectedEntry
  alpine_affected name fixed_version cve_id = record {
    cve_id = cve_id;
    source = source_alpine_sec_db;
    affected = record no_package {
      distro_id = codes "alpine";
      distro_version_id = release;
      package_name = name;
      fixed_version = fixed_version;
    };
    repository = trim_space repository;
    severity = severity_unknown;
    package_state = [];
    metadata_json = [];
  }

  unfoldable pub alpine_record : Text → CveRecord
  alpine_record cve_id = new_record cve_id source_alpine_sec_db severity_unknown

  unfoldable pub alpine_cve : (name fixed_version cve_id : Text) → FetchResult → FetchResult
  unfolding has_prefix
  alpine_cve name fixed_version cve_id f =
      if is_empty cve_id || not (has_prefix cve_id cve_prefix)
      then f
      else add_affected (alpine_affected name fixed_version cve_id)
          (with_records (put_record (alpine_record cve_id) f.records) f)

  unfoldable pub alpine_cves : (name fixed_version : Text) → List Text → FetchResult → FetchResult
  alpine_cves name fixed_version [] f = f
  alpine_cves name fixed_version (cve_id ∷ cve_ids) f =
      alpine_cves name fixed_version cve_ids (alpine_cve name fixed_version (trim_space cve_id) f)

  unfoldable pub alpine_fixes : Text → List (Text × List Text) → FetchResult → FetchResult
  alpine_fixes name [] f = f
  alpine_fixes name ((raw, cve_ids) ∷ secfixes) f =
      let fixed_version = clean_fixed_version raw in
      alpine_fixes name secfixes
        (if is_empty fixed_version then f else alpine_cves name fixed_version cve_ids f)

  unfoldable pub alpine_packages : List AlpinePackage → FetchResult → FetchResult
  alpine_packages [] f = f
  alpine_packages (pkg ∷ packages) f =
      let name = trim_space pkg.name in
      alpine_packages packages (if is_empty name then f else alpine_fixes name pkg.secfixes f)

  alpine_cve-IsSound :
      (name fixed_version cve_id : Text) (f : FetchResult)
      → IsSound f
      → IsSound (alpine_cve name fixed_version cve_id f)
  unfolding alpine_cve alpine_affected alpine_record
  alpine_cve-IsSound name fixed_version cve_id f s =
      if-IsSound (is_empty cve_id || not (has_prefix cve_id cve_prefix)) f _ s (
        added-IsSound (alpine_affected name fixed_version cve_id)
          (with_records (put_record (alpine_record cve_id) f.records) f)
          (put_record-IsSoundWith (alpine_record cve_id) f s))

  alpine_cves-IsSound :
      (name fixed_version : Text) (cve_ids : List Text) (f : FetchResult)
      → IsSound f
      → IsSound (alpine_cves name fixed_version cve_ids f)
  unfolding alpine_cves
  alpine_cves-IsSound name fixed_version [] f s = s
  alpine_cves-IsSound name fixed_version (cve_id ∷ cve_ids) f s =
      alpine_cves-IsSound name fixed_version cve_ids _
        (alpine_cve-IsSound name fixed_version (trim_space cve_id) f s)

  alpine_fixes-IsSound :
      (name : Text) (secfixes : List (Text × List Text)) (f : FetchResult)
      → IsSound f
      → IsSound (alpine_fixes name secfixes f)
  unfolding alpine_fixes
  alpine_fixes-IsSound name [] f s = s
  alpine_fixes-IsSound name ((raw, cve_ids) ∷ secfixes) f s = alpine_fixes-IsSound name secfixes _ (
      if-IsSound (is_empty (clean_fixed_version raw)) f _ s
        (alpine_cves-IsSound name (clean_fixed_version raw) cve_ids f s))

  alpine_packages-IsSound :
      (packages : List AlpinePackage) (f : FetchResult)
      → IsSound f
      → IsSound (alpine_packages packages f)
  unfolding alpine_packages
  alpine_packages-IsSound [] f s = s
  alpine_packages-IsSound (pkg ∷ packages) f s = alpine_packages-IsSound packages _ (
      if-IsSound (is_empty (trim_space pkg.name)) f _ s
        (alpine_fixes-IsSound (trim_space pkg.name) pkg.secfixes f s))

-- `none` is an error of the decoder.
unfoldable pub parse_alpine_sec_db :
    Option (List AlpinePackage) → (release repository : Text) → Option FetchResult
parse_alpine_sec_db none release repository = none
parse_alpine_sec_db (some doc) release repository =
    some (alpine_packages (trim_prefix (trim_space release) (codes "v")) repository doc no_result)

-- Each affected package of the database has a record of its CVE, and no CVE has two.
pub parse_alpine_sec_db-IsSound :
    (doc : List AlpinePackage) (release repository : Text) (f : FetchResult)
    → parse_alpine_sec_db (some doc) release repository ≡ some f
    → IsSound f
unfolding parse_alpine_sec_db
parse_alpine_sec_db-IsSound doc release repository f h = subst IsSound (some_parts h) (
    alpine_packages-IsSound (trim_prefix (trim_space release) (codes "v")) repository doc no_result
      (tt, tt))
