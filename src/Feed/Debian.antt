-- ===== src/Feed/Debian.antt =====
-- The Debian security tracker: `ParseDebianTracker` of internal/feed/distro.go, on the decoded JSON.
use ct_cve.Base.{
  Text, codes, trim_space, if◌then◌else◌, Option, some, none, List, [], ◌∷◌, ◌≡◌, true, false, Bool,
  subst, some_parts,
}
use ct_cve.Feed.Types.{
  CveRecord, AffectedEntry, FetchResult, new_record, no_package, severity_unknown,
  source_debian_tracker,
}
use ct_cve.Feed.Clean.{clean_fixed_version, normalize_severity, debian_release_can_affect}
use ct_cve.Feed.Records.{add_record, add_affected, no_result}
use ct_cve.Feed.Records.Laws.{
  IsSound, IsSoundWith, with_records, add_record-IsSoundWith, add_affected-IsSoundWith,
}

pub record DebianRelease : Type 0 where
  pub status : Text
  pub fixed_version : Text
  pub urgency : Text

pub record DebianEntry : Type 0 where
  pub description : Text
  pub releases : List (Text × DebianRelease)

-- Packages by name, and in each the entries by CVE id.
abbrev pub DebianTracker : Type 0
DebianTracker = List (Text × List (Text × DebianEntry))

unfoldable pub debian_affected : (name cve_id codename : Text) → DebianRelease → AffectedEntry
debian_affected name cve_id codename rel = record {
  cve_id = cve_id;
  source = source_debian_tracker;
  affected = record no_package {
    distro_id = codes "debian";
    distro_codename = codename;
    package_name = name;
    fixed_version = clean_fixed_version rel.fixed_version;
  };
  repository = [];
  severity = normalize_severity rel.urgency;
  package_state = trim_space rel.status;
  metadata_json = [];
}

unfoldable pub debian_releases :
    (name cve_id : Text) → List (Text × DebianRelease) → FetchResult → FetchResult
debian_releases name cve_id [] f = f
debian_releases name cve_id ((codename, rel) ∷ releases) f = debian_releases name cve_id releases (
    if debian_release_can_affect rel.status rel.fixed_version
    then add_affected (debian_affected name cve_id codename rel) f
    else f)

unfoldable pub debian_record : Text → DebianEntry → CveRecord
debian_record cve_id entry = record (new_record cve_id source_debian_tracker severity_unknown) {
  description = trim_space entry.description;
}

unfoldable pub debian_entries : Text → List (Text × DebianEntry) → FetchResult → FetchResult
debian_entries name [] f = f
debian_entries name ((cve_id, entry) ∷ entries) f = debian_entries name entries (
    debian_releases name cve_id entry.releases
      (with_records (add_record (debian_record cve_id entry) f.records) f))

unfoldable pub debian_packages : DebianTracker → FetchResult → FetchResult
debian_packages [] f = f
debian_packages ((name, entries) ∷ packages) f =
    debian_packages packages (debian_entries name entries f)

-- `none` is an error of the decoder.
unfoldable pub parse_debian_tracker : Option DebianTracker → Option FetchResult
parse_debian_tracker none = none
parse_debian_tracker (some doc) = some (debian_packages doc no_result)

abbrev Releases : Type 0
Releases = List (Text × DebianRelease)

debian_release-IsSoundWith :
    (name cve_id codename : Text) (rel : DebianRelease) (f : FetchResult) (b : Bool)
    → IsSoundWith cve_id f
    → IsSoundWith cve_id
        (if b then add_affected (debian_affected name cve_id codename rel) f else f)
unfolding debian_affected
debian_release-IsSoundWith name cve_id codename rel f true s =
    add_affected-IsSoundWith (debian_affected name cve_id codename rel) f s
debian_release-IsSoundWith name cve_id codename rel f false s = s

debian_releases-IsSound :
    (name cve_id : Text) (releases : Releases) (f : FetchResult)
    → IsSoundWith cve_id f
    → IsSound (debian_releases name cve_id releases f)
unfolding debian_releases
debian_releases-IsSound name cve_id [] f (_, s) = s
debian_releases-IsSound name cve_id ((codename, rel) ∷ releases) f s =
    debian_releases-IsSound name cve_id releases _ (
      debian_release-IsSoundWith name cve_id codename rel f
        (debian_release_can_affect rel.status rel.fixed_version) s)

debian_entries-IsSound :
    (name : Text) (entries : List (Text × DebianEntry)) (f : FetchResult)
    → IsSound f
    → IsSound (debian_entries name entries f)
unfolding debian_entries debian_record
debian_entries-IsSound name [] f s = s
debian_entries-IsSound name ((cve_id, entry) ∷ entries) f s =
    debian_entries-IsSound name entries _ (
      debian_releases-IsSound name cve_id entry.releases _
        (add_record-IsSoundWith (debian_record cve_id entry) f s))

debian_packages-IsSound :
    (packages : DebianTracker) (f : FetchResult) → IsSound f → IsSound (debian_packages packages f)
unfolding debian_packages
debian_packages-IsSound [] f s = s
debian_packages-IsSound ((name, entries) ∷ packages) f s =
    debian_packages-IsSound packages _ (debian_entries-IsSound name entries f s)

-- Whatever the tracker says, each affected package has a record of its CVE, and no CVE has two.
pub parse_debian_tracker-IsSound :
    (doc : DebianTracker) (f : FetchResult) → parse_debian_tracker (some doc) ≡ some f → IsSound f
unfolding parse_debian_tracker
parse_debian_tracker-IsSound doc f h =
    subst IsSound (some_parts h) (debian_packages-IsSound doc no_result (tt, tt))
