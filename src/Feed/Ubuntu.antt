-- ===== src/Feed/Ubuntu.antt =====
-- An OSV document of Ubuntu: `ParseUbuntuOSVDocument` of internal/feed/distro.go, on the decoded
-- JSON.
use ct_cve.Base.{
  ℕ, suc, leb, nat_eq, length, Text, codes, ◌≡◌, subst, some_parts, trim_space, equal_fold,
  has_prefix, cut, is_empty, not, ◌&&◌, if◌then◌else◌, Bool, true, false, Option, some, none, List,
  [], ◌∷◌, ◌++◌,
}
use ct_cve.CtOps.Time.{Time}
use ct_cve.Feed.Types.{
  Severity, CveRecord, AffectedEntry, FetchResult, new_record, no_package, severity_unknown,
  source_ubuntu_osv,
}
use ct_cve.Feed.Clean.{clean_fixed_version, normalize_severity, first_cve, trim_prefix, cve_prefix}
use ct_cve.Feed.Records.{add_affected, no_result}
use ct_cve.Feed.Records.Laws.{
  IsSound, IsSoundWith, add_affected-IsSoundWith, single-IsSoundWith, if-IsSound,
}

pub record UbuntuScore : Type 0 where
  pub kind : Text
  pub score : Text

-- The `fixed` values of the events, range by range.
pub record UbuntuAffected : Type 0 where
  pub ecosystem : Text
  pub name : Text
  pub purl : Text
  pub ranges : List (List Text)
  pub versions : List Text

pub record UbuntuDocument : Type 0 where
  pub id : Text
  pub details : Text
  pub aliases : List Text
  pub upstream : List Text
  pub severity : List UbuntuScore
  pub published : Text
  pub modified : Text
  pub affected : List UbuntuAffected

-- Functions of the standard library: time.Parse with RFC3339, and the query parameter `distro` of a
-- URL, which is `none` where url.Parse fails and empty where the parameter is absent.
pub record UbuntuLibrary : Type 0 where
  pub parse_rfc3339 : Text → Option Time
  pub purl_distro : Text → Option Text

-- `parseRFC3339`
unfoldable pub parse_time : (Text → Option Time) → Text → Option Time
unfolding trim_space
parse_time parse raw = let value = trim_space raw in if is_empty value then none else parse value

-- strings.Contains of "CVE-"
unfoldable pub mentions_cve : Text → Bool
unfolding has_prefix
mentions_cve [] = false
mentions_cve (c ∷ s) =
    let later = mentions_cve s in if has_prefix (c ∷ s) cve_prefix then true else later

unfoldable pub ubuntu_cve_id : UbuntuDocument → Text
unfolding first_cve mentions_cve trim_prefix
ubuntu_cve_id doc =
    let upstream = first_cve doc.upstream in
    let alias = first_cve doc.aliases in
    if not (is_empty upstream)
    then upstream
    else if not (is_empty alias)
    then alias
    else if mentions_cve doc.id
    then trim_prefix doc.id (codes "UBUNTU-")
    else []

unfoldable pub ubuntu_severity : List UbuntuScore → Severity
unfolding equal_fold normalize_severity
ubuntu_severity [] = severity_unknown
ubuntu_severity (item ∷ items) =
    let rest = ubuntu_severity items in
    if equal_fold item.kind (codes "Ubuntu") then normalize_severity item.score else rest

-- strings.Split at a colon; `part` is what has been read of the first part.
unfoldable pub split_colons : Text → Text → List Text
split_colons part [] = part ∷ []
split_colons part (c ∷ s) =
    let next = split_colons [] s in
    let same = split_colons (part ++ c ∷ []) s in if nat_eq c b':' then part ∷ next else same

unfoldable pub count_dots : Text → ℕ
count_dots [] = 0
count_dots (c ∷ s) = let n = count_dots s in if nat_eq c b'.' then suc n else n

unfoldable pub first_version : List Text → Text
unfolding count_dots
first_version [] = []
first_version (part ∷ parts) =
    let rest = first_version parts in
    if nat_eq (count_dots part) 1 && leb 4 (length part) then part else rest

unfoldable pub codename_of : Option Text → Text
unfolding cut
codename_of none = []
codename_of (some distro) = elim (cut distro b'/') [ some (_, after) ↦ after | none ↦ distro ]

-- The version and the codename.
unfoldable pub parse_ubuntu_ecosystem : UbuntuLibrary → (ecosystem purl : Text) → Text × Text
unfolding split_colons first_version codename_of
parse_ubuntu_ecosystem lib ecosystem purl =
    (first_version (split_colons [] ecosystem), codename_of (lib.purl_distro purl))

-- The last of the events that has a version.
unfoldable pub last_fixed : Text → List Text → Text
last_fixed fixed [] = fixed
last_fixed fixed (event ∷ events) = last_fixed (if is_empty event then fixed else event) events

unfoldable pub last_fixed_of : Text → List (List Text) → Text
unfolding last_fixed
last_fixed_of fixed [] = fixed
last_fixed_of fixed (events ∷ ranges) = last_fixed_of (last_fixed fixed events) ranges

module _ (lib : UbuntuLibrary) (cve_id : Text) (severity : Severity) where
  unfoldable pub ubuntu_entry : UbuntuAffected → AffectedEntry
  unfolding parse_ubuntu_ecosystem last_fixed_of clean_fixed_version
  ubuntu_entry a =
      let place = parse_ubuntu_ecosystem lib a.ecosystem a.purl in
      record {
        cve_id = cve_id;
        source = source_ubuntu_osv;
        affected = record no_package {
          distro_id = codes "ubuntu";
          distro_version_id = place.0;
          distro_codename = place.1;
          package_name = trim_space a.name;
          fixed_version = clean_fixed_version (last_fixed_of [] a.ranges);
          affected_versions = a.versions;
        };
        repository = [];
        severity = severity;
        package_state = [];
        metadata_json = [];
      }

  unfoldable pub ubuntu_entries : List UbuntuAffected → FetchResult → FetchResult
  unfolding trim_space
  ubuntu_entries [] f = f
  ubuntu_entries (a ∷ affected) f =
      ubuntu_entries affected
        (if is_empty (trim_space a.name) then f else add_affected (ubuntu_entry a) f)

  ubuntu_step-IsSoundWith :
      (a : UbuntuAffected) (f : FetchResult) (b : Bool)
      → IsSoundWith cve_id f
      → IsSoundWith cve_id (if b then f else add_affected (ubuntu_entry a) f)
  unfolding ubuntu_entry
  ubuntu_step-IsSoundWith a f true s = s
  ubuntu_step-IsSoundWith a f false s = add_affected-IsSoundWith (ubuntu_entry a) f s

  ubuntu_entries-IsSoundWith :
      (affected : List UbuntuAffected) (f : FetchResult)
      → IsSoundWith cve_id f
      → IsSoundWith cve_id (ubuntu_entries affected f)
  unfolding ubuntu_entries
  ubuntu_entries-IsSoundWith [] f s = s
  ubuntu_entries-IsSoundWith (a ∷ affected) f s =
      ubuntu_entries-IsSoundWith affected _
        (ubuntu_step-IsSoundWith a f (is_empty (trim_space a.name)) s)

unfoldable pub ubuntu_record : UbuntuLibrary → Text → UbuntuDocument → CveRecord
unfolding parse_time ubuntu_severity trim_space
ubuntu_record lib cve_id doc =
    record (new_record cve_id source_ubuntu_osv (ubuntu_severity doc.severity)) {
      description = trim_space doc.details;
      published_at = parse_time lib.parse_rfc3339 doc.published;
      modified_at = parse_time lib.parse_rfc3339 doc.modified;
    }

unfoldable pub ubuntu_result : UbuntuLibrary → Text → UbuntuDocument → FetchResult
ubuntu_result lib cve_id doc =
    let r = ubuntu_record lib cve_id doc in
    if is_empty cve_id
    then no_result
    else ubuntu_entries lib cve_id r.severity doc.affected
        (record { records = r ∷ []; affected_packages = [] })

-- `none` is an error of the decoder; a document without a CVE gives nothing.
unfoldable pub parse_ubuntu_osv_document :
    UbuntuLibrary → Option UbuntuDocument → Option FetchResult
parse_ubuntu_osv_document lib none = none
parse_ubuntu_osv_document lib (some doc) = some (ubuntu_result lib (ubuntu_cve_id doc) doc)

ubuntu_result-IsSound :
    (lib : UbuntuLibrary) (cve_id : Text) (doc : UbuntuDocument)
    → IsSound (ubuntu_result lib cve_id doc)
unfolding ubuntu_result ubuntu_record
ubuntu_result-IsSound lib cve_id doc =
    let r = ubuntu_record lib cve_id doc in
    if-IsSound (is_empty cve_id) no_result
      (ubuntu_entries lib cve_id r.severity doc.affected
        (record { records = r ∷ []; affected_packages = [] }))
      (tt, tt)
      (ubuntu_entries-IsSoundWith lib cve_id r.severity doc.affected _ (single-IsSoundWith r)).1

-- Each affected package of the document has a record of its CVE, and there is at most one record.
pub parse_ubuntu_osv_document-IsSound :
    (lib : UbuntuLibrary) (doc : UbuntuDocument) (f : FetchResult)
    → parse_ubuntu_osv_document lib (some doc) ≡ some f
    → IsSound f
unfolding parse_ubuntu_osv_document
parse_ubuntu_osv_document-IsSound lib doc f h =
    subst IsSound (some_parts h) (ubuntu_result-IsSound lib (ubuntu_cve_id doc) doc)
