-- ===== src/Store/Findings.antt =====
-- The findings of a snapshot: `matchSnapshotFindings` of internal/store/ctops.go and the functions
-- that it calls. `none` stands for a comparison of versions that does not end.
pub mod Laws
pub mod Matched
pub mod Opened
pub mod Found
use ct_cve.Base.{
  ℕ, ltb, Text, codes, ◌==◌, ◌++◌, take, Bool, true, false, not, ◌&&◌, ◌||◌, any, is_empty,
  if◌then◌else◌, Option, some, none, ◌>>=◌, List, [], ◌∷◌, map,
}
use ct_cve.Base.Utf8.{Unicode}
use ct_cve.CtOps.Time.{Time}
use ct_cve.CtOps.Snapshot.{
  InventoryHost, SnapshotPackage, InventorySnapshot, Finding, FindingStatus, opened, resolved,
}
use ct_cve.Vuln.Types.{InventoryPackage, AffectedPackage}
use ct_cve.Vuln.Matcher.{Reason, match_package}
use ct_cve.Store.Tables.{FindingRow, AffectedRow, CveRow, upsert, earliest}

abbrev pub string_ptr_value : Option Text → Text
string_ptr_value none = []
string_ptr_value (some value) = value

abbrev is_set {ℓ} : {A : Type ℓ} → Option A → Bool
is_set none = false
is_set (some _) = true

-- The text is one of the texts.
unfoldable pub one_of : Text → List Text → Bool
unfolding ◌==◌
one_of text = any (λ t. t == text)

-- affectedRecord: an advisory with what its CVE adds.
pub record AffectedRecord : Type 0 where
  pub row : AffectedRow
  pub kev : Bool

-- The names of the packages and of their source packages. A name that comes twice is kept twice,
-- which the query does not see.
unfoldable pub package_names : List SnapshotPackage → List Text
package_names [] = []
package_names (p ∷ packages) =
    let rest = package_names packages in
    let source_name = string_ptr_value p.source_name in
    let with_source = if is_empty source_name then rest else source_name ∷ rest in
    if is_empty p.name then with_source else p.name ∷ with_source

-- JOIN with cve_records.
unfoldable pub join_cves : AffectedRow → List CveRow → List AffectedRecord
unfolding ◌==◌
join_cves row [] = []
join_cves row (cve ∷ cves) =
    let rest = join_cves row cves in
    if cve.cve_id == row.cve_id
    then record { row = row; kev = cve.known_exploited } ∷ rest
    else rest

-- The rows that name one of the packages; without names there is no query, and none is returned.
unfoldable pub affected_records : List Text → List CveRow → List AffectedRow → List AffectedRecord
unfolding one_of
affected_records names cves [] = []
affected_records names cves (row ∷ rows) =
    let rest = affected_records names cves rows in
    if one_of row.affected.package_name names || one_of row.affected.source_package_name names
    then join_cves row cves ++ rest
    else rest

unfoldable pub affected_candidates :
    List SnapshotPackage → List CveRow → List AffectedRow → List AffectedRecord
affected_candidates packages = affected_records (package_names packages)

-- The map of the hosts of the snapshot: a later entry of a host replaces an earlier one.
unfoldable pub host_deleted : Bool → Text → List InventoryHost → Bool
unfolding ◌==◌
host_deleted deleted host_id [] = deleted
host_deleted deleted host_id (host ∷ hosts) =
    host_deleted (if host.host_id == host_id then is_set host.deleted_at else deleted) host_id hosts

-- The packages that are matched; the others are touched only.
unfoldable pub is_live : InventorySnapshot → SnapshotPackage → Bool
is_live snapshot p =
    not (is_set p.removed_at || is_set p.deleted_at || host_deleted false p.host_id snapshot.hosts)

unfoldable pub inventory_package : SnapshotPackage → InventoryPackage
inventory_package p = record {
  name = p.name;
  version = p.version;
  source = p.source;
  distro_id = string_ptr_value p.distro_id;
  distro_id_like = p.distro_id_like;
  distro_version_id = string_ptr_value p.distro_version_id;
  distro_codename = string_ptr_value p.distro_codename;
  source_name = string_ptr_value p.source_name;
  source_version = string_ptr_value p.source_version;
}

unfoldable pub finding_key : (host_id package_id cve_id : Text) → Text
finding_key host_id package_id cve_id = host_id ++ 0 ∷ package_id ++ 0 ∷ cve_id

-- `sha256_hex` is hex.EncodeToString of sha256.Sum256.
unfoldable pub stable_finding_id : (Text → Text) → (org_id host_id package_id cve_id : Text) → Text
stable_finding_id sha256_hex org_id host_id package_id cve_id =
    codes "ctcve_find_"
    ++ take 24 (sha256_hex (org_id ++ 0 ∷ host_id ++ 0 ∷ package_id ++ 0 ∷ cve_id))

-- The one call has no time of resolution.
unfoldable pub finding_from_match :
    (Text → Text) → Text → SnapshotPackage → AffectedRecord → Reason → Time → Finding
unfolding stable_finding_id
finding_from_match sha256_hex org_id p candidate reason now = record {
  finding_id =
      stable_finding_id sha256_hex org_id p.host_id p.software_package_id candidate.row.cve_id;
  host_id = p.host_id;
  software_package_id = p.software_package_id;
  cve_id = candidate.row.cve_id;
  status = opened;
  package_name = p.name;
  installed_version = p.version;
  fixed_version = candidate.row.affected.fixed_version;
  source = candidate.row.source;
  severity = if is_empty candidate.row.severity then codes "unknown" else candidate.row.severity;
  known_exploited = candidate.kev;
  confidence = codes "confirmed";
  match_reason = reason;
  first_seen_at = now;
  last_seen_at = now;
  resolved_at = none;
}

-- The row of an open finding, first seen at the time given.
unfoldable pub open_row : Text → Finding → Time → FindingRow
open_row org_id f first_seen = record {
  finding_id = f.finding_id;
  org_id = org_id;
  host_id = f.host_id;
  package_id = f.software_package_id;
  cve_id = f.cve_id;
  confidence = f.confidence;
  reason = f.match_reason;
  first_seen_at = first_seen;
  last_seen_at = f.last_seen_at;
  resolved_at = none;
  package_name = f.package_name;
  installed_version = f.installed_version;
  fixed_version = f.fixed_version;
  source = f.source;
  severity = f.severity;
  known_exploited = f.known_exploited;
}

-- The key of integration_findings.
unfoldable pub same_finding : Text → Finding → FindingRow → Bool
unfolding ◌==◌
same_finding org_id f row =
    row.org_id == org_id
    && row.host_id == f.host_id
    && row.package_id == f.software_package_id
    && row.cve_id == f.cve_id

unfoldable pub upsert_open_finding : Text → Finding → List FindingRow → List FindingRow
upsert_open_finding org_id f =
    upsert (same_finding org_id f)
      (λ row. open_row org_id f (earliest row.first_seen_at f.first_seen_at))
      (open_row org_id f f.first_seen_at)

-- The findings so far, and the table.
abbrev pub Matches : Type 0
Matches = List Finding × List FindingRow

module _ (u : Unicode) (sha256_hex : Text → Text) (snapshot : InventorySnapshot) (now : Time) where
  unfoldable pub add_match : SnapshotPackage → AffectedRecord → Matches → Bool × Reason → Matches
  add_match p candidate (found, rows) (false, _) = (found, rows)
  add_match p candidate (found, rows) (true, reason) =
      let finding = finding_from_match sha256_hex snapshot.org_id p candidate reason now in
      (found ++ finding ∷ [], upsert_open_finding snapshot.org_id finding rows)

  unfoldable pub match_candidates : SnapshotPackage → List AffectedRecord → Matches → Option Matches
  match_candidates p [] m = some m
  match_candidates p (candidate ∷ candidates) m =
      match_package u (inventory_package p) candidate.row.affected >>= λ verdict.
      match_candidates p candidates (add_match p candidate m verdict)

  unfoldable pub match_packages :
      List AffectedRecord → List SnapshotPackage → Matches → Option Matches
  match_packages candidates [] m = some m
  match_packages candidates (p ∷ packages) m =
      (if is_live snapshot p then match_candidates p candidates m else some m)
      >>= match_packages candidates packages

-- The finding of a stale row, resolved now.
unfoldable pub resolved_finding : Time → FindingRow → Finding
resolved_finding now row = record {
  finding_id = row.finding_id;
  host_id = row.host_id;
  software_package_id = row.package_id;
  cve_id = row.cve_id;
  status = resolved;
  package_name = row.package_name;
  installed_version = row.installed_version;
  fixed_version = row.fixed_version;
  source = row.source;
  severity = row.severity;
  known_exploited = row.known_exploited;
  confidence = row.confidence;
  match_reason = row.reason;
  first_seen_at = row.first_seen_at;
  last_seen_at = now;
  resolved_at = some now;
}

unfoldable pub has_cve : List CveRow → Text → Bool
unfolding ◌==◌
has_cve cves cve_id = any (λ cve. cve.cve_id == cve_id) cves

-- The rows that are selected, less those whose key was matched.
unfoldable pub is_stale : Text → List Text → List Text → List CveRow → FindingRow → Bool
unfolding ◌==◌
is_stale org_id package_ids matched_keys cves row =
    has_cve cves row.cve_id
    && row.org_id == org_id
    && one_of row.package_id package_ids
    && not (is_set row.resolved_at)
    && not (one_of (finding_key row.host_id row.package_id row.cve_id) matched_keys)

unfoldable pub stale_findings :
    Text → List Text → List Text → List CveRow → Time → List FindingRow → List Finding
stale_findings org_id package_ids matched_keys cves now [] = []
stale_findings org_id package_ids matched_keys cves now (row ∷ rows) =
    let rest = stale_findings org_id package_ids matched_keys cves now rows in
    if is_stale org_id package_ids matched_keys cves row
    then resolved_finding now row ∷ rest
    else rest

abbrev pub resolve_row : Time → FindingRow → FindingRow
resolve_row now row = record {
  finding_id = row.finding_id;
  org_id = row.org_id;
  host_id = row.host_id;
  package_id = row.package_id;
  cve_id = row.cve_id;
  confidence = row.confidence;
  reason = row.reason;
  first_seen_at = row.first_seen_at;
  last_seen_at = now;
  resolved_at = some now;
  package_name = row.package_name;
  installed_version = row.installed_version;
  fixed_version = row.fixed_version;
  source = row.source;
  severity = row.severity;
  known_exploited = row.known_exploited;
}

-- The UPDATE of each finding in turn.
unfoldable pub resolve_each : Text → Time → List Finding → List FindingRow → List FindingRow
resolve_each org_id now [] rows = rows
resolve_each org_id now (f ∷ findings) rows =
    resolve_each org_id now findings
      (map (λ row. if same_finding org_id f row then resolve_row now row else row) rows)

unfoldable pub resolve_stale_findings :
    Text → List Text → List Text → List CveRow → Time → List FindingRow → Matches
resolve_stale_findings org_id package_ids matched_keys cves now rows =
    let stale = stale_findings org_id package_ids matched_keys cves now rows in
    if is_empty package_ids then ([], rows) else (stale, resolve_each org_id now stale rows)

-- The keys that are set while the findings are found.
abbrev pub keys : List Finding → List Text
keys = map (λ f. finding_key f.host_id f.software_package_id f.cve_id)

abbrev pub touched : InventorySnapshot → List Text
touched snapshot = map (λ p. p.software_package_id) snapshot.packages

unfoldable pub match_snapshot_findings :
    Unicode
    → (Text → Text)
    → InventorySnapshot
    → Time
    → List CveRow
    → List AffectedRow
    → List FindingRow
    → Option Matches
match_snapshot_findings u sha256_hex snapshot now cves affected rows =
    let candidates = affected_candidates snapshot.packages cves affected in
    match_packages u sha256_hex snapshot now candidates snapshot.packages ([], rows) >>= λ m.
    let stale = resolve_stale_findings snapshot.org_id (touched snapshot) (keys m.0) cves now m.1 in
    some (m.0 ++ stale.0, stale.1)
