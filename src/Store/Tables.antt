-- ===== src/Store/Tables.antt =====
-- The tables behind internal/store/ctops.go. A table is the list of its rows. The columns
-- `created_at` and `updated_at`, which only NOW() fills and which nothing reads, are left out.
use ct_cve.Base.{
  ltb, Text, codes, ◌==◌, Bool, ◌&&◌, any, is_empty, trim_space, if◌then◌else◌, Option, some, none,
  List, [], ◌∷◌, map, ◌++◌,
}
use ct_cve.CtOps.Time.{Time}
use ct_cve.CtOps.Snapshot.{InventoryHost, SnapshotPackage, InventorySnapshotResult}
use ct_cve.Vuln.Types.{AffectedPackage}
use ct_cve.Vuln.Matcher.{Reason}

-- ct_ops_inventory_snapshots: the response, which the column holds as JSON.
pub record SnapshotRow : Type 0 where
  pub org_id : Text
  pub snapshot_id : Text
  pub response : InventorySnapshotResult

-- ct_ops_hosts
pub record HostRow : Type 0 where
  pub org_id : Text
  pub host : InventoryHost

-- ct_ops_software_packages
pub record PackageRow : Type 0 where
  pub org_id : Text
  pub pkg : SnapshotPackage

-- integration_findings
pub record FindingRow : Type 0 where
  pub finding_id : Text
  pub org_id : Text
  pub host_id : Text
  pub package_id : Text
  pub cve_id : Text
  pub confidence : Text
  pub reason : Reason
  pub first_seen_at : Time
  pub last_seen_at : Time
  pub resolved_at : Option Time
  pub package_name : Text
  pub installed_version : Text
  pub fixed_version : Text
  pub source : Text
  pub severity : Text
  pub known_exploited : Bool

-- ct_ops_connection_status
pub record StatusRow : Type 0 where
  pub org_id : Text
  pub configured : Bool
  pub enabled : Bool
  pub last_inventory_push_at : Option Time
  pub last_finding_ingest_at : Option Time
  pub last_health_check_at : Option Time
  pub last_error_code : Text
  pub last_error_at : Option Time

-- affected_packages
pub record AffectedRow : Type 0 where
  pub cve_id : Text
  pub source : Text
  pub severity : Text
  pub affected : AffectedPackage

-- cve_records
pub record CveRow : Type 0 where
  pub cve_id : Text
  pub known_exploited : Bool

pub record Database : Type 0 where
  pub snapshots : List SnapshotRow
  pub hosts : List HostRow
  pub packages : List PackageRow
  pub findings : List FindingRow
  pub status : List StatusRow
  pub affected : List AffectedRow
  pub cves : List CveRow

-- INSERT with ON CONFLICT DO UPDATE: each row that the test takes for the same key is updated, of
-- which the table's key allows one; where there is none, the new row is inserted.
unfoldable pub upsert {ℓ} : {A : Type ℓ} → (A → Bool) → (A → A) → A → List A → List A
upsert same update new rows =
    if any same rows
    then map (λ row. if same row then update row else row) rows
    else rows ++ new ∷ []

abbrev pub earliest : Time → Time → Time
earliest t u = if ltb u t then u else t

unfoldable pub get_snapshot_response :
    Text → Text → List SnapshotRow → Option InventorySnapshotResult
unfolding ◌==◌
get_snapshot_response org_id snapshot_id [] = none
get_snapshot_response org_id snapshot_id (row ∷ rows) =
    if row.org_id == org_id && row.snapshot_id == snapshot_id
    then some row.response
    else get_snapshot_response org_id snapshot_id rows

unfoldable pub upsert_ct_ops_host : Text → InventoryHost → List HostRow → List HostRow
unfolding ◌==◌ trim_space upsert
upsert_ct_ops_host org_id host rows =
    let status = trim_space host.status in
    let stored : InventoryHost = record {
      host_id = host.host_id;
      agent_id = host.agent_id;
      hostname = host.hostname;
      display_name = host.display_name;
      os = host.os;
      os_version = host.os_version;
      arch = host.arch;
      ip_addresses = host.ip_addresses;
      status = if is_empty status then codes "unknown" else status;
      last_seen_at = host.last_seen_at;
      deleted_at = host.deleted_at;
    } in
    let new : HostRow = record { org_id = org_id; host = stored } in
    upsert (λ row. row.org_id == org_id && row.host.host_id == host.host_id) (λ _. new) new rows

-- A package that is known keeps the earlier of its two first sightings.
abbrev seen_first : SnapshotPackage → PackageRow → PackageRow
seen_first p row = record {
  org_id = row.org_id;
  pkg = record {
    software_package_id = p.software_package_id;
    host_id = p.host_id;
    name = p.name;
    version = p.version;
    architecture = p.architecture;
    source = p.source;
    fingerprint = p.fingerprint;
    distro_id = p.distro_id;
    distro_version_id = p.distro_version_id;
    distro_codename = p.distro_codename;
    distro_id_like = p.distro_id_like;
    source_name = p.source_name;
    source_version = p.source_version;
    package_epoch = p.package_epoch;
    package_release = p.package_release;
    repository = p.repository;
    origin = p.origin;
    install_date = p.install_date;
    first_seen_at = earliest row.pkg.first_seen_at p.first_seen_at;
    last_seen_at = p.last_seen_at;
    removed_at = p.removed_at;
    deleted_at = p.deleted_at;
  };
}

unfoldable pub upsert_ct_ops_package : Text → SnapshotPackage → List PackageRow → List PackageRow
unfolding ◌==◌ upsert
upsert_ct_ops_package org_id p rows =
    upsert (λ row. row.org_id == org_id && row.pkg.software_package_id == p.software_package_id)
      (seen_first p) (record { org_id = org_id; pkg = p }) rows
