-- ===== src/Store/Snapshots.antt =====
-- The transaction of a snapshot: `ApplyInventorySnapshot` of internal/store/ctops.go.
pub mod Laws
use ct_cve.Base.{
  ℕ, Text, codes, ◌==◌, Bool, true, false, ◌&&◌, length, trim_space, if◌then◌else◌, Option, some,
  none, ◌>>=◌, List, [], ◌∷◌, ◌++◌, map,
}
use ct_cve.Base.Utf8.{Unicode}
use ct_cve.CtOps.Time.{Time}
use ct_cve.CtOps.Snapshot.{
  InventoryHost, SnapshotPackage, InventorySnapshot, InventorySnapshotResult,
  InventorySnapshotApplyResult,
}
use ct_cve.Store.Tables.{
  Database, FindingRow, SnapshotRow, HostRow, PackageRow, get_snapshot_response, upsert_ct_ops_host,
  upsert, upsert_ct_ops_package,
}
use ct_cve.Vuln.Matcher.{matching}
use ct_cve.Store.Findings.{
  Matches, match_snapshot_findings, match_packages, match_candidates, add_match,
  affected_candidates, affected_records, join_cves, package_names, host_deleted, is_live,
  inventory_package, finding_from_match, finding_key, stable_finding_id, open_row, same_finding,
  upsert_open_finding, resolve_stale_findings, stale_findings, is_stale, has_cve, resolved_finding,
  resolve_each, one_of,
}
use ct_cve.Store.Status.{touch_inventory_status}

unfoldable pub upsert_hosts : Text → List InventoryHost → List HostRow → List HostRow
upsert_hosts org_id [] rows = rows
upsert_hosts org_id (host ∷ hosts) rows =
    upsert_hosts org_id hosts (upsert_ct_ops_host org_id host rows)

unfoldable pub upsert_packages : Text → List SnapshotPackage → List PackageRow → List PackageRow
upsert_packages org_id [] rows = rows
upsert_packages org_id (p ∷ packages) rows =
    upsert_packages org_id packages (upsert_ct_ops_package org_id p rows)

-- The key is new, as the response was looked up before.
unfoldable pub insert_snapshot_response :
    InventorySnapshot → InventorySnapshotResult → List SnapshotRow → List SnapshotRow
insert_snapshot_response snapshot result rows =
    record { org_id = snapshot.org_id; snapshot_id = snapshot.snapshot_id; response = result }
    ∷ rows

abbrev pub accepted_result : InventorySnapshot → InventorySnapshotResult
accepted_result snapshot = record {
  accepted = true;
  snapshot_id = snapshot.snapshot_id;
  hosts_accepted = length snapshot.hosts;
  packages_accepted = length snapshot.packages;
  rows_rejected = 0;
  next_action = codes "none";
}

-- What is committed.
unfoldable pub committed : InventorySnapshot → Time → Database → List FindingRow → Database
committed snapshot now db findings = record {
  snapshots = insert_snapshot_response snapshot (accepted_result snapshot) db.snapshots;
  hosts = upsert_hosts snapshot.org_id snapshot.hosts db.hosts;
  packages = upsert_packages snapshot.org_id snapshot.packages db.packages;
  findings = findings;
  status = touch_inventory_status snapshot.org_id now db.status;
  affected = db.affected;
  cves = db.cves;
}

abbrev pub Applied : Type 0
Applied = Option InventorySnapshotApplyResult × Database

abbrev pub commit : InventorySnapshot → Time → Database → Matches → Option Applied
commit snapshot now db m = some (
  some (record { response = accepted_result snapshot; findings = m.0; replayed = false }),
  committed snapshot now db m.1,
)

-- A response that is stored is returned again; otherwise the snapshot is applied.
unfoldable pub after_lookup :
    Unicode
    → (Text → Text)
    → InventorySnapshot
    → Time
    → Database
    → Option InventorySnapshotResult
    → Option Applied
after_lookup u sha256_hex snapshot now db (some response) =
    some (some (record { response = response; findings = []; replayed = true }), db)
after_lookup u sha256_hex snapshot now db none =
    match_snapshot_findings u sha256_hex snapshot now db.cves db.affected db.findings
    >>= commit snapshot now db

-- Where a statement of the transaction fails, it is rolled back and there is no result.
unfoldable pub apply_inventory_snapshot :
    Unicode → (Text → Text) → Bool → InventorySnapshot → Time → Database → Option Applied
apply_inventory_snapshot u sha256_hex failing snapshot now db =
    let stored = get_snapshot_response snapshot.org_id snapshot.snapshot_id db.snapshots in
    if failing then some (none, db) else after_lookup u sha256_hex snapshot now db stored

-- The rows of the snapshot itself; the others stay.
unfoldable pub set_response :
    Text → Text → InventorySnapshotResult → List SnapshotRow → List SnapshotRow
unfolding ◌==◌
set_response org_id snapshot_id result = map (λ row.
    if row.org_id == org_id && row.snapshot_id == snapshot_id
    then record { org_id = row.org_id; snapshot_id = row.snapshot_id; response = result }
    else row)

unfoldable pub update_inventory_snapshot_response :
    Text → Text → InventorySnapshotResult → Database → Database
update_inventory_snapshot_response org_id snapshot_id result db = record {
  snapshots = set_response org_id snapshot_id result db.snapshots;
  hosts = db.hosts;
  packages = db.packages;
  findings = db.findings;
  status = db.status;
  affected = db.affected;
  cves = db.cves;
}

-- What a run on given values unfolds.
unfoldable pub applying : Unit {0}
unfolding matching apply_inventory_snapshot after_lookup committed insert_snapshot_response
    upsert_hosts upsert_packages upsert_ct_ops_host upsert_ct_ops_package upsert
    get_snapshot_response match_snapshot_findings match_packages match_candidates add_match
    affected_candidates affected_records join_cves package_names host_deleted is_live
    inventory_package finding_from_match finding_key stable_finding_id open_row same_finding
    upsert_open_finding resolve_stale_findings stale_findings is_stale has_cve resolved_finding
    resolve_each one_of touch_inventory_status trim_space ◌==◌
applying = tt
