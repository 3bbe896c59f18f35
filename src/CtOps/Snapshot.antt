-- ===== src/CtOps/Snapshot.antt =====
-- Inventory snapshots and findings: internal/ctops/types.go. Of a finding, the CVSS score, the
-- summary of the CVE, the references and the metadata are left out, which are copied only, and of a
-- host the time of its update, which nothing reads.
use ct_cve.Base.{ℕ, Text, Bool, Option, List}
use ct_cve.CtOps.Time.{Time}
use ct_cve.Vuln.Matcher.{Reason}

pub record InventoryHost : Type 0 where
  pub host_id : Text
  pub agent_id : Option Text
  pub hostname : Text
  pub display_name : Option Text
  pub os : Option Text
  pub os_version : Option Text
  pub arch : Option Text
  pub ip_addresses : List Text
  pub status : Text
  pub last_seen_at : Option Time
  pub deleted_at : Option Time

-- The InventoryPackage of package ctops.
pub record SnapshotPackage : Type 0 where
  pub software_package_id : Text
  pub host_id : Text
  pub name : Text
  pub version : Text
  pub architecture : Option Text
  pub source : Text
  pub fingerprint : Text
  pub distro_id : Option Text
  pub distro_version_id : Option Text
  pub distro_codename : Option Text
  pub distro_id_like : List Text
  pub source_name : Option Text
  pub source_version : Option Text
  pub package_epoch : Option Text
  pub package_release : Option Text
  pub repository : Option Text
  pub origin : Option Text
  pub install_date : Option Time
  pub first_seen_at : Time
  pub last_seen_at : Time
  pub removed_at : Option Time
  pub deleted_at : Option Time

pub record InventorySnapshot : Type 0 where
  pub contract_version : Text
  pub org_id : Text
  pub org_slug : Text
  pub snapshot_id : Text
  pub snapshot_type : Text
  pub generated_at : Time
  pub cursor : Option Text
  pub hosts : List InventoryHost
  pub packages : List SnapshotPackage

pub record InventorySnapshotResult : Type 0 where
  pub accepted : Bool
  pub snapshot_id : Text
  pub hosts_accepted : ℕ
  pub packages_accepted : ℕ
  pub rows_rejected : ℕ
  pub next_action : Text

pub data FindingStatus : Type 0 where
  opened resolved : FindingStatus

pub record Finding : Type 0 where
  pub finding_id : Text
  pub host_id : Text
  pub software_package_id : Text
  pub cve_id : Text
  pub status : FindingStatus
  pub package_name : Text
  pub installed_version : Text
  pub fixed_version : Text
  pub source : Text
  pub severity : Text
  pub known_exploited : Bool
  pub confidence : Text
  pub match_reason : Reason
  pub first_seen_at : Time
  pub last_seen_at : Time
  pub resolved_at : Option Time

pub record InventorySnapshotApplyResult : Type 0 where
  pub response : InventorySnapshotResult
  pub findings : List Finding
  pub replayed : Bool
