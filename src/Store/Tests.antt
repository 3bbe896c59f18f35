-- ===== src/Store/Tests.antt =====
-- A snapshot with one package, and the theorems at it.
use ct_cve.Base.{Text, codes, ◌≡◌, refl, true, false, some, none, [], ◌∷◌, All, inl}
use ct_cve.Base.Utf8.{Unicode}
use ct_cve.CtOps.Types.{contract_version}
use ct_cve.CtOps.Snapshot.{
  SnapshotPackage, InventorySnapshot, InventorySnapshotApplyResult, Finding,
}
use ct_cve.Vuln.Matcher.{match_package, below_fixed_version}
use ct_cve.Store.Tables.{Database, AffectedRow, FindingRow}
use ct_cve.Store.Findings.{
  Matches, AffectedRecord, match_packages, is_live, inventory_package, finding_from_match, is_stale,
  resolve_stale_findings, open_row, resolve_row, resolved_finding,
}
use ct_cve.Store.Findings.Laws.{resolve_stale_findings-stale}
use ct_cve.Store.Findings.Matched.{Justified, match_packages-Justified}
use ct_cve.Store.Findings.Found.{IsFound, match_packages_complete}
use ct_cve.Store.Snapshots.{apply_inventory_snapshot, accepted_result, committed, applying}
use ct_cve.Store.Snapshots.Laws.{replay_of, apply-replays}

abbrev tables : Unicode
tables = record { wide_digit = λ _. false; wide_letter = λ _. false }

abbrev hash : Text → Text
hash s = s

abbrev openssl : SnapshotPackage
openssl = record {
  software_package_id = codes "p";
  host_id = codes "h";
  name = codes "openssl";
  version = codes "1";
  architecture = none;
  source = codes "dpkg";
  fingerprint = [];
  distro_id = none;
  distro_version_id = none;
  distro_codename = none;
  distro_id_like = [];
  source_name = none;
  source_version = none;
  package_epoch = none;
  package_release = none;
  repository = none;
  origin = none;
  install_date = none;
  first_seen_at = 5;
  last_seen_at = 6;
  removed_at = none;
  deleted_at = none;
}

abbrev snapshot : InventorySnapshot
snapshot = record {
  contract_version = contract_version;
  org_id = codes "o";
  org_slug = codes "o";
  snapshot_id = codes "s1";
  snapshot_type = codes "full";
  generated_at = 7;
  cursor = none;
  hosts = [];
  packages = openssl ∷ [];
}

abbrev advisory : AffectedRow
advisory = record {
  cve_id = codes "CVE-1";
  source = codes "debian";
  severity = [];
  affected = record {
    distro_id = [];
    distro_version_id = [];
    distro_codename = [];
    package_name = codes "openssl";
    source_package_name = [];
    fixed_version = codes "2";
    affected_versions = [];
  };
}

abbrev candidate : AffectedRecord
candidate = record { row = advisory; kev = false }

-- A finding of an earlier snapshot, by an advisory that is gone.
abbrev old_row : FindingRow
old_row = record {
  finding_id = codes "f";
  org_id = codes "o";
  host_id = codes "h";
  package_id = codes "p";
  cve_id = codes "CVE-0";
  confidence = codes "confirmed";
  reason = below_fixed_version;
  first_seen_at = 1;
  last_seen_at = 1;
  resolved_at = none;
  package_name = codes "openssl";
  installed_version = codes "0";
  fixed_version = codes "1";
  source = codes "debian";
  severity = codes "low";
  known_exploited = false;
}

abbrev db : Database
db = record {
  snapshots = [];
  hosts = [];
  packages = [];
  findings = old_row ∷ [];
  status = [];
  affected = advisory ∷ [];
  cves =
      record { cve_id = codes "CVE-0"; known_exploited = false }
      ∷ record { cve_id = codes "CVE-1"; known_exploited = false }
      ∷ [];
}

abbrev found : Finding
found = finding_from_match hash (codes "o") openssl candidate below_fixed_version 9

abbrev matches : Matches
matches = (found ∷ [], old_row ∷ open_row (codes "o") found 9 ∷ [])

matches_run :
    match_packages tables hash snapshot 9 (candidate ∷ []) (openssl ∷ []) ([], old_row ∷ [])
    ≡ some matches
unfolding applying
matches_run = refl

openssl_live : is_live snapshot openssl ≡ true
unfolding applying
openssl_live = refl

openssl_matched :
    match_package tables (inventory_package openssl) advisory.affected
    ≡ some (true, below_fixed_version)
unfolding applying
openssl_matched = refl

match_packages-Justified_example :
    All (Justified tables hash snapshot 9 (candidate ∷ []) (openssl ∷ [])) (found ∷ [])
match_packages-Justified_example =
    match_packages-Justified tables hash snapshot 9 (candidate ∷ []) (openssl ∷ []) (old_row ∷ [])
      matches matches_run

match_packages_complete_example : IsFound tables hash snapshot 9 found matches
match_packages_complete_example =
    match_packages_complete tables hash snapshot 9 openssl candidate below_fixed_version
      (candidate ∷ []) (openssl ∷ []) ([], old_row ∷ []) matches (inl refl) (inl refl) openssl_live
      openssl_matched matches_run

resolve_stale_findings-stale_example :
    All
      (λ row. is_stale (codes "o") (codes "p" ∷ []) [] db.cves row ≡ false)
      (resolve_stale_findings (codes "o") (codes "p" ∷ []) [] db.cves 9 (old_row ∷ [])).1
resolve_stale_findings-stale_example =
    resolve_stale_findings-stale (codes "o") (codes "p" ∷ []) [] db.cves 9 (old_row ∷ [])

abbrev result : InventorySnapshotApplyResult
result = record {
  response = accepted_result snapshot;
  findings = found ∷ resolved_finding 9 old_row ∷ [];
  replayed = false;
}

abbrev after : Database
after = committed snapshot 9 db (resolve_row 9 old_row ∷ open_row (codes "o") found 9 ∷ [])

apply_run : apply_inventory_snapshot tables hash false snapshot 9 db ≡ some (some result, after)
unfolding applying
apply_run = refl

apply-replays_example :
    apply_inventory_snapshot tables hash false snapshot 20 after
    ≡ some (some (replay_of (accepted_result snapshot)), after)
apply-replays_example =
    apply-replays tables hash snapshot snapshot 9 20 db after result apply_run refl refl
