-- ===== src/Store/Snapshots/Laws.antt =====
-- A snapshot that comes twice.
use ct_cve.Base.{
  Text, eq_refl, ◌≡◌, refl, sym, subst, arith, true, false, Option, some, none, ◌>>=◌, List, [],
}
use ct_cve.Base.Utf8.{Unicode}
use ct_cve.CtOps.Time.{Time}
use ct_cve.CtOps.Snapshot.{InventorySnapshot, InventorySnapshotResult, InventorySnapshotApplyResult}
use ct_cve.Store.Tables.{Database, SnapshotRow, get_snapshot_response}
use ct_cve.Store.Findings.{match_snapshot_findings, Matches}
use ct_cve.Store.Snapshots.{
  Applied, commit, committed, accepted_result, insert_snapshot_response, after_lookup,
  apply_inventory_snapshot,
}

-- The result of an apply that was replayed with the given response.
abbrev pub replay_of : InventorySnapshotResult → InventorySnapshotApplyResult
replay_of response = record { response = response; findings = []; replayed = true }

get-insert :
    (s : InventorySnapshot) (result : InventorySnapshotResult) (rows : List SnapshotRow)
    → get_snapshot_response s.org_id s.snapshot_id (insert_snapshot_response s result rows)
      ≡ some result
unfolding get_snapshot_response insert_snapshot_response
get-insert s result rows = let a = eq_refl s.org_id in let b = eq_refl s.snapshot_id in ground arith

-- The database holds the response.
abbrev Holds : InventorySnapshot → InventorySnapshotApplyResult → Database → Type 0
Holds s r db = get_snapshot_response s.org_id s.snapshot_id db.snapshots ≡ some r.response

committed-Holds :
    (s : InventorySnapshot) (now : Time) (db : Database) (m : Matches)
    → get_snapshot_response s.org_id s.snapshot_id (committed s now db m.1).snapshots
      ≡ some (accepted_result s)
unfolding committed
committed-Holds s now db m = get-insert s (accepted_result s) db.snapshots

pair-parts :
    (a a' : InventorySnapshotApplyResult) (b b' : Database)
    → ◌≡◌ {A = Option Applied} (some (some a, b)) (some (some a', b'))
    → (a ≡ a') × (b ≡ b')
pair-parts a a' b b' h = (ground arith, ground arith)

commit-Holds :
    (s : InventorySnapshot) (now : Time) (db db' : Database) (m : Option Matches)
    (r : InventorySnapshotApplyResult)
    → (m >>= commit s now db) ≡ some (some r, db')
    → Holds s r db'
commit-Holds s now db db' none r h = ground arith
commit-Holds s now db db' (some m) r h =
    let (e, f) =
      pair-parts (record { response = accepted_result s; findings = m.0; replayed = false }) r
        (committed s now db m.1) db' h in
    subst (λ d. Holds s r d) f
      (subst (λ t. Holds s t (committed s now db m.1)) e (committed-Holds s now db m))

after_lookup-Holds :
    (u : Unicode) (sha256_hex : Text → Text) (s : InventorySnapshot) (now : Time)
    (db db' : Database) (stored : Option InventorySnapshotResult) (r : InventorySnapshotApplyResult)
    → stored ≡ get_snapshot_response s.org_id s.snapshot_id db.snapshots
    → after_lookup u sha256_hex s now db stored ≡ some (some r, db')
    → Holds s r db'
unfolding after_lookup
after_lookup-Holds u sha256_hex s now db db' (some response) r e h =
    let (f, g) = pair-parts (replay_of response) r db db' h in
    subst (λ d. Holds s r d) g (subst (λ t. Holds s t db) f (sym e))
after_lookup-Holds u sha256_hex s now db db' none r e h =
    commit-Holds s now db db'
      (match_snapshot_findings u sha256_hex s now db.cves db.affected db.findings) r h

-- A snapshot that was applied is not applied again: when a snapshot with the same organisation and
-- id comes, with whatever content, the same response is returned as a replay without findings, and
-- the database stays as it is.
pub apply-replays :
    (u : Unicode) (sha256_hex : Text → Text) (s s' : InventorySnapshot) (now now' : Time)
    (db db' : Database) (r : InventorySnapshotApplyResult)
    → apply_inventory_snapshot u sha256_hex false s now db ≡ some (some r, db')
    → s'.org_id ≡ s.org_id
    → s'.snapshot_id ≡ s.snapshot_id
    → apply_inventory_snapshot u sha256_hex false s' now' db'
      ≡ some (some (replay_of r.response), db')
unfolding apply_inventory_snapshot after_lookup
apply-replays u sha256_hex s s' now now' db db' r h o i =
    let held =
      after_lookup-Holds u sha256_hex s now db db'
        (get_snapshot_response s.org_id s.snapshot_id db.snapshots) r refl h in
    let held' : get_snapshot_response s'.org_id s'.snapshot_id db'.snapshots ≡ some r.response =
      cc in
    rw held' refl
