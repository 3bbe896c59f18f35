-- ===== src/CtOps/Handler.antt =====
-- The two HTTP handlers: internal/ctops/handler.go. The store is an interface; the calls of the
-- clock within a request return one time.
pub mod Laws
mod Tests
use ct_cve.Base.{
  ℕ, ltb, leb, ◌+◌, ◌*◌, Text, codes, ◌==◌, is_empty, trim_space, Bool, true, false, not, ◌&&◌,
  ◌||◌, any, if◌then◌else◌, Option, some, none, List, [], ◌∷◌, length,
}
use ct_cve.CtOps.Time.{Time, is_zero_time}
use ct_cve.CtOps.Types.{
  Connection, ServiceToken, contract_version, scope_inventory_write, scope_connection_read,
}
use ct_cve.CtOps.Snapshot.{
  Finding, InventoryHost, SnapshotPackage, InventorySnapshot, InventorySnapshotResult,
  InventorySnapshotApplyResult,
}
use ct_cve.CtOps.Nonces.{NonceStore}
use ct_cve.CtOps.Auth.{
  Headers, Library, ServiceAuthError, VerifyError, VerifyOptions, Verified, auth, err, ok, other,
  verify_service_request, verifying,
}
use ct_cve.CtOps.Delivery.{Callback, Delivery, deliver_findings}
use ct_cve.Store.Status.{ConnectionHealth}

-- The interface Store; a Bool says that there is no error.
pub record Store (S : Type 0) : Type 0 where
  pub nonces : NonceStore S
  pub apply_snapshot : InventorySnapshot → Time → S → Option InventorySnapshotApplyResult × S
  pub record_connection_error : (org_id code : Text) → S → Bool × S
  pub update_response : (org_id snapshot_id : Text) → InventorySnapshotResult → S → Bool × S
  pub connection_health : (org_id : Text) → S → Option ConnectionHealth × S
  pub record_connection_health : (org_id : Text) → S → Bool × S

pub record Handler (S : Type 0) : Type 0 where
  pub connections : List Connection
  pub store : Store S
  pub callback : Callback S
  -- json.Unmarshal of a snapshot
  pub decode : Text → Option InventorySnapshot

-- The query parameter `orgId` is a field; one that is absent is empty.
pub record Request : Type 0 where
  pub method : Text
  pub path : Text
  pub body : Text
  pub query_org_id : Text
  pub headers : Headers

pub data ErrorCode : Type 0 where
  method_not_allowed payload_too_large invalid_json unknown_org : ErrorCode
  inventory_snapshot_failed missing_org_id connection_health_failed service_auth_failed : ErrorCode
  invalid_payload : Text → ErrorCode
  refused : ServiceAuthError → ErrorCode

-- What is written: a status and an error, or a result.
pub data Reply : Type 0 where
  failed : (status : ℕ) → ErrorCode → (retryable : Bool) → Reply
  accepted : InventorySnapshotResult → Reply
  health : ConnectionHealth → Reply
  empty_ok : Reply

abbrev pub max_hosts : ℕ
max_hosts = 500

abbrev pub max_packages : ℕ
max_packages = 25_000

abbrev pub max_body_bytes : ℕ
max_body_bytes = 25 * 1024 * 1024

abbrev blank : Text → Bool
blank text = is_empty (trim_space text)

unfoldable pub has_blank_host : List InventoryHost → Bool
has_blank_host = any (λ host. blank host.host_id || blank host.hostname)

-- The first package that lacks something decides which message is given.
unfoldable pub bad_package : List SnapshotPackage → Option Text
bad_package [] = none
bad_package (p ∷ packages) =
    let rest = bad_package packages in
    if blank p.software_package_id
      || blank p.host_id
      || blank p.name
      || blank p.version
      || blank p.source
    then some (
        codes "softwarePackageId, hostId, name, version, and source are required for every package")
    else if is_zero_time p.first_seen_at || is_zero_time p.last_seen_at
    then some (codes "firstSeenAt and lastSeenAt are required for every package")
    else rest

-- The message of the first test that fails.
unfoldable pub validate_snapshot : InventorySnapshot → Option Text
unfolding ◌==◌
validate_snapshot s =
    if not (s.contract_version == contract_version)
    then some (codes "unsupported contractVersion")
    else if blank s.org_id
    then some (codes "orgId is required")
    else if blank s.snapshot_id
    then some (codes "snapshotId is required")
    else if not (s.snapshot_type == codes "full")
        && not (s.snapshot_type == codes "incremental")
        && not (s.snapshot_type == codes "tombstone")
    then some (codes "snapshotType must be full, incremental, or tombstone")
    else if is_zero_time s.generated_at
    then some (codes "generatedAt is required")
    else if ltb max_hosts (length s.hosts)
    then some (codes "hosts must contain at most 500 rows")
    else if ltb max_packages (length s.packages)
    then some (codes "packages must contain at most 25000 rows")
    else if has_blank_host s.hosts
    then some (codes "hostId and hostname are required for every host")
    else bad_package s.packages

unfoldable pub connection_for_org : List Connection → Text → Option Connection
unfolding ◌==◌
connection_for_org [] org_id = none
connection_for_org (c ∷ connections) org_id =
    if c.org_id == org_id then some c else connection_for_org connections org_id

-- The connection, where it has tokens.
unfoldable pub usable : Option Connection → Option Connection
usable none = none
usable (some c) = if is_empty c.inventory_tokens then none else some c

unfoldable pub service_error : VerifyError → Reply
service_error (auth e) = failed e.status (refused e) e.retryable
service_error other = failed 500 service_auth_failed true

unfoldable pub set_action : Text → InventorySnapshotResult → InventorySnapshotResult
set_action action r = record {
  accepted = r.accepted;
  snapshot_id = r.snapshot_id;
  hosts_accepted = r.hosts_accepted;
  packages_accepted = r.packages_accepted;
  rows_rejected = r.rows_rejected;
  next_action = action;
}

module _ {S : Type 0} (lib : Library) (h : Handler S) (now : Time) where
  unfoldable pub options : Request → Text → Text → Text → Connection → VerifyOptions S
  options request body scope org_id connection = record {
    method = request.method;
    path = request.path;
    body = body;
    headers = request.headers;
    required_scope = scope;
    org_id = org_id;
    tokens = connection.inventory_tokens;
    nonce_store = some h.store.nonces;
    now = now;
    clock = now;
  }

  -- The result is stored again, whether the delivery succeeded or not; errors of these two calls are
  -- dropped.
  unfoldable pub after_delivery :
      InventorySnapshot → InventorySnapshotResult → Delivery S → Reply × S
  after_delivery snapshot result d =
      let told =
        (h.store.record_connection_error snapshot.org_id (codes "finding_delivery_failed")
          d.state).1 in
      let retry = set_action (codes "retry_findings") result in
      let final = if d.delivered then result else retry in
      let state = if d.delivered then d.state else told in
      (accepted final, (h.store.update_response snapshot.org_id snapshot.snapshot_id final state).1)

  unfoldable pub after_apply :
      Connection → InventorySnapshot → Option InventorySnapshotApplyResult × S → Reply × S
  after_apply connection snapshot (none, s) = (failed 500 inventory_snapshot_failed true, s)
  after_apply connection snapshot (some applied, s) =
      let result =
        if is_empty applied.response.next_action
        then set_action (codes "none") applied.response
        else applied.response in
      if not (is_empty applied.findings) && not applied.replayed
      then after_delivery snapshot result
          (deliver_findings lib h.callback connection now applied.findings s)
      else (accepted result, s)

  unfoldable pub after_verify :
      Connection → InventorySnapshot → Verified ServiceToken × S → Reply × S
  after_verify connection snapshot (err e, s) = (service_error e, s)
  after_verify connection snapshot (ok _, s) =
      after_apply connection snapshot (h.store.apply_snapshot snapshot now s)

  unfoldable pub for_connection : Request → InventorySnapshot → Option Connection → S → Reply × S
  for_connection request snapshot none s = (failed 403 unknown_org false, s)
  for_connection request snapshot (some connection) s = after_verify connection snapshot (
      verify_service_request lib
        (options request request.body scope_inventory_write snapshot.org_id connection) s)

  unfoldable pub for_valid : Request → InventorySnapshot → Option Text → S → Reply × S
  for_valid request snapshot (some message) s = (failed 400 (invalid_payload message) false, s)
  for_valid request snapshot none s =
      for_connection request snapshot (usable (connection_for_org h.connections snapshot.org_id)) s

  unfoldable pub for_snapshot : Request → Option InventorySnapshot → S → Reply × S
  for_snapshot request none s = (failed 400 invalid_json false, s)
  for_snapshot request (some snapshot) s = for_valid request snapshot (validate_snapshot snapshot) s

  unfoldable pub serve_inventory_snapshot : Request → S → Reply × S
  unfolding ◌==◌
  serve_inventory_snapshot request s =
      if not (request.method == codes "POST")
      then (failed 405 method_not_allowed false, s)
      else if ltb max_body_bytes (length request.body)
      then (failed 413 payload_too_large false, s)
      else for_snapshot request (h.decode request.body) s

  unfoldable pub after_health : Request → Option ConnectionHealth × S → Reply × S
  unfolding ◌==◌
  after_health request (none, s) = (failed 500 connection_health_failed true, s)
  after_health request (some found, s) =
      let shown : ConnectionHealth = record {
        configured = true;
        enabled = found.enabled;
        last_inventory_push_at = found.last_inventory_push_at;
        last_finding_ingest_at = found.last_finding_ingest_at;
        last_health_check_at = found.last_health_check_at;
        last_error_code = found.last_error_code;
        last_error_at = found.last_error_at;
        contract_version = contract_version;
      } in
      (if request.method == codes "HEAD" then empty_ok else health shown, s)

  unfoldable pub after_record : Request → Text → Bool × S → Reply × S
  after_record request org_id (false, s) = (failed 500 connection_health_failed true, s)
  after_record request org_id (true, s) = after_health request (h.store.connection_health org_id s)

  unfoldable pub after_verify_health : Request → Text → Verified ServiceToken × S → Reply × S
  after_verify_health request org_id (err e, s) = (service_error e, s)
  after_verify_health request org_id (ok _, s) =
      after_record request org_id (h.store.record_connection_health org_id s)

  unfoldable pub health_for : Request → Text → Option Connection → S → Reply × S
  health_for request org_id none s = (failed 403 unknown_org false, s)
  health_for request org_id (some connection) s =
      after_verify_health request org_id
        (verify_service_request lib (options request [] scope_connection_read org_id connection) s)

  unfoldable pub serve_connection_health : Request → S → Reply × S
  unfolding ◌==◌ trim_space
  serve_connection_health request s =
      let org_id = trim_space request.query_org_id in
      if not (request.method == codes "GET") && not (request.method == codes "HEAD")
      then (failed 405 method_not_allowed false, s)
      else if is_empty org_id
      then (failed 400 missing_org_id false, s)
      else health_for request org_id (usable (connection_for_org h.connections org_id)) s

-- What a run on given values unfolds.
unfoldable pub serving : Unit {0}
unfolding verifying serve_inventory_snapshot for_snapshot for_valid for_connection after_verify
    after_apply after_delivery options set_action service_error usable connection_for_org
    validate_snapshot bad_package has_blank_host deliver_findings
serving = tt
