-- ===== src/CtOps/Handler/Laws.antt =====
-- What an accepted snapshot has passed.
use ct_cve.Base.{
  ◌≤◌, ltb, Text, codes, ◌==◌, eq_sound, ◌≡◌, refl, sym, arith, Bool, true, false, not,
  if◌then◌else◌, Option, some, none, length,
}
use ct_cve.CtOps.Time.{Time}
use ct_cve.CtOps.Types.{Connection, ServiceToken, scope_inventory_write}
use ct_cve.CtOps.Snapshot.{InventorySnapshot, InventorySnapshotResult}
use ct_cve.CtOps.Auth.{Library, Verified, VerifyError, auth, other, err, ok, verify_service_request}
use ct_cve.CtOps.Auth.Laws.{MayUse, IsSigned, IsRecentOrFarAhead, verify_service_request-ok}
use ct_cve.CtOps.Handler.{
  Handler, Request, Reply, accepted, failed, method_not_allowed, payload_too_large,
  validate_snapshot, connection_for_org, usable, options, service_error, after_verify,
  for_connection, for_valid, for_snapshot, serve_inventory_snapshot, max_body_bytes,
}

module _ {S : Type 0} (lib : Library) (h : Handler S) (now : Time) where
  -- The body is a valid snapshot of an organisation with a connection, one of whose tokens signed
  -- the request.
  abbrev pub IsAuthentic : Request → Type 0
  IsAuthentic request =
      (snapshot : InventorySnapshot) × (connection : Connection) × (token : ServiceToken)
      × (h.decode request.body ≡ some snapshot)
      × (validate_snapshot snapshot ≡ none)
      × (usable (connection_for_org h.connections snapshot.org_id) ≡ some connection)
      × (let opts =
            options lib h now request request.body scope_inventory_write snapshot.org_id
              connection in
          MayUse lib opts token × IsSigned lib opts token × IsRecentOrFarAhead lib opts)

  service_error-accepted :
      (e : VerifyError) (r : InventorySnapshotResult) → service_error e ≡ accepted r → ⊥
  unfolding service_error
  service_error-accepted (auth e) r x = ground arith
  service_error-accepted other r x = ground arith

  after_verify-ok :
      (c : Connection) (snapshot : InventorySnapshot) (v : Verified ServiceToken × S)
      (r : InventorySnapshotResult)
      → (after_verify lib h now c snapshot v).0 ≡ accepted r
      → (token : ServiceToken) × (v.0 ≡ ok token)
  unfolding after_verify
  after_verify-ok c snapshot (err e, s) r x = elim (service_error-accepted e r x) [ ]
  after_verify-ok c snapshot (ok token, s) r x = (token, refl)

  for_connection-IsAuthentic :
      (request : Request) (snapshot : InventorySnapshot) (found : Option Connection) (s : S)
      (r : InventorySnapshotResult)
      → h.decode request.body ≡ some snapshot
      → validate_snapshot snapshot ≡ none
      → found ≡ usable (connection_for_org h.connections snapshot.org_id)
      → (for_connection lib h now request snapshot found s).0 ≡ accepted r
      → IsAuthentic request
  unfolding for_connection
  for_connection-IsAuthentic request snapshot none s r d v c x = ground arith
  for_connection-IsAuthentic request snapshot (some connection) s r d v c x =
      let opts =
        options lib h now request request.body scope_inventory_write snapshot.org_id connection in
      let (token, e) =
        after_verify-ok connection snapshot (verify_service_request lib opts s) r x in
      (snapshot, connection, token, d, v, sym c, verify_service_request-ok lib opts token s e)

  for_valid-IsAuthentic :
      (request : Request) (snapshot : InventorySnapshot) (invalid : Option Text) (s : S)
      (r : InventorySnapshotResult)
      → h.decode request.body ≡ some snapshot
      → invalid ≡ validate_snapshot snapshot
      → (for_valid lib h now request snapshot invalid s).0 ≡ accepted r
      → IsAuthentic request
  unfolding for_valid
  for_valid-IsAuthentic request snapshot (some message) s r d v x = ground arith
  for_valid-IsAuthentic request snapshot none s r d v x =
      for_connection-IsAuthentic request snapshot
        (usable (connection_for_org h.connections snapshot.org_id)) s r d (sym v) refl x

  for_snapshot-IsAuthentic :
      (request : Request) (decoded : Option InventorySnapshot) (s : S) (r : InventorySnapshotResult)
      → decoded ≡ h.decode request.body
      → (for_snapshot lib h now request decoded s).0 ≡ accepted r
      → IsAuthentic request
  unfolding for_snapshot
  for_snapshot-IsAuthentic request none s r d x = ground arith
  for_snapshot-IsAuthentic request (some snapshot) s r d x =
      for_valid-IsAuthentic request snapshot (validate_snapshot snapshot) s r (sym d) refl x

  tests-accepted :
      (post big : Bool) (rest : Reply × S) (s : S) (r : InventorySnapshotResult)
      → (if not post
          then (failed 405 method_not_allowed false, s)
          else if big
          then (failed 413 payload_too_large false, s)
          else rest).0
        ≡ accepted r
      → (post ≡ true) × (big ≡ false) × (rest.0 ≡ accepted r)
  tests-accepted true true rest s r x = ground arith
  tests-accepted true false rest s r x = (refl, refl, x)
  tests-accepted false big rest s r x = ground arith

  -- A snapshot is accepted only if the method is POST, the body is at most 25 MiB and decodes to a
  -- valid snapshot, its organisation has a connection with tokens, and one of these tokens, with the
  -- scope to write inventories, signed the request, with a timestamp within the allowed skew of the
  -- clock, or 2^63 nanoseconds or more ahead of it.
  pub serve_inventory_snapshot-accepted :
      (request : Request) (s : S) (r : InventorySnapshotResult)
      → (serve_inventory_snapshot lib h now request s).0 ≡ accepted r
      → (request.method ≡ codes "POST")
        × (length request.body ≤ max_body_bytes)
        × IsAuthentic request
  unfolding serve_inventory_snapshot
  serve_inventory_snapshot-accepted request s r x =
      let rest = for_snapshot lib h now request (h.decode request.body) s in
      let (post, small, e) =
        tests-accepted (request.method == codes "POST") (ltb max_body_bytes (length request.body))
          rest s r x in
      (
        eq_sound request.method (codes "POST") post,
        ground arith,
        for_snapshot-IsAuthentic request (h.decode request.body) s r refl e,
      )
