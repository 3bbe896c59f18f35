-- ===== src/CtOps/Handler/Tests.antt =====
-- An empty snapshot that is served, and the theorems at it.
use ct_cve.Base.{◌*◌, ◌≤◌, codes, ◌≡◌, refl, ◌++◌, true, false, some, none, List, [], ◌∷◌, length}
use ct_cve.CtOps.Time.{Time}
use ct_cve.CtOps.Types.{Connection, ServiceToken, contract_version, scope_inventory_write}
use ct_cve.CtOps.Snapshot.{Finding, InventorySnapshot, InventorySnapshotResult, opened}
use ct_cve.CtOps.Nonces.{NonceRow, postgres_nonce_store}
use ct_cve.CtOps.Auth.{Library, sign_service_request}
use ct_cve.CtOps.Delivery.{Callback, deliver_findings}
use ct_cve.CtOps.Delivery.Laws.{IsPrefixDelivery, deliver_findings-IsPrefixDelivery}
use ct_cve.CtOps.Handler.{
  Handler, Request, accepted, serve_inventory_snapshot, serving, max_body_bytes,
}
use ct_cve.CtOps.Handler.Laws.{IsAuthentic, serve_inventory_snapshot-accepted}
use ct_cve.Vuln.Matcher.{below_fixed_version}

abbrev noon : Time
noon = 63_900_000_000 * 1_000_000_000

abbrev lib : Library
lib = record {
  sha256_hex = λ _. codes "e3b0c44298fc1c149afbf4c8996fb92427ae41e4649b934ca495991b7852b855";
  hmac_base64 = λ secret input. secret ++ input;
  parse_rfc3339 = λ s. some noon;
  parse_rfc3339_nano = λ _. none;
  format_rfc3339 = λ _. codes "2024-12-01T12:00:00Z";
  to_upper = λ s. s;
}

abbrev pusher : ServiceToken
pusher = record {
  id = codes "push-1";
  secret = codes "s";
  org_id = codes "org";
  scopes = scope_inventory_write ∷ [];
  revoked = false;
}

abbrev connection : Connection
connection = record {
  name = codes "main";
  org_id = codes "org";
  ct_ops_base_url = codes "https://ops";
  inventory_tokens = pusher ∷ [];
  ct_ops_token = pusher;
}

abbrev callback : Callback (List NonceRow)
callback = record {
  endpoint = λ url. some url;
  batch_id = λ org_id now page. org_id;
  encode = λ batch. some (codes "{}");
  post = λ endpoint body headers s. (some 200, s);
  record_delivery = λ org_id batch_id count s. (true, s);
  random_nonce = λ page. codes "r";
}

abbrev result : InventorySnapshotResult
result = record {
  accepted = true;
  snapshot_id = codes "s1";
  hosts_accepted = 0;
  packages_accepted = 0;
  rows_rejected = 0;
  next_action = codes "none";
}

abbrev snapshot : InventorySnapshot
snapshot = record {
  contract_version = contract_version;
  org_id = codes "org";
  org_slug = codes "org";
  snapshot_id = codes "s1";
  snapshot_type = codes "full";
  generated_at = noon;
  cursor = none;
  hosts = [];
  packages = [];
}

abbrev handler : Handler (List NonceRow)
handler = record {
  connections = connection ∷ [];
  store = record {
    nonces = postgres_nonce_store false;
    apply_snapshot =
        λ snapshot now s. (some (record { response = result; findings = []; replayed = false }), s);
    record_connection_error = λ org_id code s. (true, s);
    update_response = λ org_id snapshot_id r s. (true, s);
    connection_health = λ org_id s. (none, s);
    record_connection_health = λ org_id s. (true, s);
  };
  callback = callback;
  decode = λ body. some snapshot;
}

abbrev request : Request
request = record {
  method = codes "POST";
  path = codes "/p";
  body = codes "{}";
  query_org_id = [];
  headers = sign_service_request lib (record {
    method = codes "POST";
    path = codes "/p";
    body = codes "{}";
    token = pusher;
    nonce = codes "n1";
    timestamp = noon;
    clock = noon;
    random_nonce = [];
  });
}

serve_run : (serve_inventory_snapshot lib handler noon request []).0 ≡ accepted result
unfolding serving
serve_run = refl

serve_inventory_snapshot-accepted_example :
    (request.method ≡ codes "POST")
    × (length request.body ≤ max_body_bytes)
    × IsAuthentic lib handler noon request
serve_inventory_snapshot-accepted_example =
    serve_inventory_snapshot-accepted lib handler noon request [] result serve_run

abbrev finding : Finding
finding = record {
  finding_id = codes "f";
  host_id = codes "h";
  software_package_id = codes "p";
  cve_id = codes "CVE-1";
  status = opened;
  package_name = codes "openssl";
  installed_version = codes "1";
  fixed_version = codes "2";
  source = codes "debian";
  severity = codes "low";
  known_exploited = false;
  confidence = codes "confirmed";
  match_reason = below_fixed_version;
  first_seen_at = 1;
  last_seen_at = 1;
  resolved_at = none;
}

deliver_findings-IsPrefixDelivery_example :
    IsPrefixDelivery
      (finding ∷ finding ∷ [])
      (deliver_findings lib callback connection noon (finding ∷ finding ∷ []) [])
deliver_findings-IsPrefixDelivery_example =
    deliver_findings-IsPrefixDelivery lib callback connection noon (finding ∷ finding ∷ []) []
