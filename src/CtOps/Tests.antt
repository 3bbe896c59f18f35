-- ===== src/CtOps/Tests.antt =====
-- Runs of the protocol, and the theorems at concrete requests.
use ct_cve.Base.{
  ◌==◌, ◌+◌, ◌*◌, ◌≡◌, ◌≢◌, refl, arith, Text, codes, ◌++◌, some, none, true, false, List, [], ◌∷◌,
}
use ct_cve.CtOps.Time.{Time, timestamptz, minutes, exceeds, abs_duration, sub_time}
use ct_cve.CtOps.Types.{ServiceToken, scope_inventory_write}
use ct_cve.CtOps.Nonces.{NonceRow, postgres_nonce_store, remember_in_table}
use ct_cve.CtOps.Nonces.Replay.{Call, run_calls, remembered-refused}
use ct_cve.CtOps.Nonces.Until.{remember_in_table-until}
use ct_cve.CtOps.Auth.{
  nonce_ttl, find_token, has_scope, max_clock_skew, Library, Headers, SignOptions, VerifyOptions,
  ok, err, auth, auth_error, verify_service_request, sign_service_request, parse_timestamp,
  verifying, replayed_nonce, timestamp_out_of_range,
}
use ct_cve.CtOps.Auth.Laws.{verify_service_request-ok, MayUse, IsSigned, IsRecentOrFarAhead}
use ct_cve.CtOps.Auth.RoundTrip.{received, signed_at, verify-sign_service_request}
use ct_cve.CtOps.Auth.Replay.{replay-refused}

abbrev noon : Time
noon = 63_900_000_000 * 1_000_000_000

abbrev hash : Text
hash = codes "e3b0c44298fc1c149afbf4c8996fb92427ae41e4649b934ca495991b7852b855"

abbrev lib : Library
lib = record {
  sha256_hex = λ _. hash;
  hmac_base64 = λ secret input. secret ++ input;
  parse_rfc3339 = λ s. some noon;
  parse_rfc3339_nano = λ _. none;
  format_rfc3339 = λ _. codes "2024-12-01T12:00:00Z";
  to_upper = λ s. s;
}

abbrev pusher : ServiceToken
pusher = record {
  id = codes "push-1";
  secret = codes "s";
  org_id = codes "org";
  scopes = scope_inventory_write ∷ [];
  revoked = false;
}

abbrev signing : SignOptions
signing = record {
  method = codes "POST";
  path = codes "/api";
  body = codes "{}";
  token = pusher;
  nonce = codes "n1";
  timestamp = noon;
  clock = noon;
  random_nonce = codes "r";
}

abbrev headers : Headers
headers = sign_service_request lib signing

abbrev request : Time → VerifyOptions (List NonceRow)
request now = record {
  method = codes "POST";
  path = codes "/api";
  body = codes "{}";
  headers = headers;
  required_scope = scope_inventory_write;
  org_id = codes "org";
  tokens = pusher ∷ [];
  nonce_store = some (postgres_nonce_store false);
  now = now;
  clock = noon;
}

abbrev at_noon : VerifyOptions (List NonceRow)
at_noon = request noon

abbrev at_one_past : VerifyOptions (List NonceRow)
at_one_past = request (noon + minutes 1)

abbrev late : VerifyOptions (List NonceRow)
late = request (noon + minutes 6)

abbrev row : NonceRow
row = record { token_id = codes "push-1"; nonce = codes "n1"; expires_at = noon + minutes 10 }

verify_runs :
    (verify_service_request lib at_noon [] ≡ (ok pusher, row ∷ []))
    × (verify_service_request lib at_one_past (row ∷ [])
        ≡ (err (auth (auth_error replayed_nonce 401)), row ∷ []))
    × (verify_service_request lib late []
        ≡ (err (auth (auth_error timestamp_out_of_range 401)), []))
unfolding verifying
verify_runs = (refl, refl, refl)

abbrev other_call : Call
other_call = record {
  token_id = codes "push-2";
  nonce = codes "n1";
  expires_at = noon + minutes 11;
  now = noon + minutes 1;
}

accepted-at_noon : (verify_service_request lib at_noon []).0 ≡ ok pusher
unfolding verifying
accepted-at_noon = refl

verify_service_request-ok_example :
    MayUse lib at_noon pusher × IsSigned lib at_noon pusher × IsRecentOrFarAhead lib at_noon
verify_service_request-ok_example = verify_service_request-ok lib at_noon pusher [] accepted-at_noon

parsed : parse_timestamp lib headers.timestamp ≡ some noon
unfolding verifying
parsed = refl

abbrev other : Call
other = record { token_id = codes "u"; nonce = codes "n"; expires_at = 14_000; now = 4_000 }

new : (remember_in_table (codes "t") (codes "n") 10_500 0 []).0 ≡ some true
unfolding verifying
new = refl

replay-refused_example :
    (verify_service_request lib at_one_past
      (run_calls (verify_service_request lib at_noon []).1 (other_call ∷ []))).0
    ≢ ok pusher
unfolding timestamptz
replay-refused_example =
    replay-refused lib at_noon at_one_past pusher pusher noon [] (other_call ∷ []) refl refl
      accepted-at_noon refl refl parsed parsed (omega arith) (omega arith) (omega arith, tt)
      (ground arith)

remembered-refused_example :
    (remember_in_table
      (codes "t")
      (codes "n")
      30_000
      9_999
      (run_calls (remember_in_table (codes "t") (codes "n") 10_500 0 []).1 (other ∷ []))).0
    ≡ some false
unfolding timestamptz
remembered-refused_example =
    remembered-refused (codes "t") (codes "n") 10_500 30_000 0 9_999 [] (other ∷ []) new
      (omega arith, tt) (omega arith)

remember_in_table-until_example :
    (remember_in_table
      (codes "t")
      (codes "n")
      20_000
      10_000
      (run_calls (remember_in_table (codes "t") (codes "n") 10_500 0 []).1 (other ∷ []))).0
    ≡ some true
unfolding timestamptz ◌==◌
remember_in_table-until_example =
    remember_in_table-until (codes "t") (codes "n") 10_500 20_000 0 10_000 [] (other ∷ []) new
      ((refl, omega arith), tt)

signed_facts :
    (find_token (pusher ∷ []) pusher.id ≡ some pusher)
    × (has_scope pusher scope_inventory_write ≡ true)
    × (parse_timestamp lib (lib.format_rfc3339 (signed_at signing)) ≡ some noon)
    × (exceeds (abs_duration (sub_time (noon + minutes 1) noon)) max_clock_skew ≡ false)
    × (remember_in_table pusher.id (codes "n1") (noon + minutes 1 + nonce_ttl) (noon + minutes 1) []
        ≡ (
          some true,
          record {
            token_id = pusher.id;
            nonce = codes "n1";
            expires_at = noon + minutes 1 + nonce_ttl;
          }
              ∷ [],
        ))
unfolding verifying
signed_facts = (refl, refl, refl, refl, refl)

verify-sign_service_request_example :
    verify_service_request lib
      (received lib signing
        (pusher ∷ [])
        scope_inventory_write
        (codes "org")
        (postgres_nonce_store false)
        (noon + minutes 1))
      []
    ≡ (
      ok pusher,
      record { token_id = pusher.id; nonce = codes "n1"; expires_at = noon + minutes 1 + nonce_ttl }
          ∷ [],
    )
verify-sign_service_request_example =
    let (found, scoped, parsed, recent, new) = signed_facts in
    verify-sign_service_request lib signing (pusher ∷ []) scope_inventory_write (codes "org")
      (postgres_nonce_store false) (noon + minutes 1) noon [] _
      (refl, (refl, (refl, (refl, (refl, (refl, tt)))))) found refl scoped refl parsed recent refl
      refl refl new
