-- ===== src/CtOps/Auth/Replay.antt =====
-- Copies of a request, against the table of nonces.
use ct_cve.Base.{
  ◌+◌, ◌≤◌, ◌<◌, ◌^◌, ◌≡◌, ◌≢◌, refl, sym, subst, arith, Bool, true, false, Option, some, none,
  List, All, ◌⊎◌, inl, inr, [], ◌∷◌,
}
use ct_cve.CtOps.Time.{Time, timestamptz}
use ct_cve.CtOps.Types.{ServiceToken}
use ct_cve.CtOps.Nonces.{NonceRow, postgres_nonce_store, remember_in_table}
use ct_cve.CtOps.Nonces.Replay.{Call, AllBefore, run_calls, remembered-refused}
use ct_cve.CtOps.Auth.{
  Library, VerifyOptions, Verified, ok, err, parse_timestamp, current_time, max_clock_skew,
  nonce_ttl, after_nonce, use_nonce, finish_request, check_request, verify_service_request,
}
use ct_cve.CtOps.Auth.Laws.{verify_service_request-ok}

abbrev Options : Type 0
Options = VerifyOptions (List NonceRow)

-- The answer of the table of nonces for the request.
abbrev answer : Options → ServiceToken → List NonceRow → Option Bool × List NonceRow
answer opts token rows =
    remember_in_table token.id opts.headers.nonce (current_time opts + nonce_ttl)
      (current_time opts) rows

after_nonce-true :
    (t token : ServiceToken) (r : Option Bool × List NonceRow)
    → (after_nonce t r).0 ≡ ok token
    → (t ≡ token) × (r.0 ≡ some true) × ((after_nonce t r).1 ≡ r.1)
unfolding after_nonce
after_nonce-true t token (none, s) h = ground arith
after_nonce-true t token (some false, s) h = ground arith
after_nonce-true t token (some true, s) h = (ground arith, refl, refl)

-- The token is new to the table, which remembers it.
abbrev Took :
    Options → ServiceToken → List NonceRow → Verified ServiceToken × List NonceRow → Type 0
Took opts token rows r =
    ((answer opts token rows).0 ≡ some true) × (r.1 ≡ (answer opts token rows).1)

use_nonce-true :
    (opts : Options) (t token : ServiceToken) (rows : List NonceRow)
    → (use_nonce opts t (some (postgres_nonce_store false)) rows).0 ≡ ok token
    → Took opts token rows (use_nonce opts t (some (postgres_nonce_store false)) rows)
unfolding use_nonce
use_nonce-true opts t token rows h =
    let (e, a, b) = after_nonce-true t token (answer opts t rows) h in
    subst (λ u. Took opts u rows (after_nonce t (answer opts t rows))) e (a, b)

finish_request-true :
    (opts : Options) (checked : Verified ServiceToken) (token : ServiceToken) (rows : List NonceRow)
    → opts.nonce_store ≡ some (postgres_nonce_store false)
    → (finish_request opts checked rows).0 ≡ ok token
    → Took opts token rows (finish_request opts checked rows)
unfolding finish_request
finish_request-true opts (err e) token rows s = λ h. ground arith
finish_request-true opts (ok t) token rows s =
    subst
      (λ n. (use_nonce opts t n rows).0 ≡ ok token → Took opts token rows (use_nonce opts t n rows))
      (sym s) (use_nonce-true opts t token rows)

-- The time that a request names is less than 292 years ahead of the clock.
abbrev Near : Time → Time → Type 0
Near t u = u < t + 2 ^ 63

abbrev Within : Time → Time → Type 0
Within now t = (now ≤ t + max_clock_skew) × (t ≤ now + max_clock_skew)

abbrev Accepted : Time → Time → Type 0
Accepted now t = Within now t ⊎ (now + 2 ^ 63 ≤ t)

near_enough : (now t : Time) → t < now + 2 ^ 63 → Accepted now t → Within now t
near_enough now t near (inl within) = within
near_enough now t near (inr far) = ground arith

recent-bounds :
    (lib : Library) (opts : Options) (token : ServiceToken) (t : Time) (rows : List NonceRow)
    → parse_timestamp lib opts.headers.timestamp ≡ some t
    → Near (current_time opts) t
    → (verify_service_request lib opts rows).0 ≡ ok token
    → (current_time opts ≤ t + max_clock_skew) × (t ≤ current_time opts + max_clock_skew)
recent-bounds lib opts token t rows p near h =
    let (_, _, (t', p', e)) = verify_service_request-ok lib opts token rows h in
    let same : t' ≡ t = ground arith in
    near_enough (current_time opts) t near (subst (Accepted (current_time opts)) same e)

verify_service_request-true :
    (lib : Library) (opts : Options) (token : ServiceToken) (rows : List NonceRow)
    → opts.nonce_store ≡ some (postgres_nonce_store false)
    → (verify_service_request lib opts rows).0 ≡ ok token
    → Took opts token rows (verify_service_request lib opts rows)
unfolding verify_service_request
verify_service_request-true lib opts token rows =
    finish_request-true opts (check_request lib opts) token rows

before_cut : (now e : Time) → now ≤ e → timestamptz now ≢ timestamptz e → now < timestamptz e
unfolding timestamptz
before_cut now e h k = ground arith

before_expiry :
    (now e : Time) (calls : List Call)
    → now < e
    → All (λ (c : Call). c.now ≤ now) calls
    → AllBefore e calls
before_expiry now e [] h all = all
before_expiry now e (c ∷ calls) h (a, all) = (omega arith, before_expiry now e calls h all)

-- A request that is accepted, with a table of nonces, is not accepted again: whatever calls came
-- in between at times up to the second one, a request with the same token id, nonce and timestamp
-- is refused, unless it comes in the microsecond in which the nonce expires. The timestamp is
-- less than 292 years ahead of both clocks.
pub replay-refused :
    (lib : Library) (first second : Options) (token token' : ServiceToken) (t : Time)
    (rows : List NonceRow) (calls : List Call)
    → first.nonce_store ≡ some (postgres_nonce_store false)
    → second.nonce_store ≡ some (postgres_nonce_store false)
    → (verify_service_request lib first rows).0 ≡ ok token
    → token'.id ≡ token.id
    → second.headers.nonce ≡ first.headers.nonce
    → parse_timestamp lib first.headers.timestamp ≡ some t
    → parse_timestamp lib second.headers.timestamp ≡ some t
    → Near (current_time first) t
    → Near (current_time second) t
    → All (λ (c : Call). c.now ≤ current_time second) calls
    → timestamptz (current_time second) ≢ timestamptz (current_time first + nonce_ttl)
    → (verify_service_request lib second
        (run_calls (verify_service_request lib first rows).1 calls)).0
      ≢ ok token'
replay-refused lib first second token token' t rows calls s s' h same n p p' near near' before late
      h' =
    let (a, b) = recent-bounds lib first token t rows p near h in
    let (took, stored) = verify_service_request-true lib first token rows s h in
    let store = run_calls (verify_service_request lib first rows).1 calls in
    let (a', b') = recent-bounds lib second token' t store p' near' h' in
    let (took', _) = verify_service_request-true lib second token' store s' h' in
    let expiry = current_time first + nonce_ttl in
    let soon = before_cut (current_time second) expiry (omega (arith, a, b, a', b')) late in
    let refused =
      remembered-refused token.id first.headers.nonce expiry (current_time second + nonce_ttl)
        (current_time first) (current_time second) rows calls took
        (before_expiry (current_time second) (timestamptz expiry) calls soon before) soon in
    cc
