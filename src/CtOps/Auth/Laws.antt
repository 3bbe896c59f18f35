-- ===== src/CtOps/Auth/Laws.antt =====
-- What the acceptance of a service request says about it.
use ct_cve.Base.{
  ℕ, ◌+◌, ◌^◌, ◌≤◌, Text, ◌==◌, eq_sound, ◌++◌, length, drop, has_prefix, trim_space, nat_eq, ◌≡◌,
  refl, sym, ap, arith, Bool, true, false, not, ◌||◌, Option, some, none, List, [], ◌∷◌, is_empty,
  ◌⊎◌,
}
use ct_cve.CtOps.Time.{Time, abs_duration, sub_time, exceeds, exceeds_cases}
use ct_cve.CtOps.Types.{ServiceToken}
use ct_cve.CtOps.Nonces.{NonceStore}
use ct_cve.CtOps.Auth.{
  missing_authorization, invalid_authorization, unknown_token, revoked_token, insufficient_scope,
  org_scope_mismatch, missing_header, invalid_timestamp, timestamp_out_of_range,
  content_hash_mismatch, invalid_signature, AuthCode, Library, VerifyOptions, VerifyError, Verified,
  ok, err, refuse_if, or_refuse, ◌>>=◌, ◌>>◌, fields, authorized_id, find_token, has_scope,
  signature, signature_prefix, safe_equal, parse_timestamp, any_missing, current_time,
  max_clock_skew, verify_token, verify_signature, check_request, finish_request, use_nonce,
  after_nonce, nonce_ttl, verify_service_request,
}

refuse_if-ok :
    {B : Type 0} (b : Bool) (c : AuthCode) (status : ℕ) (k : Verified B) (x : B)
    → (refuse_if b c status >> k) ≡ ok x
    → (b ≡ false) × (k ≡ ok x)
refuse_if-ok true c status k x h = ground arith
refuse_if-ok false c status k x h = (refl, h)

or_refuse-ok :
    {A B : Type 0} (o : Option A) (c : AuthCode) (status : ℕ) (f : A → Verified B) (x : B)
    → (or_refuse o c status >>= f) ≡ ok x
    → (a : A) × (o ≡ some a) × (f a ≡ ok x)
or_refuse-ok none c status f x h = ground arith
or_refuse-ok (some a) c status f x h = (a, refl, h)

-- The token is one of the tokens.
abbrev pub Listed : ServiceToken → List ServiceToken → Type 0
Listed token [] = ⊥
Listed token (t ∷ tokens) = (token ≡ t) ⊎ Listed token tokens

bind-ok :
    {A B : Type 0} (m : Verified A) (f : A → Verified B) (x : B)
    → (m >>= f) ≡ ok x
    → (a : A) × (m ≡ ok a) × (f a ≡ ok x)
bind-ok (err e) f x h = ground arith
bind-ok (ok a) f x h = (a, refl, h)

after_nonce-ok :
    {S : Type 0} (t token : ServiceToken) (r : Option Bool × S)
    → (after_nonce t r).0 ≡ ok token
    → t ≡ token
unfolding after_nonce
after_nonce-ok t token (none, s) h = ground arith
after_nonce-ok t token (some false, s) h = ground arith
after_nonce-ok t token (some true, s) h = ground arith

-- RememberNonce returns the token that was checked.
use_nonce-ok :
    {S : Type 0} (opts : VerifyOptions S) (t token : ServiceToken) (nonces : Option (NonceStore S))
    (store : S)
    → (use_nonce opts t nonces store).0 ≡ ok token
    → t ≡ token
unfolding use_nonce after_nonce
use_nonce-ok opts t token none store h = ground arith
use_nonce-ok opts t token (some nonces) store h =
    after_nonce-ok t token
      (nonces.remember_nonce t.id opts.headers.nonce (current_time opts + nonce_ttl)
        (current_time opts) store)
      h

finish_request-ok :
    {S : Type 0} (opts : VerifyOptions S) (checked : Verified ServiceToken) (token : ServiceToken)
    (store : S)
    → (finish_request opts checked store).0 ≡ ok token
    → checked ≡ ok token
unfolding finish_request
finish_request-ok opts (err e) token store h = ground arith
finish_request-ok opts (ok t) token store h =
    ap ok (use_nonce-ok opts t token opts.nonce_store store h)

find_token-id :
    (tokens : List ServiceToken) (id : Text) (token : ServiceToken)
    → find_token tokens id ≡ some token
    → Listed token tokens × (token.id ≡ id)
unfolding find_token
find_token-id [] id token h = ground arith
find_token-id (t ∷ tokens) id token h =
    ground (arith, find_token-id tokens id token, eq_sound t.id id)

safe_equal_sound : (a b : Text) → safe_equal a b ≡ true → a ≡ b
unfolding safe_equal
safe_equal_sound a b h = ground (arith, eq_sound a b)

drop-has_prefix : (s p : Text) → has_prefix s p ≡ true → s ≡ p ++ drop (length p) s
unfolding has_prefix
drop-has_prefix s [] h = refl
drop-has_prefix [] (_ ∷ _) h = ground arith
drop-has_prefix (c ∷ s) (x ∷ p) h = ground (arith, drop-has_prefix s p)

module _ {S : Type 0} (lib : Library) (opts : VerifyOptions S) where
  -- The token that the header names may be used for what is asked.
  abbrev pub MayUse : ServiceToken → Type 0
  MayUse token =
      Listed token opts.tokens
      × (authorized_id (fields (trim_space opts.headers.authorization)) ≡ some token.id)
      × (token.revoked ≡ false)
      × (has_scope token opts.required_scope ≡ true)
      × (token.org_id ≡ opts.org_id)

  -- The headers carry the hash of the body and the signature by the token's secret.
  abbrev pub IsSigned : ServiceToken → Type 0
  IsSigned token =
      (any_missing opts.headers ≡ false)
      × (opts.headers.content_sha256 ≡ lib.sha256_hex opts.body)
      × (opts.headers.signature
          ≡ signature_prefix
            ++ signature lib opts.method opts.path opts.headers.timestamp opts.headers.nonce
                (lib.sha256_hex opts.body) token.secret)

  -- The clock and the timestamp are within the allowed skew of each other, or the timestamp is 2^63
  -- nanoseconds (292 years) or more ahead of the clock, where the code's difference overflows.
  abbrev pub IsRecentOrFarAhead : Type 0
  IsRecentOrFarAhead =
      (t : Time) × (parse_timestamp lib opts.headers.timestamp ≡ some t)
      × (((current_time opts ≤ t + max_clock_skew) × (t ≤ current_time opts + max_clock_skew))
          ⊎ (current_time opts + 2 ^ 63 ≤ t))

  token_checks-ok :
      (t token : ServiceToken)
      → (refuse_if t.revoked revoked_token 401
          >> (refuse_if (not (has_scope t opts.required_scope)) insufficient_scope 403
              >> (refuse_if (not (t.org_id == opts.org_id)) org_scope_mismatch 403 >> ok t)))
        ≡ ok token
      → (t ≡ token)
        × (token.revoked ≡ false)
        × (has_scope token opts.required_scope ≡ true)
        × (token.org_id ≡ opts.org_id)
  token_checks-ok t token h = ground (arith, eq_sound t.org_id opts.org_id)

  verify_token-ok : (token : ServiceToken) → verify_token opts ≡ ok token → MayUse token
  unfolding verify_token
  verify_token-ok token h =
      let header = trim_space opts.headers.authorization in
      let (_, h1) = refuse_if-ok (is_empty header) missing_authorization 401 _ token h in
      let (id, p, h2) =
        or_refuse-ok (authorized_id (fields header)) invalid_authorization 401 _ token h1 in
      let (t, q, h3) = or_refuse-ok (find_token opts.tokens id) unknown_token 401 _ token h2 in
      let (e, r, sc, o) = token_checks-ok t token h3 in
      let (m, same) = find_token-id opts.tokens id t q in ((rw (sym e) m), cc, r, sc, o)

  content_checks-ok :
      (token : ServiceToken) (hash expected : Text)
      → (refuse_if
            (not (nat_eq (length opts.headers.content_sha256) 64)
              || not (safe_equal opts.headers.content_sha256 hash))
            content_hash_mismatch
            401
          >> (refuse_if
                (not (has_prefix opts.headers.signature signature_prefix))
                invalid_signature
                401
              >> (refuse_if
                    (not
                      (safe_equal (drop (length signature_prefix) opts.headers.signature) expected))
                    invalid_signature
                    401
                  >> ok (tt {0}))))
        ≡ ok (tt {0})
      → (opts.headers.content_sha256 ≡ hash)
        × (opts.headers.signature ≡ signature_prefix ++ expected)
  content_checks-ok token hash expected h =
      let hs = opts.headers in
      ground (
        arith,
        safe_equal_sound hs.content_sha256 hash,
        drop-has_prefix hs.signature signature_prefix,
        safe_equal_sound (drop (length signature_prefix) hs.signature) expected,
      )

  verify_signature-ok :
      (token : ServiceToken)
      → verify_signature lib opts token ≡ ok tt
      → IsSigned token × IsRecentOrFarAhead
  unfolding verify_signature
  verify_signature-ok token h =
      let hs = opts.headers in
      let hash = lib.sha256_hex opts.body in
      let (a, h1) = refuse_if-ok (any_missing hs) missing_header 401 _ tt h in
      let (t, p, h2) =
        or_refuse-ok (parse_timestamp lib hs.timestamp) invalid_timestamp 401 _ tt h1 in
      let (b, h3) =
        refuse_if-ok (exceeds (abs_duration (sub_time (current_time opts) t)) max_clock_skew)
          timestamp_out_of_range 401 _ tt h2 in
      let (c, d) = content_checks-ok token hash _ h3 in
      ((a, c, d), (t, p, exceeds_cases (current_time opts) t max_clock_skew (omega arith) b))

  check_request-ok :
      (token : ServiceToken)
      → check_request lib opts ≡ ok token
      → MayUse token × IsSigned token × IsRecentOrFarAhead
  unfolding check_request
  check_request-ok token h =
      let (t, e, h1) = bind-ok (verify_token opts) _ token h in
      let (u, f, h2) = bind-ok (verify_signature lib opts t) _ token h1 in
      let same : t ≡ token = ground arith in
      let (signed, recent) = verify_signature-ok t f in
      ((rw (sym same) (verify_token-ok t e)), (rw (sym same) signed), recent)

  -- An accepted request: the header names a listed token that is not revoked, has the required
  -- scope and belongs to the organisation; the body and the other headers are signed with the
  -- token's secret; and the timestamp is within the allowed skew of the clock, or 2^63 nanoseconds
  -- or more ahead of it.
  pub verify_service_request-ok :
      (token : ServiceToken) (store : S)
      → (verify_service_request lib opts store).0 ≡ ok token
      → MayUse token × IsSigned token × IsRecentOrFarAhead
  unfolding verify_service_request
  verify_service_request-ok token store h =
      check_request-ok token (finish_request-ok opts (check_request lib opts) token store h)

  -- A request that fails a check before the nonce leaves the store as it was.
  pub verify_service_request-err :
      (e : VerifyError) (store : S)
      → check_request lib opts ≡ err e
      → verify_service_request lib opts store ≡ (err e, store)
  unfolding verify_service_request finish_request
  verify_service_request-err e store h = rw h
