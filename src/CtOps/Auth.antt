-- ===== src/CtOps/Auth.antt =====
-- The verification and the signing of service requests: internal/ctops/service_token.go.
pub mod Laws
pub mod Replay
pub mod RoundTrip
use ct_cve.Base.{
  is_space, ℕ, ◌+◌, Text, codes, ◌==◌, ◌++◌, trim_space, has_prefix, to_lower, ℤ, nat_eq, leb, Bool,
  true, false, not, ◌&&◌, ◌||◌, any, is_empty, length, drop, if◌then◌else◌, Option, some, none,
  List, [], ◌∷◌, take_while, drop_while, map,
}
use ct_cve.CtOps.Time.{timestamptz, Time, is_zero_time, minutes, sub_time, abs_duration, exceeds}
use ct_cve.CtOps.Types.{ServiceToken}
use ct_cve.CtOps.Nonces.{nonce_row, NonceStore, remember_in_table, has_row, delete_expired}

-- Functions of Go's standard library, on which the protocol rests.
pub record Library : Type 0 where
  -- hex.EncodeToString of sha256.Sum256
  pub sha256_hex : Text → Text
  -- base64.RawURLEncoding of hmac.New(sha256.New, secret) over the input
  pub hmac_base64 : (secret input : Text) → Text
  -- time.Parse with RFC3339, RFC3339Nano
  pub parse_rfc3339 : Text → Option Time
  pub parse_rfc3339_nano : Text → Option Time
  -- UTC().Format with RFC3339
  pub format_rfc3339 : Time → Text
  pub to_upper : Text → Text

-- The headers that the protocol reads; one that is absent reads as empty.
pub record Headers : Type 0 where
  pub authorization : Text
  pub timestamp : Text
  pub nonce : Text
  pub content_sha256 : Text
  pub signature : Text

pub data AuthCode : Type 0 where
  missing_authorization invalid_authorization unknown_token revoked_token : AuthCode
  insufficient_scope org_scope_mismatch missing_header invalid_timestamp : AuthCode
  timestamp_out_of_range content_hash_mismatch invalid_signature replayed_nonce : AuthCode

pub record ServiceAuthError : Type 0 where
  pub code : AuthCode
  pub status : ℕ
  pub retryable : Bool

abbrev pub auth_error : AuthCode → ℕ → ServiceAuthError
auth_error code status = record { code = code; status = status; retryable = false }

-- A service error, or another error: a nonce store that is missing or fails.
pub data VerifyError : Type 0 where
  auth : ServiceAuthError → VerifyError
  other : VerifyError

pub data Verified (A : Type 0) : Type 0 where
  err : VerifyError → Verified A
  ok : A → Verified A

infixl 5 ◌>>◌ ◌>>=◌
abbrev pub ◌>>=◌ : {A B : Type 0} → Verified A → (A → Verified B) → Verified B
err failure >>= next = err failure
ok result >>= next = next result

abbrev pub ◌>>◌ : {B : Type 0} → Verified (Unit {0}) → Verified B → Verified B
check >> next = check >>= λ done. next

abbrev pub refuse_if : Bool → AuthCode → ℕ → Verified (Unit {0})
refuse_if true code status = err (auth (auth_error code status))
refuse_if false code status = ok tt

abbrev pub or_refuse : {A : Type 0} → Option A → AuthCode → ℕ → Verified A
or_refuse none code status = err (auth (auth_error code status))
or_refuse (some a) code status = ok a

abbrev pub auth_scheme : Text
auth_scheme = codes "CT-ServiceToken"

abbrev pub signature_prefix : Text
signature_prefix = codes "v1="

abbrev pub max_clock_skew : ℕ
max_clock_skew = minutes 5

abbrev pub nonce_ttl : ℕ
nonce_ttl = minutes 10

-- strings.Fields, on ASCII text: `word` is the field that is being read.
pub fields_from : Text → Text → List Text
fields_from word [] = if is_empty word then [] else word ∷ []
fields_from word (c ∷ s) =
    let rest = fields_from (if is_space c then [] else word ++ c ∷ []) s in
    if is_space c && not (is_empty word) then word ∷ rest else rest

unfoldable pub fields : Text → List Text
unfolding fields_from
fields s = fields_from [] s

-- The token's id, where the header has two fields of which the first is the scheme.
unfoldable pub authorized_id : List Text → Option Text
unfolding ◌==◌
authorized_id (scheme ∷ id ∷ []) = if scheme == auth_scheme then some id else none
authorized_id _ = none

unfoldable pub find_token : List ServiceToken → Text → Option ServiceToken
unfolding ◌==◌
find_token [] id = none
find_token (token ∷ tokens) id = if token.id == id then some token else find_token tokens id

unfoldable pub has_scope : ServiceToken → Text → Bool
unfolding ◌==◌
has_scope token scope = any (λ candidate. candidate == scope) token.scopes

-- strings.Join of the parts with newlines
unfoldable pub signature_input : Library → (method path timestamp nonce body_hash : Text) → Text
signature_input lib method path timestamp nonce body_hash =
    lib.to_upper method
    ++ (b'\n' ∷ (path ++ (b'\n' ∷ (timestamp ++ (b'\n' ∷ (nonce ++ (b'\n' ∷ body_hash)))))))

unfoldable pub signature : Library → (method path timestamp nonce body_hash secret : Text) → Text
unfolding signature_input
signature lib method path timestamp nonce body_hash secret =
    lib.hmac_base64 secret (signature_input lib method path timestamp nonce body_hash)

-- Equal lengths and equal bytes; that the time taken does not depend on the bytes is not modelled.
unfoldable pub safe_equal : Text → Text → Bool
unfolding ◌==◌
safe_equal a b = nat_eq (length a) (length b) && a == b

-- `None` for the store is a nil NonceStore; `clock` is what time.Now returns.
pub record VerifyOptions (S : Type 0) : Type 0 where
  pub method : Text
  pub path : Text
  pub body : Text
  pub headers : Headers
  pub required_scope : Text
  pub org_id : Text
  pub tokens : List ServiceToken
  pub nonce_store : Option (NonceStore S)
  pub now : Time
  pub clock : Time

-- time.Parse by RFC3339, and where that fails by RFC3339Nano.
unfoldable pub parse_timestamp : Library → Text → Option Time
parse_timestamp lib timestamp = elim (lib.parse_rfc3339 timestamp) [
  | some t ↦ some t
  | none ↦ lib.parse_rfc3339_nano timestamp
]

unfoldable pub any_missing : Headers → Bool
any_missing h =
    is_empty h.timestamp || is_empty h.nonce || is_empty h.content_sha256 || is_empty h.signature

module _ {S : Type 0} (opts : VerifyOptions S) where
  abbrev pub current_time : Time
  current_time = if is_zero_time opts.now then opts.clock else opts.now

  -- The header names a token that may do what is asked.
  unfoldable pub verify_token : Verified ServiceToken
  verify_token = do
    let header = trim_space opts.headers.authorization
    refuse_if (is_empty header) missing_authorization 401
    token_id ← or_refuse (authorized_id (fields header)) invalid_authorization 401
    token ← or_refuse (find_token opts.tokens token_id) unknown_token 401
    refuse_if token.revoked revoked_token 401
    refuse_if (not (has_scope token opts.required_scope)) insufficient_scope 403
    refuse_if (not (token.org_id == opts.org_id)) org_scope_mismatch 403
    ok token

module _ {S : Type 0} (lib : Library) (opts : VerifyOptions S) where
  -- The request is recent, and its body and its other headers are those that were signed.
  unfoldable pub verify_signature : ServiceToken → Verified (Unit {0})
  verify_signature token = do
    refuse_if (any_missing opts.headers) missing_header 401
    request_time ← or_refuse (parse_timestamp lib opts.headers.timestamp) invalid_timestamp 401
    refuse_if (exceeds (abs_duration (sub_time (current_time opts) request_time)) max_clock_skew)
        timestamp_out_of_range 401
    let body_hash = lib.sha256_hex opts.body
    refuse_if
        (not (nat_eq (length opts.headers.content_sha256) 64)
          || not (safe_equal opts.headers.content_sha256 body_hash))
        content_hash_mismatch 401
    refuse_if (not (has_prefix opts.headers.signature signature_prefix)) invalid_signature 401
    let actual = drop (length signature_prefix) opts.headers.signature
    let expected =
        signature lib opts.method opts.path opts.headers.timestamp opts.headers.nonce body_hash
          token.secret
    refuse_if (not (safe_equal actual expected)) invalid_signature 401
    ok tt

  -- What is decided before the nonce is looked up.
  unfoldable pub check_request : Verified ServiceToken
  check_request = do token ← verify_token opts; verify_signature token; ok token

unfoldable pub after_nonce :
    {S : Type 0} → ServiceToken → Option Bool × S → Verified ServiceToken × S
after_nonce token (none, store) = (err other, store)
after_nonce token (some false, store) = (err (auth (auth_error replayed_nonce 401)), store)
after_nonce token (some true, store) = (ok token, store)

-- RememberNonce, where there is a store, with the result that follows.
unfoldable pub use_nonce :
    {S : Type 0}
    → (opts : VerifyOptions S) → ServiceToken
    → Option (NonceStore S)
    → S
    → Verified ServiceToken × S
use_nonce opts token none store = (err other, store)
use_nonce opts token (some nonces) store = after_nonce token (
    nonces.remember_nonce token.id opts.headers.nonce (current_time opts + nonce_ttl)
      (current_time opts) store)

unfoldable pub finish_request :
    {S : Type 0} → (opts : VerifyOptions S) → Verified ServiceToken → S → Verified ServiceToken × S
finish_request opts (err e) store = (err e, store)
finish_request opts (ok token) store = use_nonce opts token opts.nonce_store store

unfoldable pub verify_service_request :
    {S : Type 0} → Library → VerifyOptions S → S → Verified ServiceToken × S
verify_service_request lib opts store = finish_request opts (check_request lib opts) store

-- `clock` is what time.Now returns and `random_nonce` what randomNonce does.
pub record SignOptions : Type 0 where
  pub method : Text
  pub path : Text
  pub body : Text
  pub token : ServiceToken
  pub nonce : Text
  pub timestamp : Time
  pub clock : Time
  pub random_nonce : Text

unfoldable pub sign_service_request : Library → SignOptions → Headers
unfolding signature
sign_service_request lib opts =
    let time = if is_zero_time opts.timestamp then opts.clock else opts.timestamp in
    let timestamp = lib.format_rfc3339 time in
    let nonce = if is_empty opts.nonce then opts.random_nonce else opts.nonce in
    let body_hash = lib.sha256_hex opts.body in
    record {
      authorization = auth_scheme ++ b' ' ∷ opts.token.id;
      timestamp = timestamp;
      nonce = nonce;
      content_sha256 = body_hash;
      signature =
          signature_prefix
          ++ signature lib opts.method opts.path timestamp nonce body_hash opts.token.secret;
    }

-- What a run on given values unfolds.
unfoldable pub verifying : Unit {0}
unfolding verify_service_request finish_request use_nonce after_nonce check_request verify_signature
    verify_token any_missing parse_timestamp safe_equal signature has_scope find_token authorized_id
    fields trim_space has_prefix sign_service_request remember_in_table has_row delete_expired
    sub_time abs_duration nonce_row timestamptz
verifying = tt
