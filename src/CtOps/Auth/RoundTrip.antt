-- ===== src/CtOps/Auth/RoundTrip.antt =====
-- A request that is signed by `SignServiceRequest` is verified by `VerifyServiceRequest`.
use ct_cve.Base.{
  ◌+◌, Text, codes, eq_refl, eq_iff, ◌++◌, append_assoc, append-nil, length, drop, has_prefix,
  trim_space, ◌≡◌, refl, sym, ap, ◌∙◌, arith, true, false, some, List, [], ◌∷◌, is_empty, All,
  if◌then◌else◌,
}
use ct_cve.Base.Trim.{IsSolid, IsWord, IsWord-EndsIn, trim_space-same}
use ct_cve.CtOps.Time.{Time, is_zero_time, abs_duration, sub_time, exceeds}
use ct_cve.CtOps.Types.{ServiceToken}
use ct_cve.CtOps.Nonces.{NonceStore}
use ct_cve.CtOps.Auth.{
  Library, VerifyOptions, SignOptions, ok, auth_scheme, fields_from, fields, authorized_id,
  find_token, has_scope, signature, signature_prefix, safe_equal, parse_timestamp, any_missing,
  current_time, max_clock_skew, verify_token, verify_signature, check_request, finish_request,
  use_nonce, after_nonce, nonce_ttl, verify_service_request, sign_service_request,
}

abbrev header_of : Text → Text
header_of id = auth_scheme ++ b' ' ∷ id

trim-header : (id : Text) → IsWord id → trim_space (header_of id) ≡ header_of id
trim-header id h =
    let (before, d, (e, k)) = IsWord-EndsIn id h in
    trim_space-same b'C' (codes "T-ServiceToken" ++ b' ' ∷ id) (header_of before) d refl
      (ap header_of e, k)

-- A word is read to its end.
fields_from-solid :
    (word s : Text) → All IsSolid s → fields_from word s ≡ fields_from (word ++ s) []
unfolding fields_from
fields_from-solid word [] h = ap (λ w. fields_from w []) (sym (append-nil word))
fields_from-solid word (c ∷ s) (h, k) = rw h (
    fields_from-solid (word ++ c ∷ []) s k
    ∙ ap (λ w. fields_from w []) (append_assoc word (c ∷ []) s))

fields-header : (id : Text) → IsWord id → fields (header_of id) ≡ auth_scheme ∷ id ∷ []
unfolding fields fields_from
fields-header [] h = elim h [ ]
fields-header (c ∷ s) (h, k) = rw (h, fields_from-solid (c ∷ []) s k)

authorized_id-header : (id : Text) → authorized_id (auth_scheme ∷ id ∷ []) ≡ some id
unfolding authorized_id
authorized_id-header id = refl

sized-hash : (hash : Text) → length hash ≡ 64 → is_empty hash ≡ false
sized-hash [] h = ground arith
sized-hash (_ ∷ _) h = refl

has_prefix-append : (p s : Text) → has_prefix (p ++ s) p ≡ true
unfolding has_prefix
has_prefix-append [] s = refl
has_prefix-append (c ∷ p) s = ground (arith, has_prefix-append p s)

drop-append : (p s : Text) → drop (length p) (p ++ s) ≡ s
drop-append [] s = refl
drop-append (c ∷ p) s = drop-append p s

safe_equal_self : (a : Text) → safe_equal a a ≡ true
unfolding safe_equal
safe_equal_self a = let e = eq_refl a in ground arith

-- The request as it is received, with the scope and the organisation that it is for.
abbrev pub received :
    {S : Type 0}
    → Library
    → SignOptions
    → (tokens : List ServiceToken) → (scope org_id : Text) → NonceStore S
    → (now : Time) → VerifyOptions S
received lib sign tokens scope org_id nonces now = record {
  method = sign.method;
  path = sign.path;
  body = sign.body;
  headers = sign_service_request lib sign;
  required_scope = scope;
  org_id = org_id;
  tokens = tokens;
  nonce_store = some nonces;
  now = now;
  clock = now;
}

-- The time that is signed, and the nonce.
abbrev pub signed_at : SignOptions → Time
signed_at sign = if is_zero_time sign.timestamp then sign.clock else sign.timestamp

abbrev pub signed_nonce : SignOptions → Text
signed_nonce sign = if is_empty sign.nonce then sign.random_nonce else sign.nonce

module _ {S : Type 0} (lib : Library) (sign : SignOptions) (tokens : List ServiceToken)
    (scope org_id : Text) (nonces : NonceStore S) (now t : Time) where
  abbrev opts : VerifyOptions S
  opts = received lib sign tokens scope org_id nonces now

  received-verify_token :
      IsWord sign.token.id
      → find_token tokens sign.token.id ≡ some sign.token
      → sign.token.revoked ≡ false
      → has_scope sign.token scope ≡ true
      → sign.token.org_id ≡ org_id
      → verify_token opts ≡ ok sign.token
  unfolding verify_token sign_service_request has_scope
  received-verify_token word found valid scoped org = rw (
    trim-header sign.token.id word,
    fields-header sign.token.id word,
    authorized_id-header sign.token.id,
    found,
    valid,
    scoped,
    (eq_iff sign.token.org_id org_id).1 org,
  )

  received-verify_signature :
      parse_timestamp lib (lib.format_rfc3339 (signed_at sign)) ≡ some t
      → exceeds (abs_duration (sub_time (current_time opts) t)) max_clock_skew ≡ false
      → is_empty (lib.format_rfc3339 (signed_at sign)) ≡ false
      → is_empty (signed_nonce sign) ≡ false
      → length (lib.sha256_hex sign.body) ≡ 64
      → verify_signature lib opts sign.token ≡ ok tt
  unfolding verify_signature sign_service_request any_missing
  received-verify_signature parsed recent stamped new size =
      let hash = lib.sha256_hex sign.body in
      let sig =
        signature lib sign.method sign.path (lib.format_rfc3339 (signed_at sign))
          (signed_nonce sign) hash sign.token.secret in
      rw (
        stamped,
        new,
        sized-hash hash size,
        parsed,
        recent,
        size,
        safe_equal_self hash,
        has_prefix-append signature_prefix sig,
        safe_equal_self sig,
      )

  checked :
      IsWord sign.token.id
      → find_token tokens sign.token.id ≡ some sign.token
      → sign.token.revoked ≡ false
      → has_scope sign.token scope ≡ true
      → sign.token.org_id ≡ org_id
      → parse_timestamp lib (lib.format_rfc3339 (signed_at sign)) ≡ some t
      → exceeds (abs_duration (sub_time (current_time opts) t)) max_clock_skew ≡ false
      → is_empty (lib.format_rfc3339 (signed_at sign)) ≡ false
      → is_empty (signed_nonce sign) ≡ false
      → length (lib.sha256_hex sign.body) ≡ 64
      → check_request lib opts ≡ ok sign.token
  unfolding check_request
  checked word found valid scoped org parsed recent stamped new size = rw (
    received-verify_token word found valid scoped org,
    received-verify_signature parsed recent stamped new size,
  )

  used :
      (store store' : S)
      → nonces.remember_nonce sign.token.id
          (signed_nonce sign)
          (current_time opts + nonce_ttl)
          (current_time opts)
          store
        ≡ (some true, store')
      → finish_request opts (ok sign.token) store ≡ (ok sign.token, store')
  unfolding finish_request use_nonce sign_service_request after_nonce
  used store store' remembered = rw remembered

  -- A request that was signed is accepted with its token, and its nonce is remembered. The token's id
  -- has a byte and no spaces; the receiver finds the token by it, not revoked, with the scope and of
  -- the organisation; the time that was signed parses to one within the allowed skew; the hash has 64
  -- bytes; the timestamp and the nonce are not empty; and the store takes the nonce as new.
  pub verify-sign_service_request :
      (store store' : S)
      → IsWord sign.token.id
      → find_token tokens sign.token.id ≡ some sign.token
      → sign.token.revoked ≡ false
      → has_scope sign.token scope ≡ true
      → sign.token.org_id ≡ org_id
      → parse_timestamp lib (lib.format_rfc3339 (signed_at sign)) ≡ some t
      → exceeds (abs_duration (sub_time (current_time opts) t)) max_clock_skew ≡ false
      → is_empty (lib.format_rfc3339 (signed_at sign)) ≡ false
      → is_empty (signed_nonce sign) ≡ false
      → length (lib.sha256_hex sign.body) ≡ 64
      → nonces.remember_nonce sign.token.id
          (signed_nonce sign)
          (current_time opts + nonce_ttl)
          (current_time opts)
          store
        ≡ (some true, store')
      → verify_service_request lib opts store ≡ (ok sign.token, store')
  unfolding verify_service_request
  verify-sign_service_request store store' word found valid scoped org parsed recent stamped new
        size remembered =
      rw (
        checked word found valid scoped org parsed recent stamped new size,
        used store store' remembered,
      )
