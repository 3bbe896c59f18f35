-- ===== src/CtOps/Nonces.antt =====
-- The memory of used nonces: `memoryNonceStore` of internal/ctops/service_token.go and the table
-- behind `RememberNonce` of internal/store/ctops.go. A map or table is a list of its entries.
pub mod Replay
pub mod Until
use ct_cve.Base.{
  ℕ, ◌<◌, ltb, Text, ◌==◌, ◌++◌, Bool, true, false, not, ◌&&◌, any, if◌then◌else◌, Option, some,
  none, List, [], ◌∷◌,
}
use ct_cve.CtOps.Time.{Time, timestamptz}

-- What `VerifyServiceRequest` asks of a store: whether the nonce is new, and the store that
-- remembers it. `none` is an error of the store.
pub record NonceStore (S : Type 0) : Type 0 where
  pub remember_nonce : (token_id nonce : Text) (expires_at now : Time) → S → Option Bool × S

abbrev pub Seen : Type 0
Seen = List (Text × Time)

-- The entries that are kept: those whose expiry is after now.
unfoldable pub purge : Time → Seen → Seen
purge now [] = []
purge now ((key, expiry) ∷ seen) =
    let rest = purge now seen in if ltb now expiry then (key, expiry) ∷ rest else rest

unfoldable pub is_seen : Text → Seen → Bool
unfolding ◌==◌
is_seen key seen = any (λ entry. entry.0 == key) seen

abbrev pub nonce_key : Text → Text → Text
nonce_key token_id nonce = token_id ++ (b':' ∷ nonce)

unfoldable pub remember_in_memory : Text → Text → Time → Time → Seen → Option Bool × Seen
remember_in_memory token_id nonce expires_at now seen =
    let kept = purge now seen in
    if is_seen (nonce_key token_id nonce) kept
    then (some false, kept)
    else (some true, (nonce_key token_id nonce, expires_at) ∷ kept)

abbrev pub memory_nonce_store : NonceStore Seen
memory_nonce_store = record { remember_nonce = remember_in_memory }

-- A row of ct_cve_service_nonces, whose key is the token's id and the nonce.
pub record NonceRow : Type 0 where
  pub token_id : Text
  pub nonce : Text
  pub expires_at : Time

-- DELETE; the parameter and the column are a timestamptz.
unfoldable pub delete_expired : Time → List NonceRow → List NonceRow
unfolding timestamptz
delete_expired now [] = []
delete_expired now (row ∷ rows) =
    let rest = delete_expired now rows in
    if ltb (timestamptz now) row.expires_at then row ∷ rest else rest

unfoldable pub has_row : Text → Text → List NonceRow → Bool
unfolding ◌==◌
has_row token_id nonce rows = any (λ row. row.token_id == token_id && row.nonce == nonce) rows

-- The row that is inserted.
unfoldable pub nonce_row : Text → Text → Time → NonceRow
unfolding timestamptz
nonce_row token_id nonce expires_at = record {
  token_id = token_id;
  nonce = nonce;
  expires_at = timestamptz expires_at;
}

-- DELETE of what has expired, then INSERT with ON CONFLICT DO NOTHING.
unfoldable pub remember_in_table :
    Text → Text → Time → Time → List NonceRow → Option Bool × List NonceRow
remember_in_table token_id nonce expires_at now rows =
    let kept = delete_expired now rows in
    if has_row token_id nonce kept
    then (some false, kept)
    else (some true, nonce_row token_id nonce expires_at ∷ kept)

-- With a database that fails, each statement returns its error and changes nothing.
abbrev pub postgres_nonce_store : Bool → NonceStore (List NonceRow)
postgres_nonce_store failing = record {
  remember_nonce = λ token_id nonce expires_at now rows.
      if failing then (none, rows) else remember_in_table token_id nonce expires_at now rows;
}
