-- ===== src/Config/Connections.antt =====
-- The connections to CT Ops that the environment names: `ctOpsConnectionsFromEnv` of
-- internal/config/config.go. encoding/json and the quoting of `%q` are parameters.
use ct_cve.Base.{
  ℕ, suc, ltb, Text, codes, ◌==◌, ◌++◌, is_empty, length, trim_space, Bool, not, ◌||◌,
  if◌then◌else◌, List, [], ◌∷◌,
}
use ct_cve.Base.Outcome.{Outcome, done, failed_with, ◌>>=◌, itoa}
use ct_cve.CtOps.Types.{
  ServiceToken, Connection, scope_inventory_write, scope_findings_write, scope_connection_read,
}
use ct_cve.Config.Check.{GoLibrary, normalize_base_url}

pub record RawServiceToken : Type 0 where
  pub id : Text
  pub secret : Text
  pub scopes : List Text
  pub revoked : Bool

pub record RawConnection : Type 0 where
  pub name : Text
  pub org_id : Text
  pub ct_ops_base_url : Text
  pub inventory_tokens : List RawServiceToken
  pub ct_ops_token : RawServiceToken

pub record ConnectionLibrary : Type 0 where
  pub go : GoLibrary
  pub decode : Text → Outcome (List RawConnection)
  pub quote : Text → Text

abbrev pub service_token_min_bytes : ℕ
service_token_min_bytes = 32

abbrev pub connections_name : Text
connections_name = codes "CT_CVE_CT_OPS_CONNECTIONS"

unfoldable pub secret_has_enough_entropy : Text → Bool
secret_has_enough_entropy value = not (ltb (length value) service_token_min_bytes)

unfoldable pub is_scope : Text → Bool
unfolding ◌==◌
is_scope scope =
    (scope == scope_inventory_write)
    || (scope == scope_findings_write)
    || (scope == scope_connection_read)

-- An entry of a list, with the place of the list and its index.
abbrev pub at_index : Text → ℕ → Text
at_index path index = path ++ codes "[" ++ itoa index ++ codes "]"

module _ (lib : ConnectionLibrary) where
  unfoldable pub parse_scopes : Text → List Text → Outcome (List Text)
  unfolding trim_space is_scope
  parse_scopes path [] = done []
  parse_scopes path (raw ∷ raws) =
      let rest = parse_scopes path raws in
      let scope = trim_space raw in
      if is_scope scope
      then (rest >>= λ scopes. done (scope ∷ scopes))
      else failed_with (path ++ codes ".scopes contains unsupported scope " ++ lib.quote raw)

  unfoldable pub token_of : RawServiceToken → Text → Text → Text → List Text → Outcome ServiceToken
  token_of raw org_id path id scopes =
      if is_empty scopes
      then failed_with (path ++ codes ".scopes must include at least one scope")
      else done (record {
        id = id;
        secret = raw.secret;
        org_id = org_id;
        scopes = scopes;
        revoked = raw.revoked;
      })

  unfoldable pub parse_service_token : RawServiceToken → Text → Text → Outcome ServiceToken
  unfolding trim_space secret_has_enough_entropy parse_scopes token_of
  parse_service_token raw org_id path =
      let id = trim_space raw.id in
      if is_empty id || is_empty raw.secret
      then failed_with (path ++ codes " must include id and secret")
      else if not (secret_has_enough_entropy raw.secret)
      then failed_with (path ++ codes ".secret must contain at least 32 bytes of entropy")
      else (parse_scopes path raw.scopes >>= token_of raw org_id path id)

  unfoldable pub parse_tokens : Text → Text → ℕ → List RawServiceToken → Outcome (List ServiceToken)
  unfolding parse_service_token itoa
  parse_tokens org_id path index [] = done []
  parse_tokens org_id path index (raw ∷ raws) =
      let rest = parse_tokens org_id path (suc index) raws in
      parse_service_token raw org_id (at_index (path ++ codes ".inventoryTokens") index)
      >>= λ token. rest >>= λ tokens. done (token ∷ tokens)

  unfoldable pub connection_of :
      Text → Text → Text → RawServiceToken → Text → List ServiceToken → Outcome Connection
  unfolding parse_service_token
  connection_of path name org_id raw_token base_url tokens =
      if is_empty tokens
      then failed_with (path ++ codes ".inventoryTokens must include at least one token")
      else (parse_service_token raw_token org_id (path ++ codes ".ctOpsToken") >>= λ token.
          done (record {
            name = name;
            org_id = org_id;
            ct_ops_base_url = base_url;
            inventory_tokens = tokens;
            ct_ops_token = token;
          }))

  unfoldable pub parse_connection : ℕ → RawConnection → Outcome Connection
  unfolding itoa trim_space normalize_base_url parse_tokens connection_of
  parse_connection index entry =
      let path = at_index connections_name index in
      let name = trim_space entry.name in
      let org_id = trim_space entry.org_id in
      if is_empty name || is_empty org_id
      then failed_with (path ++ codes " must include name and orgId")
      else (normalize_base_url lib.go entry.ct_ops_base_url (path ++ codes ".ctOpsBaseUrl")
          >>= λ url. parse_tokens org_id path 0 entry.inventory_tokens >>= λ tokens.
              connection_of path name org_id entry.ct_ops_token url tokens)

  unfoldable pub parse_connections : ℕ → List RawConnection → Outcome (List Connection)
  unfolding parse_connection
  parse_connections index [] = done []
  parse_connections index (entry ∷ entries) =
      let rest = parse_connections (suc index) entries in
      parse_connection index entry >>= λ connection.
      rest >>= λ connections. done (connection ∷ connections)

  unfoldable pub decoded : Outcome (List RawConnection) → Outcome (List Connection)
  unfolding parse_connections
  decoded (done raw) = parse_connections 0 raw
  decoded (failed_with error) =
      failed_with (connections_name ++ codes " must be valid JSON: " ++ error)

  unfoldable pub ct_ops_connections_from_env : Text → Outcome (List Connection)
  unfolding trim_space decoded
  ct_ops_connections_from_env value =
      if is_empty (trim_space value) then done [] else decoded (lib.decode value)
