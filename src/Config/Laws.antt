-- ===== src/Config/Laws.antt =====
-- What a configuration that has been loaded satisfies.
use ct_cve.Base.{
  neither, ℕ, suc, ◌≤◌, Text, ◌≡◌, refl, subst, arith, is_empty, length, trim_space, Bool, true,
  false, not, ◌||◌, All, if◌then◌else◌, List, [], ◌∷◌, ◌++◌, codes,
}
use ct_cve.Base.Outcome.{Outcome, done, failed_with, done_parts, bind-done, unless_failed, if_done}
use ct_cve.CtOps.Types.{ServiceToken, Connection}
use ct_cve.Config.Check.{normalize_base_url}
use ct_cve.Config.Connections.{
  RawServiceToken, RawConnection, ConnectionLibrary, is_scope, secret_has_enough_entropy,
  parse_scopes, token_of, parse_service_token, at_index, connections_name, parse_tokens,
  connection_of, parse_connection, parse_connections, decoded, ct_ops_connections_from_env,
}

-- A token of the organisation, with a secret of at least 32 bytes and with known scopes.
pub record IsSafeToken (org_id : Text) (token : ServiceToken) : Type 0 where
  pub has_id : is_empty token.id ≡ false
  pub long_secret : 32 ≤ length token.secret
  pub same_org : token.org_id ≡ org_id
  pub has_scope : is_empty token.scopes ≡ false
  pub known_scopes : All (λ s. is_scope s ≡ true) token.scopes

pub record IsSafe (c : Connection) : Type 0 where
  pub has_name : is_empty c.name ≡ false
  pub has_org : is_empty c.org_id ≡ false
  pub has_tokens : is_empty c.inventory_tokens ≡ false
  pub safe_tokens : All (IsSafeToken c.org_id) c.inventory_tokens
  pub safe_ct_ops_token : IsSafeToken c.org_id c.ct_ops_token

module _ (lib : ConnectionLibrary) where
  parse_scopes-known :
      (path : Text) (raws scopes : List Text)
      → parse_scopes lib path raws ≡ done scopes
      → All (λ s. is_scope s ≡ true) scopes
  unfolding parse_scopes
  parse_scopes-known path [] scopes h = subst (All (λ s. is_scope s ≡ true)) (done_parts h) tt
  parse_scopes-known path (raw ∷ raws) scopes h =
      let (known, k) = if_done (is_scope (trim_space raw)) _ _ scopes h in
      let (later, e, f) = bind-done (parse_scopes lib path raws) _ scopes k in
      subst (All (λ s. is_scope s ≡ true)) (done_parts f)
        (known, parse_scopes-known path raws later e)

  enough : (secret : Text) → not (secret_has_enough_entropy secret) ≡ false → 32 ≤ length secret
  unfolding secret_has_enough_entropy
  enough secret h = ground arith

  parse_service_token-IsSafe :
      (raw : RawServiceToken) (org_id path : Text) (token : ServiceToken)
      → parse_service_token lib raw org_id path ≡ done token
      → IsSafeToken org_id token
  unfolding parse_service_token token_of
  parse_service_token-IsSafe raw org_id path token h =
      let id = trim_space raw.id in
      let (some_id, k) = unless_failed (is_empty id || is_empty raw.secret) _ _ token h in
      let (long, l) = unless_failed (not (secret_has_enough_entropy raw.secret)) _ _ token k in
      let (scopes, e, m) = bind-done (parse_scopes lib path raw.scopes) _ token l in
      let (some_scope, n) = unless_failed (is_empty scopes) _ _ token m in
      subst (IsSafeToken org_id) (done_parts n) (record {
        has_id = (neither (is_empty id) (is_empty raw.secret) some_id).0;
        long_secret = enough raw.secret long;
        same_org = refl;
        has_scope = some_scope;
        known_scopes = parse_scopes-known path raw.scopes scopes e;
      })

  parse_tokens-IsSafe :
      (org_id path : Text) (index : ℕ) (raws : List RawServiceToken) (tokens : List ServiceToken)
      → parse_tokens lib org_id path index raws ≡ done tokens
      → All (IsSafeToken org_id) tokens
  unfolding parse_tokens
  parse_tokens-IsSafe org_id path index [] tokens h =
      subst (All (IsSafeToken org_id)) (done_parts h) tt
  parse_tokens-IsSafe org_id path index (raw ∷ raws) tokens h =
      let (token, e, k) = bind-done (parse_service_token lib raw org_id _) _ tokens h in
      let (later, f, l) = bind-done (parse_tokens lib org_id path (suc index) raws) _ tokens k in
      subst (All (IsSafeToken org_id)) (done_parts l) (
        parse_service_token-IsSafe raw org_id _ token e,
        parse_tokens-IsSafe org_id path (suc index) raws later f,
      )

  connection_of-IsSafe :
      (path name org_id : Text) (raw : RawServiceToken) (url : Text) (tokens : List ServiceToken)
      (c : Connection)
      → is_empty name ≡ false
      → is_empty org_id ≡ false
      → All (IsSafeToken org_id) tokens
      → connection_of lib path name org_id raw url tokens ≡ done c
      → IsSafe c
  unfolding connection_of
  connection_of-IsSafe path name org_id raw url tokens c n o safe h =
      let (some_token, k) = unless_failed (is_empty tokens) _ _ c h in
      let (token, e, l) = bind-done (parse_service_token lib raw org_id _) _ c k in
      subst IsSafe (done_parts l) (record {
        has_name = n;
        has_org = o;
        has_tokens = some_token;
        safe_tokens = safe;
        safe_ct_ops_token = parse_service_token-IsSafe raw org_id _ token e;
      })

  parse_connection-IsSafe :
      (index : ℕ) (entry : RawConnection) (c : Connection)
      → parse_connection lib index entry ≡ done c
      → IsSafe c
  unfolding parse_connection
  parse_connection-IsSafe index entry c h =
      let name = trim_space entry.name in
      let org_id = trim_space entry.org_id in
      let (named, k) = unless_failed (is_empty name || is_empty org_id) _ _ c h in
      let (n, o) = neither (is_empty name) (is_empty org_id) named in
      let path = at_index connections_name index in
      let (url, e, l) =
        bind-done (normalize_base_url lib.go entry.ct_ops_base_url (path ++ codes ".ctOpsBaseUrl"))
          _ c k in
      let (tokens, f, m) =
        bind-done (parse_tokens lib org_id path 0 entry.inventory_tokens) _ c l in
      connection_of-IsSafe path name org_id entry.ct_ops_token url tokens c n o
        (parse_tokens-IsSafe org_id path 0 entry.inventory_tokens tokens f) m

  parse_connections-IsSafe :
      (index : ℕ) (entries : List RawConnection) (connections : List Connection)
      → parse_connections lib index entries ≡ done connections
      → All IsSafe connections
  unfolding parse_connections
  parse_connections-IsSafe index [] connections h = subst (All IsSafe) (done_parts h) tt
  parse_connections-IsSafe index (entry ∷ entries) connections h =
      let (c, e, k) = bind-done (parse_connection lib index entry) _ connections h in
      let (later, f, l) = bind-done (parse_connections lib (suc index) entries) _ connections k in
      subst (All IsSafe) (done_parts l) (
        parse_connection-IsSafe index entry c e,
        parse_connections-IsSafe (suc index) entries later f,
      )

  decoded-IsSafe :
      (raw : Outcome (List RawConnection)) (connections : List Connection)
      → decoded lib raw ≡ done connections
      → All IsSafe connections
  unfolding decoded
  decoded-IsSafe (done raw) connections h = parse_connections-IsSafe 0 raw connections h
  decoded-IsSafe (failed_with e) connections h = ground arith

  from_env-IsSafe :
      (value : Text) (connections : List Connection) (b : Bool)
      → (if b then done [] else decoded lib (lib.decode value)) ≡ done connections
      → All IsSafe connections
  from_env-IsSafe value connections true h = subst (All IsSafe) (done_parts h) tt
  from_env-IsSafe value connections false h = decoded-IsSafe (lib.decode value) connections h

  -- Each connection that the environment gives has a name and an organisation, and at least one
  -- token; each token, that of CT Ops included, is of the organisation of its connection, and has an
  -- id, a secret of at least 32 bytes, and at least one scope, each of which is known.
  pub ct_ops_connections_from_env-IsSafe :
      (value : Text) (connections : List Connection)
      → ct_ops_connections_from_env lib value ≡ done connections
      → All IsSafe connections
  unfolding ct_ops_connections_from_env
  ct_ops_connections_from_env-IsSafe value connections h =
      from_env-IsSafe value connections (is_empty (trim_space value)) h
