-- ===== src/CtOps/Types.antt =====
-- Tokens and connections: internal/ctops/types.go.
use ct_cve.Base.{Text, codes, Bool, List}

abbrev pub contract_version : Text
contract_version = codes "2026-04-30"

-- A ServiceTokenScope is a text.
abbrev pub scope_inventory_write : Text
scope_inventory_write = codes "inventory:write"

abbrev pub scope_findings_write : Text
scope_findings_write = codes "findings:write"

abbrev pub scope_connection_read : Text
scope_connection_read = codes "connection:read"

pub record ServiceToken : Type 0 where
  pub id : Text
  pub secret : Text
  pub org_id : Text
  pub scopes : List Text
  pub revoked : Bool

pub record Connection : Type 0 where
  pub name : Text
  pub org_id : Text
  pub ct_ops_base_url : Text
  pub inventory_tokens : List ServiceToken
  pub ct_ops_token : ServiceToken
