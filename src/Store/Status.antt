-- ===== src/Store/Status.antt =====
-- The state of a connection: the statements of internal/store/ctops.go on
-- ct_ops_connection_status. `now` is what NOW() gives.
use ct_cve.Base.{if◌then◌else◌, Text, ◌==◌, Bool, true, Option, some, none, List, [], ◌∷◌}
use ct_cve.CtOps.Time.{Time}
use ct_cve.CtOps.Types.{contract_version}
use ct_cve.Store.Tables.{StatusRow, upsert}

-- A row by the defaults of the table's columns.
abbrev new_status : Text → StatusRow
new_status org_id = record {
  org_id = org_id;
  configured = true;
  enabled = true;
  last_inventory_push_at = none;
  last_finding_ingest_at = none;
  last_health_check_at = none;
  last_error_code = [];
  last_error_at = none;
}

-- What each statement sets; the row is configured and enabled after it.
abbrev push : Time → StatusRow → StatusRow
push now row = record {
  org_id = row.org_id;
  configured = true;
  enabled = true;
  last_inventory_push_at = some now;
  last_finding_ingest_at = row.last_finding_ingest_at;
  last_health_check_at = row.last_health_check_at;
  last_error_code = row.last_error_code;
  last_error_at = row.last_error_at;
}

abbrev ingest : Time → StatusRow → StatusRow
ingest now row = record {
  org_id = row.org_id;
  configured = true;
  enabled = true;
  last_inventory_push_at = row.last_inventory_push_at;
  last_finding_ingest_at = some now;
  last_health_check_at = row.last_health_check_at;
  last_error_code = [];
  last_error_at = none;
}

abbrev fail : Text → Time → StatusRow → StatusRow
fail code now row = record {
  org_id = row.org_id;
  configured = true;
  enabled = true;
  last_inventory_push_at = row.last_inventory_push_at;
  last_finding_ingest_at = row.last_finding_ingest_at;
  last_health_check_at = row.last_health_check_at;
  last_error_code = code;
  last_error_at = some now;
}

abbrev check : Time → StatusRow → StatusRow
check now row = record {
  org_id = row.org_id;
  configured = true;
  enabled = true;
  last_inventory_push_at = row.last_inventory_push_at;
  last_finding_ingest_at = row.last_finding_ingest_at;
  last_health_check_at = some now;
  last_error_code = row.last_error_code;
  last_error_at = row.last_error_at;
}

unfoldable set_status : (StatusRow → StatusRow) → Text → List StatusRow → List StatusRow
unfolding ◌==◌ upsert
set_status update org_id rows =
    upsert (λ row. row.org_id == org_id) update (update (new_status org_id)) rows

unfoldable pub touch_inventory_status : Text → Time → List StatusRow → List StatusRow
unfolding set_status
touch_inventory_status org_id now = set_status (push now) org_id

unfoldable pub record_finding_delivery : Text → Time → List StatusRow → List StatusRow
unfolding set_status
record_finding_delivery org_id now = set_status (ingest now) org_id

unfoldable pub record_connection_error : Text → Text → Time → List StatusRow → List StatusRow
unfolding set_status
record_connection_error org_id code now = set_status (fail code now) org_id

unfoldable pub record_connection_health : Text → Time → List StatusRow → List StatusRow
unfolding set_status
record_connection_health org_id now = set_status (check now) org_id

pub record ConnectionHealth : Type 0 where
  pub configured : Bool
  pub enabled : Bool
  pub last_inventory_push_at : Option Time
  pub last_finding_ingest_at : Option Time
  pub last_health_check_at : Option Time
  pub last_error_code : Text
  pub last_error_at : Option Time
  pub contract_version : Text

-- An organisation without a row is configured and enabled.
unfoldable pub connection_health : Text → List StatusRow → ConnectionHealth
unfolding ◌==◌
connection_health org_id [] = record {
  configured = true;
  enabled = true;
  last_inventory_push_at = none;
  last_finding_ingest_at = none;
  last_health_check_at = none;
  last_error_code = [];
  last_error_at = none;
  contract_version = contract_version;
}
connection_health org_id (row ∷ rows) =
    if row.org_id == org_id
    then record {
      configured = row.configured;
      enabled = row.enabled;
      last_inventory_push_at = row.last_inventory_push_at;
      last_finding_ingest_at = row.last_finding_ingest_at;
      last_health_check_at = row.last_health_check_at;
      last_error_code = row.last_error_code;
      last_error_at = row.last_error_at;
      contract_version = contract_version;
    }
    else connection_health org_id rows
