-- ===== src/Config/Tests.antt =====
-- The theorem on the configuration, at a small environment.
use ct_cve.Base.{pos, refl, Text, codes, ◌==◌, if◌then◌else◌, false, none, some, [], ◌∷◌}
use ct_cve.Base.Outcome.{Outcome, done, failed_with}
use ct_cve.CtOps.Types.{scope_inventory_write}
use ct_cve.Config.{Config}
use ct_cve.Config.Check.{Url}
use ct_cve.Config.Connections.{RawServiceToken, RawConnection, ConnectionLibrary, connections_name}
use ct_cve.Config.Load.{load, database_url_name}
use ct_cve.Config.Valid.{IsValid, load-IsValid}

abbrev url : Url
url = record {
  scheme = codes "https";
  host = codes "h";
  path = codes "/";
  raw_query = [];
  fragment = [];
  rest = [];
}

abbrev raw_token : RawServiceToken
raw_token = record {
  id = codes "push";
  secret = codes "01234567890123456789012345678901";
  scopes = scope_inventory_write ∷ [];
  revoked = false;
}

abbrev raw : RawConnection
raw = record {
  name = codes "main";
  org_id = codes "org";
  ct_ops_base_url = codes "https://h/";
  inventory_tokens = raw_token ∷ [];
  ct_ops_token = raw_token;
}

abbrev lib : ConnectionLibrary
lib = record {
  go = record {
    parse_url = λ _. some url;
    url_string = λ u. u.host;
    parse_duration = λ _. none;
    duration_string = λ _. [];
  };
  decode = λ _. done (raw ∷ []);
  quote = λ t. t;
}

abbrev getenv : Text → Text
getenv name =
    if name == database_url_name
    then codes "postgres://db"
    else if name == connections_name
    then codes "[...]"
    else []

abbrev or_config : Config → Outcome Config → Config
or_config default (done cfg) = cfg
or_config default (failed_with _) = default

abbrev no_config : Config
no_config = record {
  http_addr = [];
  database_url = [];
  feed_sync_interval = pos 0;
  feed_sync_on_startup = false;
  feed_http_timeout = pos 0;
  sources = record {
    nvd = record { enabled = false; base_url = []; api_key = []; request_delay = pos 0 };
    cisa_kev = record { enabled = false; base_url = [] };
  };
  ct_ops_connections = [];
}

load-IsValid_example : IsValid (or_config no_config (load lib getenv))
unfolding load
load-IsValid_example = load-IsValid lib getenv (or_config no_config (load lib getenv)) refl
