-- ===== src/Gui/Tests.antt =====
-- The theorems on the pages, at a few requests.
use ct_cve.Base.{◌≡◌, refl, length, pos, Text, codes, none, some, [], ◌∷◌, ◌++◌, true}
use ct_cve.Base.Outcome.{done}
use ct_cve.Auth.{AuthLibrary}
use ct_cve.Config.{Config}
use ct_cve.Config.Check.{GoLibrary}
use ct_cve.Store.Accounts.Laws.{at_start, no_accounts, IsSound}
use ct_cve.Gui.{Request, Handler}
use ct_cve.Gui.Settings.{serve_source_config}
use ct_cve.Gui.Sign.{serve_signup, serve_login, serve_logout}
use ct_cve.Gui.Guard.{
  Guarded, IsAuthorisedForm, IsAuthorised, IsFirstUser, IsKnown, serve_source_config-Guarded,
  serve_signup-Guarded, serve_login-Guarded, serve_logout-Guarded,
}
use ct_cve.Gui.Site.{SiteTables, site_store, serve, serve_all}
use ct_cve.Gui.Kept.{site_handler, serve_all-IsSound}

abbrev auth : AuthLibrary
auth = record {
  generate_from_password = λ password. done (codes "$2a$12$abcdefghijkl" ++ password);
  compare_hash_and_password = λ _ _. true;
  sha256_hex = λ token. token;
}

abbrev go : GoLibrary
go = record {
  parse_url = λ _. none;
  url_string = λ _. [];
  parse_duration = λ _. none;
  duration_string = λ _. [];
}

abbrev cfg : Config
cfg = record {
  http_addr = codes ":8080";
  database_url = codes "postgres://db";
  feed_sync_interval = pos 1;
  feed_sync_on_startup = true;
  feed_http_timeout = pos 1;
  sources = record {
    nvd = record {
      enabled = true;
      base_url = codes "http://n";
      api_key = [];
      request_delay = pos 1;
    };
    cisa_kev = record { enabled = true; base_url = codes "http://k" };
  };
  ct_ops_connections = [];
}

abbrev site : Handler SiteTables
site = site_handler cfg auth go

abbrev start : SiteTables
start = record {
  accounts = no_accounts;
  sources = record {
    feeds = record { cves = []; affected = [] };
    statuses = [];
    settings = [];
    logs = [];
    next_log_id = 1;
    clock = 5;
  };
}

abbrev token : Text
token = codes "0123456789012345678901234567890123456789012345678901234567890123"

-- Every field of the form holds the same text.
abbrev posting : Text → Text → Request
posting path text = record {
  method = codes "POST";
  path = path;
  cookie = some token;
  form = some (λ _. text);
  form_value = λ _. text;
  has_tls = true;
  forwarded_proto = [];
  now = 5;
  new_session_token = some token;
  new_csrf_token = some token;
}

abbrev signing_up : Request
signing_up = posting (codes "/signup") (codes "administrator")

abbrev signing_in : Request
signing_in = posting (codes "/login") (codes "administrator")

abbrev setting : Request
setting = posting (codes "/sources/nvd") token

abbrev signing_out : Request
signing_out = posting (codes "/logout") token

abbrev signed_up : SiteTables
signed_up = serve_all site (signing_up ∷ []) start

serve_signup-Guarded_example :
    Guarded start (IsFirstUser site signing_up start) (serve_signup site signing_up start)
serve_signup-Guarded_example = serve_signup-Guarded site signing_up start

serve_login-Guarded_example :
    Guarded signed_up (IsKnown site signing_in signed_up) (serve_login site signing_in signed_up)
serve_login-Guarded_example = serve_login-Guarded site signing_in signed_up

serve_source_config-Guarded_example :
    Guarded signed_up
      (IsAuthorisedForm site setting signed_up)
      (serve_source_config site setting signed_up)
serve_source_config-Guarded_example = serve_source_config-Guarded site setting signed_up

serve_logout-Guarded_example :
    Guarded signed_up
      (IsAuthorised site signing_out signed_up signing_out.form_value)
      (serve_logout site signing_out signed_up)
serve_logout-Guarded_example = serve_logout-Guarded site signing_out signed_up

serve_all-IsSound_example :
    IsSound (serve_all site (signing_up ∷ signing_up ∷ signing_out ∷ []) start).accounts
serve_all-IsSound_example =
    serve_all-IsSound cfg auth go (signing_up ∷ signing_up ∷ signing_out ∷ []) start at_start

-- The first request creates the user and a session; the second finds a user and changes nothing; and
-- the third deletes the session.
sign_run :
    (length signed_up.accounts.users ≡ 1)
    × (length signed_up.accounts.sessions ≡ 1)
    × (length (serve_all site (signing_up ∷ signing_up ∷ []) start).accounts.users ≡ 1)
    × (length (serve_all site (signing_up ∷ signing_out ∷ []) start).accounts.sessions ≡ 0)
unfolding serve_all serve site_store
sign_run = (refl, refl, refl, refl)
