-- ===== src/Gui/Site.antt =====
-- The pages over the store of the service, with the routes of `Register`.
use ct_cve.Base.{
  Text, codes, ◌==◌, has_prefix, Bool, true, false, if◌then◌else◌, Option, some, none, List, [],
  ◌∷◌,
}
use ct_cve.Store.Accounts.{
  Accounts, count_users, create_user, find_user_by_username, create_session, find_session,
  delete_session,
}
use ct_cve.Store.Sources.{
  SourceTables, list_feed_source_status, list_feed_source_config, list_operational_logs,
  upsert_feed_source_config, record_operational_log,
}
use ct_cve.Gui.{GuiStore, Request, Response, Handler}
use ct_cve.Gui.Pages.{serve_index, serve_status}
use ct_cve.Gui.Settings.{serve_source_config}
use ct_cve.Gui.Sign.{serve_signup, serve_login, serve_logout}

pub record SiteTables : Type 0 where
  pub accounts : Accounts
  pub sources : SourceTables

abbrev with_accounts : {A : Type 0} → SiteTables → A × Accounts → A × SiteTables
with_accounts t (result, accounts) = (result, record t { accounts = accounts })

abbrev is_none : Option Text → Bool
is_none none = true
is_none (some _) = false

abbrev with_sources : SiteTables → Option Text × SourceTables → Bool × SiteTables
with_sources t (error, sources) = (is_none error, record t { sources = sources })

-- The store of the service over a database that answers: the errors are those of the constraints on
-- the tables. A statement that fails otherwise is left out here.
unfoldable pub site_store : GuiStore SiteTables
unfolding list_feed_source_status list_feed_source_config list_operational_logs
    upsert_feed_source_config record_operational_log count_users create_user find_user_by_username
    create_session find_session delete_session
site_store = record {
  list_feed_source_status = λ t. some (list_feed_source_status t.sources);
  list_feed_source_config = λ t. some (list_feed_source_config t.sources);
  list_operational_logs = λ limit t. some (list_operational_logs limit t.sources);
  upsert_feed_source_config =
      λ setting t. with_sources t (upsert_feed_source_config setting t.sources);
  record_operational_log = λ source category level message detail t.
      with_sources t (record_operational_log source category level message detail t.sources);
  count_users = λ t. some (count_users t.accounts);
  create_user = λ new t. with_accounts t (create_user t.sources.clock new t.accounts);
  find_user_by_username = λ username t. some (find_user_by_username username t.accounts);
  create_session = λ new t. with_accounts t (create_session new t.accounts);
  find_session = λ token_hash now t. find_session token_hash now t.accounts;
  delete_session = λ token_hash t. record t { accounts = delete_session token_hash t.accounts };
}

-- `Register`: the routes; one that ends in a slash takes all the paths below it. The redirects of
-- ServeMux to a cleaned path are left out.
unfoldable pub serve : {S : Type 0} → Handler S → Request → S → Response × S
unfolding ◌==◌ has_prefix serve_index serve_status serve_source_config serve_signup serve_login
    serve_logout
serve h r s =
    if r.path == codes "/api/status"
    then serve_status h r s
    else if has_prefix r.path (codes "/sources/")
    then serve_source_config h r s
    else if r.path == codes "/signup"
    then serve_signup h r s
    else if r.path == codes "/login"
    then serve_login h r s
    else if r.path == codes "/logout"
    then serve_logout h r s
    else serve_index h r s

unfoldable pub serve_all : {S : Type 0} → Handler S → List Request → S → S
unfolding serve
serve_all h [] s = s
serve_all h (r ∷ requests) s = serve_all h requests (serve h r s).1
