-- ===== src/Gui/Kept.antt =====
-- What any sequence of requests keeps.
use ct_cve.Base.{
  ℕ, ltb, nat_eq, Text, codes, ◌==◌, has_prefix, Bool, true, false, not, ◌&&◌, ◌||◌, if◌then◌else◌,
  Option, some, none, List, [], ◌∷◌,
}
use ct_cve.Base.Outcome.{Outcome, done, failed_with}
use ct_cve.Auth.{
  User, NewUser, Session, AuthLibrary, normalize_username, check_password, validate_username,
  hash_password,
}
use ct_cve.Config.{Config, SourceSettings, nvd_id, cisa_kev_id}
use ct_cve.Config.Check.{GoLibrary}
use ct_cve.Gui.Site.{SiteTables, site_store, serve, serve_all}
use ct_cve.Store.Accounts.{Creation, created, user_exists, user_refused}
use ct_cve.Store.Accounts.Laws.{
  Reachable, after, creating_user, creating_session, deleting_session, IsSound, Reachable-IsSound,
}
use ct_cve.Gui.{
  GuiStore, Overview, Body, status_page, status_json, Request, Response, Handler, is_get, is_post,
  valid_csrf, current_session, require_session, effective_config,
}
use ct_cve.Gui.Pages.{serve_index, serve_status, serve_overview}
use ct_cve.Feed.Clean.{trim_prefix}
use ct_cve.Gui.Settings.{
  logged, saved, save, configure, checked_form, source_form, serve_source_config,
  source_setting_from_form,
}
use ct_cve.Gui.Sign.{
  signed_in, start_session, enter, user_created, create_admin, named_admin, signup_form,
  signup_with, serve_signup, login_user, login_form, login_with, serve_login, logout_of,
  serve_logout,
}

-- What the operations of the store that write keep.
pub record Keeps {S : Type 0} (store : GuiStore S) (P : S → Type 0) : Type 0 where
  pub setting_kept :
      (setting : SourceSettings) (s : S) → P s → P (store.upsert_feed_source_config setting s).1
  pub log_kept :
      (source category level message detail : Text) (s : S)
      → P s
      → P (store.record_operational_log source category level message detail s).1
  pub user_kept : (new : NewUser) (s : S) → P s → P (store.create_user new s).1
  pub session_kept : (new : Session) (s : S) → P s → P (store.create_session new s).1
  pub deletion_kept : (token_hash : Text) (s : S) → P s → P (store.delete_session token_hash s)

if-kept :
    {S : Type 0} (P : S → Type 0) (b : Bool) (x y : Response × S)
    → P x.1
    → P y.1
    → P (if b then x else y).1
if-kept P true x y p q = p
if-kept P false x y p q = q

module _ {S : Type 0} (h : Handler S) (P : S → Type 0) (kept : Keeps h.store P) where
  required-kept :
      (next : Session → Response × S) (s : S) (found : Option Session)
      → ((session : Session) → P (next session).1)
      → P s
      → P (require_session h next s found).1
  unfolding require_session
  required-kept next s none k p = p
  required-kept next s (some session) k p = k session

  overview-kept :
      (body : Overview → Body) (r : Request) (s : S) → P s → P (serve_overview h body r s).1
  unfolding serve_overview
  overview-kept body r s p = required-kept _ s (current_session h r s) (λ _. p) p

  logged-kept : (x : Bool × S) → P x.1 → P (logged h x).1
  unfolding logged
  logged-kept (false, s) p = p
  logged-kept (true, s) p = p

  saved-kept : (setting : SourceSettings) (x : Bool × S) → P x.1 → P (saved h setting x).1
  unfolding saved
  saved-kept setting (false, s) p = p
  saved-kept setting (true, s) p = logged-kept _ (kept.log_kept _ _ _ _ _ s p)

  save-kept : (s : S) (o : Outcome SourceSettings) → P s → P (save h s o).1
  unfolding save
  save-kept s (failed_with e) p = p
  save-kept s (done setting) p =
      saved-kept setting (h.store.upsert_feed_source_config setting s)
        (kept.setting_kept setting s p)

  configure-kept :
      (source : Text) (values : Text → Text) (s : S) (cfg : Option Config)
      → P s
      → P (configure h source values s cfg).1
  unfolding configure
  configure-kept source values s none p = p
  configure-kept source values s (some cfg) p =
      save-kept s (source_setting_from_form h source cfg values) p

  checked_form-kept :
      (source : Text) (session : Session) (s : S) (form : Option (Text → Text))
      → P s
      → P (checked_form h source session s form).1
  unfolding checked_form
  checked_form-kept source session s none p = p
  checked_form-kept source session s (some values) p =
      if-kept P (valid_csrf (values (codes "csrf_token")) session.csrf_token) _ _
        (configure-kept source values s (effective_config h s) p) p

  source_form-kept :
      (r : Request) (s : S) (session : Session) → P s → P (source_form h r s session).1
  unfolding source_form
  source_form-kept r s session p =
      let source = trim_prefix r.path (codes "/sources/") in
      if-kept P (not (source == nvd_id) && not (source == cisa_kev_id)) _ _ p
        (checked_form-kept source session s r.form p)

  signed_in-kept : (r : Request) (token : Text) (x : Bool × S) → P x.1 → P (signed_in h r token x).1
  unfolding signed_in
  signed_in-kept r token (false, s) p = p
  signed_in-kept r token (true, s) p = p

  start_session-kept :
      (r : Request) (user_id : ℕ) (s : S) (token csrf_token : Option Text)
      → P s
      → P (start_session h r user_id s token csrf_token).1
  unfolding start_session
  start_session-kept r user_id s (some token) (some csrf_token) p =
      signed_in-kept r token _ (kept.session_kept _ s p)
  start_session-kept r user_id s none csrf_token p = p
  start_session-kept r user_id s (some token) none p = p

  user_created-kept : (r : Request) (x : Creation × S) → P x.1 → P (user_created h r x).1
  unfolding user_created enter
  user_created-kept r (created user, s) p =
      start_session-kept r user.id s r.new_session_token r.new_csrf_token p
  user_created-kept r (user_exists, s) p = p
  user_created-kept r (user_refused, s) p = p

  create_admin-kept :
      (r : Request) (username : Text) (s : S) (o : Outcome Text)
      → P s
      → P (create_admin h r username s o).1
  unfolding create_admin
  create_admin-kept r username s (failed_with e) p = p
  create_admin-kept r username s (done password_hash) p =
      user_created-kept r _ (kept.user_kept _ s p)

  named_admin-kept :
      (r : Request) (username password : Text) (s : S) (error : Option Text)
      → P s
      → P (named_admin h r username password s error).1
  unfolding named_admin
  named_admin-kept r username password s (some error) p = p
  named_admin-kept r username password s none p =
      create_admin-kept r username s (hash_password h.auth password) p

  signup_form-kept :
      (r : Request) (s : S) (form : Option (Text → Text)) → P s → P (signup_form h r s form).1
  unfolding signup_form
  signup_form-kept r s none p = p
  signup_form-kept r s (some values) p =
      let username = normalize_username (values (codes "username")) in
      named_admin-kept r username (values (codes "password")) s (validate_username username) p

  signup_with-kept : (r : Request) (s : S) (users : Option ℕ) → P s → P (signup_with h r s users).1
  unfolding signup_with
  signup_with-kept r s none p = p
  signup_with-kept r s (some n) p =
      if-kept P (ltb 0 n) _ _ p (if-kept P (is_get r.method) _ _ p (signup_form-kept r s r.form p))

  login_user-kept :
      (r : Request) (password : Text) (s : S) (found : Option (Option User))
      → P s
      → P (login_user h r password s found).1
  unfolding login_user enter
  login_user-kept r password s none p = p
  login_user-kept r password s (some none) p = p
  login_user-kept r password s (some (some user)) p =
      if-kept P (check_password h.auth user.password_hash password) _ _
        (start_session-kept r user.id s r.new_session_token r.new_csrf_token p) p

  login_form-kept :
      (r : Request) (s : S) (form : Option (Text → Text)) → P s → P (login_form h r s form).1
  unfolding login_form
  login_form-kept r s none p = p
  login_form-kept r s (some values) p = login_user-kept r (values (codes "password")) s _ p

  login_with-kept : (r : Request) (s : S) (users : Option ℕ) → P s → P (login_with h r s users).1
  unfolding login_with
  login_with-kept r s none p = p
  login_with-kept r s (some n) p =
      if-kept P (nat_eq n 0) _ _ p
        (if-kept P (is_get r.method) _ _ p (login_form-kept r s r.form p))

  logout_of-kept :
      (r : Request) (s : S) (found : Option Session) → P s → P (logout_of h r s found).1
  unfolding logout_of
  logout_of-kept r s none p = p
  logout_of-kept r s (some session) p =
      if-kept P (valid_csrf (r.form_value (codes "csrf_token")) session.csrf_token) _ _
        (kept.deletion_kept session.token_hash s p) p

  pub serve-kept : (r : Request) (s : S) → P s → P (serve h r s).1
  unfolding serve serve_index serve_status serve_source_config serve_signup serve_login serve_logout
  serve-kept r s p =
      if-kept P (r.path == codes "/api/status") _ _
        (if-kept P (not (is_get r.method)) _ _ p (overview-kept status_json r s p))
        (if-kept P (has_prefix r.path (codes "/sources/")) _ _
          (if-kept P (not (is_post r.method)) _ _ p (
            required-kept (source_form h r s) s (current_session h r s)
              (λ session. source_form-kept r s session p) p))
          (if-kept P (r.path == codes "/signup") _ _
            (if-kept P (not (is_get r.method || is_post r.method)) _ _ p
              (signup_with-kept r s (h.store.count_users s) p))
            (if-kept P (r.path == codes "/login") _ _
              (if-kept P (not (is_get r.method || is_post r.method)) _ _ p
                (login_with-kept r s (h.store.count_users s) p))
              (if-kept P (r.path == codes "/logout") _ _
                (if-kept P (not (is_post r.method)) _ _ p
                  (logout_of-kept r s (current_session h r s) p))
                (if-kept P (not (r.path == codes "/") && not (r.path == codes "/status")) _ _ p
                  (if-kept P (not (is_get r.method)) _ _ p (overview-kept status_page r s p)))))))

  pub serve_all-kept : (requests : List Request) (s : S) → P s → P (serve_all h requests s)
  unfolding serve_all
  serve_all-kept [] s p = p
  serve_all-kept (r ∷ requests) s p = serve_all-kept requests (serve h r s).1 (serve-kept r s p)

abbrev IsReached : SiteTables → Type 0
IsReached t = Reachable t.accounts

site_store-Keeps : Keeps site_store IsReached
unfolding site_store
site_store-Keeps = record {
  setting_kept = λ setting t p. p;
  log_kept = λ source category level message detail t p. p;
  user_kept = λ new t p. after p (creating_user t.sources.clock new t.accounts);
  session_kept = λ new t p. after p (creating_session new t.accounts);
  deletion_kept = λ token_hash t p. after p (deleting_session token_hash t.accounts);
}

-- The handler works on the tables of the service.
abbrev pub site_handler : Config → AuthLibrary → GoLibrary → Handler SiteTables
site_handler cfg auth go = record { cfg = cfg; store = site_store; auth = auth; go = go }

-- Whatever requests the pages serve, in whatever order, tables that have been reached from empty
-- ones keep at most one user, sessions of that user only, and no two sessions with the same hash.
pub serve_all-IsSound :
    (cfg : Config) (auth : AuthLibrary) (go : GoLibrary) (requests : List Request) (t : SiteTables)
    → Reachable t.accounts
    → IsSound (serve_all (site_handler cfg auth go) requests t).accounts
serve_all-IsSound cfg auth go requests t p =
    Reachable-IsSound
      (serve_all-kept (site_handler cfg auth go) IsReached site_store-Keeps requests t p)
