-- ===== src/Gui.antt =====
-- The web pages: internal/gui/handler.go. A request carries what net/http parsed of it, and a
-- response what the handler wrote; the templates and the encoding as JSON are left out, so that a
-- page is the data that it shows. The tokens are what crypto/rand gave, and `now` is the clock.
pub mod Pages
pub mod Settings
pub mod Sign
pub mod Guard
pub mod Site
pub mod Kept
mod Tests
use ct_cve.Base.{
  ℕ, nat_eq, ◌+◌, ℤ, pos, negsuc, Text, codes, ◌==◌, ◌++◌, is_empty, trim_space, length, ltb, Bool,
  true, false, not, ◌&&◌, ◌||◌, if◌then◌else◌, Option, some, none, List, [], ◌∷◌,
}
use ct_cve.CtOps.Time.{Time}
use ct_cve.Auth.{User, NewUser, Session, AuthLibrary, hash_session_token}
use ct_cve.Config.{Config, SourceSettings, apply_source_settings}
use ct_cve.Config.Check.{GoLibrary}
use ct_cve.Store.Accounts.{Creation}
use ct_cve.Store.Sources.{FeedSourceStatus, OperationalLog}

-- The store. `none` and `false` are errors; a lookup may also find nothing.
pub record GuiStore (S : Type 0) : Type 0 where
  pub list_feed_source_status : S → Option (List FeedSourceStatus)
  pub list_feed_source_config : S → Option (List SourceSettings)
  pub list_operational_logs : ℤ → S → Option (List OperationalLog)
  pub upsert_feed_source_config : SourceSettings → S → Bool × S
  pub record_operational_log : Text → Text → Text → Text → Text → S → Bool × S
  pub count_users : S → Option ℕ
  pub create_user : NewUser → S → Creation × S
  pub find_user_by_username : Text → S → Option (Option User)
  pub create_session : Session → S → Bool × S
  pub find_session : Text → Time → S → Option Session
  pub delete_session : Text → S → S

-- `form` is none where ParseForm fails; `form_value` is FormValue, which ignores that.
pub record Request : Type 0 where
  pub method : Text
  pub path : Text
  pub cookie : Option Text
  pub form : Option (Text → Text)
  pub form_value : Text → Text
  pub has_tls : Bool
  pub forwarded_proto : Text
  pub now : Time
  pub new_session_token : Option Text
  pub new_csrf_token : Option Text

pub record Cookie : Type 0 where
  pub name : Text
  pub value : Text
  pub path : Text
  pub max_age : ℤ
  pub http_only : Bool
  pub secure : Bool
  pub same_site_strict : Bool

pub record AuthPage : Type 0 where
  pub title : Text
  pub action : Text
  pub button_label : Text
  pub error : Text

pub record SourceOverview : Type 0 where
  pub id : Text
  pub name : Text
  pub enabled : Bool
  pub base_url : Text
  pub api_key_configured : Bool
  pub request_delay : Text
  pub feed_source_status : Option FeedSourceStatus

-- The texts of the service and of the subscription, which do not change, are left out.
pub record Overview : Type 0 where
  pub generated_at : Time
  pub interval : Text
  pub sync_on_startup : Bool
  pub http_timeout : Text
  pub sources : List SourceOverview
  pub logs : List OperationalLog
  pub csrf_token : Text

pub data Body : Type 0 where
  empty : Body
  message : Text → Body
  auth_page : AuthPage → Body
  status_page : Overview → Body
  status_json : Overview → Body

pub record Response : Type 0 where
  pub status : ℕ
  pub allow : Text
  pub location : Text
  pub cookie : Option Cookie
  pub body : Body

abbrev pub http_error : ℕ → Text → Response
http_error status text = record {
  status = status;
  allow = [];
  location = [];
  cookie = none;
  body = message text;
}

abbrev pub redirect : Text → Response
redirect location = record {
  status = 303;
  allow = [];
  location = location;
  cookie = none;
  body = empty;
}

abbrev pub shows : ℕ → Body → Response
shows status body = record {
  status = status;
  allow = [];
  location = [];
  cookie = none;
  body = body;
}

abbrev pub not_found : Response
not_found = http_error 404 (codes "404 page not found")

abbrev pub not_allowed : Text → Response
not_allowed methods = record (http_error 405 (codes "method not allowed")) { allow = methods }

abbrev pub session_cookie_name : Text
session_cookie_name = codes "ct_cve_session"

abbrev pub session_seconds : ℕ
session_seconds = 43_200

abbrev pub session_duration : ℕ
session_duration = 43_200_000_000_000

unfoldable pub session_cookie : Request → Text → ℤ → Cookie
unfolding ◌==◌
session_cookie r value max_age = record {
  name = session_cookie_name;
  value = value;
  path = codes "/";
  max_age = max_age;
  http_only = true;
  secure = r.has_tls || (r.forwarded_proto == codes "https");
  same_site_strict = true;
}

-- `clearSessionCookie`
unfoldable pub cleared : Request → Response → Response
unfolding session_cookie
cleared r response = record response { cookie = some (session_cookie r [] (negsuc 0)) }

-- subtle.ConstantTimeCompare tells equal texts from others.
unfoldable pub valid_csrf : Text → Text → Bool
unfolding ◌==◌
valid_csrf got want = if is_empty got || is_empty want then false else got == want

abbrev pub is_get : Text → Bool
is_get method = (method == codes "GET") || (method == codes "HEAD")

abbrev pub is_head : Text → Bool
is_head method = method == codes "HEAD"

abbrev pub is_post : Text → Bool
is_post method = method == codes "POST"

pub record Handler (S : Type 0) : Type 0 where
  pub cfg : Config
  pub store : GuiStore S
  pub auth : AuthLibrary
  pub go : GoLibrary

module _ {S : Type 0} (h : Handler S) where
  unfoldable pub session_of : Text → Time → S → Option Session
  unfolding hash_session_token
  session_of value now s =
      if is_empty value then none else h.store.find_session (hash_session_token h.auth value) now s

  unfoldable pub with_cookie : Time → S → Option Text → Option Session
  unfolding session_of
  with_cookie now s none = none
  with_cookie now s (some value) = session_of value now s

  unfoldable pub current_session : Request → S → Option Session
  unfolding with_cookie
  current_session r s = with_cookie r.now s r.cookie

  unfoldable pub without_session : Option ℕ → Response
  without_session none = http_error 500 (codes "failed to load CT-CVE users")
  without_session (some users) =
      if nat_eq users 0 then redirect (codes "/signup") else redirect (codes "/login")

  -- `requireSession`, and what is done with the session; nothing is written without one.
  unfoldable pub require_session : (Session → Response × S) → S → Option Session → Response × S
  unfolding without_session
  require_session next s (some session) = next session
  require_session next s none = (without_session (h.store.count_users s), s)

  unfoldable pub effective_config : S → Option Config
  unfolding apply_source_settings
  effective_config s = elim (h.store.list_feed_source_config s) [
    | none ↦ none
    | some settings ↦ some (apply_source_settings settings h.cfg)
  ]
