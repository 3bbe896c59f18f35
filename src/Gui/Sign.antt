-- ===== src/Gui/Sign.antt =====
-- Signing up, in and out: `serveSignup`, `serveLogin` and `serveLogout`.
use ct_cve.Base.{
  ℕ, ◌+◌, nat_eq, ltb, pos, Text, codes, ◌==◌, Bool, true, false, not, ◌||◌, if◌then◌else◌, Option,
  some, none, [],
}
use ct_cve.Base.Outcome.{Outcome, done, failed_with}
use ct_cve.Auth.{
  User, Session, normalize_username, validate_username, hash_password, check_password,
  hash_session_token, role_admin,
}
use ct_cve.Store.Accounts.{Creation, created, user_exists, user_refused}
use ct_cve.Gui.{
  Request, Response, AuthPage, Handler, auth_page, empty, shows, http_error, redirect, not_allowed,
  is_get, is_head, is_post, session_cookie, session_seconds, session_duration, cleared, valid_csrf,
  current_session,
}

abbrev pub sign_up : Text → AuthPage
sign_up error = record {
  title = codes "Create Admin User";
  action = codes "/signup";
  button_label = codes "Create admin";
  error = error;
}

abbrev pub sign_in : Text → AuthPage
sign_in error = record {
  title = codes "Sign In";
  action = codes "/login";
  button_label = codes "Sign in";
  error = error;
}

abbrev pub invalid_login : Text
invalid_login = codes "Invalid username or password."

abbrev pub sign_methods : Text
sign_methods = codes "GET, HEAD, POST"

module _ {S : Type 0} (h : Handler S) where
  unfoldable pub signed_in : Request → Text → Bool × S → Response × S
  unfolding session_cookie
  signed_in r token (false, s) = (http_error 500 (codes "failed to create CT-CVE session"), s)
  signed_in r token (true, s) = (
    record (redirect (codes "/status")) {
      cookie = some (session_cookie r token (pos session_seconds));
    },
    s,
  )

  -- `createSession`, and the answer; the two tokens are drawn in this order.
  unfoldable pub start_session : Request → ℕ → S → Option Text → Option Text → Response × S
  unfolding signed_in hash_session_token
  start_session r user_id s (some token) (some csrf_token) = signed_in r token (
      h.store.create_session
        (record {
          token_hash = hash_session_token h.auth token;
          user_id = user_id;
          csrf_token = csrf_token;
          expires_at = r.now + session_duration;
        })
        s)
  start_session r user_id s none _ = (http_error 500 (codes "failed to create CT-CVE session"), s)
  start_session r user_id s (some token) none =
      (http_error 500 (codes "failed to create CT-CVE session"), s)

  unfoldable pub enter : Request → ℕ → S → Response × S
  unfolding start_session
  enter r user_id s = start_session r user_id s r.new_session_token r.new_csrf_token

  unfoldable pub user_created : Request → Creation × S → Response × S
  unfolding enter
  user_created r (created user, s) = enter r user.id s
  user_created r (user_exists, s) = (redirect (codes "/login"), s)
  user_created r (user_refused, s) =
      (http_error 500 (codes "failed to create CT-CVE admin user"), s)

  unfoldable pub create_admin : Request → Text → S → Outcome Text → Response × S
  unfolding user_created
  create_admin r username s (failed_with error) = (shows 400 (auth_page (sign_up error)), s)
  create_admin r username s (done password_hash) = user_created r (
      h.store.create_user
        (record { username = username; password_hash = password_hash; role = role_admin }) s)

  unfoldable pub named_admin : Request → Text → Text → S → Option Text → Response × S
  unfolding create_admin hash_password
  named_admin r username password s (some error) = (shows 400 (auth_page (sign_up error)), s)
  named_admin r username password s none = create_admin r username s (hash_password h.auth password)

  unfoldable pub signup_form : Request → S → Option (Text → Text) → Response × S
  unfolding named_admin normalize_username validate_username
  signup_form r s none = (http_error 400 (codes "invalid signup form"), s)
  signup_form r s (some values) =
      let username = normalize_username (values (codes "username")) in
      named_admin r username (values (codes "password")) s (validate_username username)

  -- The page of a form; a HEAD has no body.
  abbrev pub form_page : Request → AuthPage → Response
  form_page r page = shows 200 (if is_head r.method then empty else auth_page page)

  unfoldable pub signup_with : Request → S → Option ℕ → Response × S
  unfolding ◌==◌ signup_form
  signup_with r s none = (http_error 500 (codes "failed to load CT-CVE users"), s)
  signup_with r s (some users) =
      if ltb 0 users
      then (redirect (codes "/login"), s)
      else if is_get r.method
      then (form_page r (sign_up []), s)
      else signup_form r s r.form

  unfoldable pub serve_signup : Request → S → Response × S
  unfolding ◌==◌ signup_with
  serve_signup r s =
      if not (is_get r.method || is_post r.method)
      then (not_allowed sign_methods, s)
      else signup_with r s (h.store.count_users s)

  unfoldable pub login_user : Request → Text → S → Option (Option User) → Response × S
  unfolding check_password enter
  login_user r password s none = (http_error 500 (codes "failed to load CT-CVE user"), s)
  login_user r password s (some none) = (shows 401 (auth_page (sign_in invalid_login)), s)
  login_user r password s (some (some user)) =
      if check_password h.auth user.password_hash password
      then enter r user.id s
      else (shows 401 (auth_page (sign_in invalid_login)), s)

  unfoldable pub login_form : Request → S → Option (Text → Text) → Response × S
  unfolding login_user normalize_username
  login_form r s none = (http_error 400 (codes "invalid login form"), s)
  login_form r s (some values) =
      login_user r (values (codes "password")) s
        (h.store.find_user_by_username (normalize_username (values (codes "username"))) s)

  unfoldable pub login_with : Request → S → Option ℕ → Response × S
  unfolding ◌==◌ login_form
  login_with r s none = (http_error 500 (codes "failed to load CT-CVE users"), s)
  login_with r s (some users) =
      if nat_eq users 0
      then (redirect (codes "/signup"), s)
      else if is_get r.method
      then (form_page r (sign_in []), s)
      else login_form r s r.form

  unfoldable pub serve_login : Request → S → Response × S
  unfolding ◌==◌ login_with
  serve_login r s =
      if not (is_get r.method || is_post r.method)
      then (not_allowed sign_methods, s)
      else login_with r s (h.store.count_users s)

  unfoldable pub logout_of : Request → S → Option Session → Response × S
  unfolding valid_csrf cleared
  logout_of r s none = (cleared r (redirect (codes "/login")), s)
  logout_of r s (some session) =
      if valid_csrf (r.form_value (codes "csrf_token")) session.csrf_token
      then (cleared r (redirect (codes "/login")), h.store.delete_session session.token_hash s)
      else (http_error 403 (codes "invalid CSRF token"), s)

  unfoldable pub serve_logout : Request → S → Response × S
  unfolding ◌==◌ logout_of current_session
  serve_logout r s =
      if not (is_post r.method)
      then (not_allowed (codes "POST"), s)
      else logout_of r s (current_session h r s)
