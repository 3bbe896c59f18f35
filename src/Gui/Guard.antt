-- ===== src/Gui/Guard.antt =====
-- What has to hold before a request changes the store.
use ct_cve.Base.{
  ℕ, nat_eq, ltb, Text, codes, ◌==◌, ◌≡◌, refl, subst, arith, ◌⊎◌, inl, inr, Bool, true, false, not,
  ◌&&◌, ◌||◌, if◌then◌else◌, Option, some, none,
}
use ct_cve.Auth.{
  User, Session, normalize_username, validate_username, validate_password, hash_password,
  hash_valid, check_password,
}
use ct_cve.Config.{nvd_id, cisa_kev_id}
use ct_cve.Gui.{
  Request, Response, Handler, is_get, is_post, valid_csrf, current_session, require_session,
}
use ct_cve.Feed.Clean.{trim_prefix}
use ct_cve.Gui.Settings.{checked_form, source_form, serve_source_config}
use ct_cve.Gui.Sign.{
  create_admin, named_admin, signup_form, signup_with, serve_signup, login_user, login_form,
  login_with, serve_login, logout_of, serve_logout,
}

-- The store is as it was, or the condition holds.
abbrev pub Guarded : {S : Type 0} → S → Type 0 → Response × S → Type 0
Guarded s condition result = (result.1 ≡ s) ⊎ condition

if-Guarded :
    {S : Type 0} (s : S) (condition : Type 0) (b : Bool) (x y : Response × S)
    → (b ≡ true → Guarded s condition x)
    → (b ≡ false → Guarded s condition y)
    → Guarded s condition (if b then x else y)
if-Guarded s condition true x y p q = p refl
if-Guarded s condition false x y p q = q refl

true-not : (b : Bool) → not b ≡ false → b ≡ true
true-not true e = refl
true-not false e = ground arith

module _ {S : Type 0} (h : Handler S) where
  -- The cookie names a session that is alive, and the token that was sent is that of the session.
  abbrev pub IsAuthorised : Request → S → (Text → Text) → Type 0
  IsAuthorised r s values =
      (session : Session) × (current_session h r s ≡ some session)
      × (valid_csrf (values (codes "csrf_token")) session.csrf_token ≡ true)

  -- A POST, with a form whose token is that of the session.
  abbrev pub IsAuthorisedForm : Request → S → Type 0
  IsAuthorisedForm r s =
      (values : Text → Text) × (is_post r.method ≡ true)
      × (r.form ≡ some values)
      × IsAuthorised r s values

  checked_form-Guarded :
      (source : Text) (r : Request) (session : Session) (s : S) (form : Option (Text → Text))
      → is_post r.method ≡ true
      → r.form ≡ form
      → current_session h r s ≡ some session
      → Guarded s (IsAuthorisedForm r s) (checked_form h source session s form)
  unfolding checked_form
  checked_form-Guarded source r session s none m f e = inl refl
  checked_form-Guarded source r session s (some values) m f e =
      if-Guarded s _ (valid_csrf (values (codes "csrf_token")) session.csrf_token) _ _
        (λ c. inr (values, m, f, (session, e, c))) (λ _. inl refl)

  required-Guarded :
      (r : Request) (s : S) (found : Option Session)
      → is_post r.method ≡ true
      → current_session h r s ≡ found
      → Guarded s (IsAuthorisedForm r s) (require_session h (source_form h r s) s found)
  unfolding require_session source_form
  required-Guarded r s none m e = inl refl
  required-Guarded r s (some session) m e =
      let source = trim_prefix r.path (codes "/sources/") in
      if-Guarded s _ (not (source == nvd_id) && not (source == cisa_kev_id)) _ _ (λ _. inl refl)
        (λ _. checked_form-Guarded source r session s r.form m refl e)

  -- The configuration of a source is changed only by a POST whose cookie names a session that is
  -- alive and whose form has the CSRF token of that session; any other request leaves the store.
  pub serve_source_config-Guarded :
      (r : Request) (s : S) → Guarded s (IsAuthorisedForm r s) (serve_source_config h r s)
  unfolding serve_source_config
  serve_source_config-Guarded r s =
      if-Guarded s _ (not (is_post r.method)) _ _ (λ _. inl refl)
        (λ e. required-Guarded r s (current_session h r s) (true-not _ e) refl)

  -- There is no user yet, and the form has a name and a password that pass the checks.
  abbrev pub IsFirstUser : Request → S → Type 0
  IsFirstUser r s =
      (values : Text → Text) × (h.store.count_users s ≡ some 0)
      × (r.form ≡ some values)
      × (validate_username (normalize_username (values (codes "username"))) ≡ none)
      × (validate_password (values (codes "password")) ≡ none)

  hashed-Guarded :
      (r : Request) (username password : Text) (s : S) (condition : Type 0) (error : Option Text)
      → validate_password password ≡ error
      → (validate_password password ≡ none → condition)
      → Guarded s condition (create_admin h r username s (hash_valid h.auth password error))
  unfolding create_admin hash_valid
  hashed-Guarded r username password s condition none e k = inr (k e)
  hashed-Guarded r username password s condition (some error) e k = inl refl

  named_admin-Guarded :
      (r : Request) (username password : Text) (s : S) (condition : Type 0) (error : Option Text)
      → validate_username username ≡ error
      → (validate_username username ≡ none → validate_password password ≡ none → condition)
      → Guarded s condition (named_admin h r username password s error)
  unfolding named_admin hash_password
  named_admin-Guarded r username password s condition none e k =
      hashed-Guarded r username password s condition (validate_password password) refl (k e)
  named_admin-Guarded r username password s condition (some error) e k = inl refl

  signup_form-Guarded :
      (r : Request) (s : S) (form : Option (Text → Text))
      → h.store.count_users s ≡ some 0
      → r.form ≡ form
      → Guarded s (IsFirstUser r s) (signup_form h r s form)
  unfolding signup_form
  signup_form-Guarded r s none c f = inl refl
  signup_form-Guarded r s (some values) c f =
      named_admin-Guarded r (normalize_username (values (codes "username")))
        (values (codes "password")) s _ _ refl (λ name password. (values, c, f, name, password))

  no_users : (n : ℕ) → ltb 0 n ≡ false → n ≡ 0
  no_users n e = ground arith

  signup_with-Guarded :
      (r : Request) (s : S) (users : Option ℕ)
      → h.store.count_users s ≡ users
      → Guarded s (IsFirstUser r s) (signup_with h r s users)
  unfolding signup_with
  signup_with-Guarded r s none c = inl refl
  signup_with-Guarded r s (some n) c =
      if-Guarded s _ (ltb 0 n) _ _ (λ _. inl refl)
        (λ e.
          if-Guarded s _ (is_get r.method) _ _ (λ _. inl refl)
            (λ _.
              signup_form-Guarded r s r.form
                (subst (λ x. h.store.count_users s ≡ some x) (no_users n e) c) refl))

  -- Signing up changes the store only where it has no user, and only with a name and a password that
  -- pass the checks.
  pub serve_signup-Guarded :
      (r : Request) (s : S) → Guarded s (IsFirstUser r s) (serve_signup h r s)
  unfolding serve_signup
  serve_signup-Guarded r s =
      if-Guarded s _ (not (is_get r.method || is_post r.method)) _ _ (λ _. inl refl)
        (λ _. signup_with-Guarded r s (h.store.count_users s) refl)

  -- A user of the name that the form gives has the password that the form gives.
  abbrev pub IsKnown : Request → S → Type 0
  IsKnown r s =
      (values : Text → Text) × (user : User) × (r.form ≡ some values)
      × (h.store.find_user_by_username (normalize_username (values (codes "username"))) s
          ≡ some (some user))
      × (check_password h.auth user.password_hash (values (codes "password")) ≡ true)

  login_user-Guarded :
      (r : Request) (password : Text) (s : S) (condition : Type 0) (found : Option (Option User))
      → ((user : User)
          → found ≡ some (some user)
          → check_password h.auth user.password_hash password ≡ true
          → condition)
      → Guarded s condition (login_user h r password s found)
  unfolding login_user
  login_user-Guarded r password s condition none k = inl refl
  login_user-Guarded r password s condition (some none) k = inl refl
  login_user-Guarded r password s condition (some (some user)) k =
      if-Guarded s _ (check_password h.auth user.password_hash password) _ _
        (λ c. inr (k user refl c)) (λ _. inl refl)

  login_form-Guarded :
      (r : Request) (s : S) (form : Option (Text → Text))
      → r.form ≡ form
      → Guarded s (IsKnown r s) (login_form h r s form)
  unfolding login_form
  login_form-Guarded r s none f = inl refl
  login_form-Guarded r s (some values) f =
      login_user-Guarded r (values (codes "password")) s _ _
        (λ user found c. (values, user, f, found, c))

  login_with-Guarded :
      (r : Request) (s : S) (users : Option ℕ) → Guarded s (IsKnown r s) (login_with h r s users)
  unfolding login_with
  login_with-Guarded r s none = inl refl
  login_with-Guarded r s (some n) =
      if-Guarded s _ (nat_eq n 0) _ _ (λ _. inl refl)
        (λ _.
          if-Guarded s _ (is_get r.method) _ _ (λ _. inl refl)
            (λ _. login_form-Guarded r s r.form refl))

  -- Signing in changes the store, that is to say starts a session, only where a user has the name
  -- and the password of the form.
  pub serve_login-Guarded : (r : Request) (s : S) → Guarded s (IsKnown r s) (serve_login h r s)
  unfolding serve_login
  serve_login-Guarded r s =
      if-Guarded s _ (not (is_get r.method || is_post r.method)) _ _ (λ _. inl refl)
        (λ _. login_with-Guarded r s (h.store.count_users s))

  logout_of-Guarded :
      (r : Request) (s : S) (found : Option Session)
      → current_session h r s ≡ found
      → Guarded s (IsAuthorised r s r.form_value) (logout_of h r s found)
  unfolding logout_of
  logout_of-Guarded r s none e = inl refl
  logout_of-Guarded r s (some session) e =
      if-Guarded s _ (valid_csrf (r.form_value (codes "csrf_token")) session.csrf_token) _ _
        (λ c. inr (session, e, c)) (λ _. inl refl)

  -- Signing out changes the store only with the CSRF token of the session that the cookie names.
  pub serve_logout-Guarded :
      (r : Request) (s : S) → Guarded s (IsAuthorised r s r.form_value) (serve_logout h r s)
  unfolding serve_logout
  serve_logout-Guarded r s =
      if-Guarded s _ (not (is_post r.method)) _ _ (λ _. inl refl)
        (λ _. logout_of-Guarded r s (current_session h r s) refl)
