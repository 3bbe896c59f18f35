-- ===== src/Gui/Settings.antt =====
-- The form of a source: `serveSourceConfig`.
use ct_cve.Base.{
  ℕ, pos, Text, codes, ◌==◌, ◌++◌, length, trim_space, is_empty, ltb, Bool, true, false, not, ◌&&◌,
  if◌then◌else◌, Option, some, none, [],
}
use ct_cve.Base.Outcome.{Outcome, done, failed_with, ◌>>=◌}
use ct_cve.Auth.{Session}
use ct_cve.Config.{Config, SourceSettings, nvd_id, cisa_kev_id, is_positive}
use ct_cve.Config.Check.{validate_http_url, validate_positive_duration}
use ct_cve.Feed.Clean.{trim_prefix}
use ct_cve.Gui.{
  Request, Response, Handler, http_error, redirect, not_found, not_allowed, is_post, valid_csrf,
  current_session, require_session, effective_config,
}

abbrev pub hour : ℕ
hour = 3_600_000_000_000

unfoldable pub bool_word : Bool → Text
bool_word true = codes "true"
bool_word false = codes "false"

module _ {S : Type 0} (h : Handler S) where
  -- The key of the form, where it gives one.
  unfoldable pub new_api_key : Text → Text → Outcome Text
  new_api_key key old =
      if is_empty key
      then done old
      else if ltb 256 (length key)
      then failed_with (codes "NVD API key must be 256 characters or fewer")
      else done key

  unfoldable pub nvd_setting : SourceSettings → Config → (Text → Text) → Outcome SourceSettings
  unfolding ◌==◌ trim_space new_api_key validate_positive_duration
  nvd_setting setting cfg values =
      let old =
        if values (codes "clear_api_key") == codes "on" then [] else cfg.sources.nvd.api_key in
      new_api_key (trim_space (values (codes "api_key"))) old >>= λ api_key.
      validate_positive_duration h.go (values (codes "request_delay")) hour >>= λ request_delay.
      done (record setting { api_key = api_key; request_delay = request_delay })

  unfoldable pub source_setting_from_form : Text → Config → (Text → Text) → Outcome SourceSettings
  unfolding ◌==◌ validate_http_url nvd_setting
  source_setting_from_form source cfg values =
      validate_http_url h.go (values (codes "base_url")) >>= λ base_url.
      let setting : SourceSettings = record {
        source = source;
        enabled = values (codes "enabled") == codes "on";
        base_url = base_url;
        api_key = [];
        request_delay = pos 0;
      } in
      if source == nvd_id then nvd_setting setting cfg values else done setting

  unfoldable pub source_config_log_detail : SourceSettings → Text
  unfolding ◌==◌ bool_word
  source_config_log_detail setting =
      let start =
        codes "enabled=" ++ bool_word setting.enabled ++ codes " endpoint=" ++ setting.base_url in
      let key = codes " apiKeyConfigured=" ++ bool_word (not (is_empty setting.api_key)) in
      let delay = codes " requestDelay=" ++ h.go.duration_string setting.request_delay in
      if not (setting.source == nvd_id)
      then start
      else if is_positive setting.request_delay
      then start ++ key ++ delay
      else start ++ key

  unfoldable pub logged : Bool × S → Response × S
  logged (false, s) =
      (http_error 500 (codes "failed to record CT-CVE source configuration change"), s)
  logged (true, s) = (redirect (codes "/status"), s)

  unfoldable pub saved : SourceSettings → Bool × S → Response × S
  unfolding logged source_config_log_detail
  saved setting (false, s) =
      (http_error 500 (codes "failed to save CT-CVE source configuration"), s)
  saved setting (true, s) = logged (
      h.store.record_operational_log setting.source (codes "api") (codes "info")
        (codes "source configuration updated") (source_config_log_detail setting) s)

  unfoldable pub save : S → Outcome SourceSettings → Response × S
  unfolding saved
  save s (failed_with error) = (http_error 400 error, s)
  save s (done setting) = saved setting (h.store.upsert_feed_source_config setting s)

  unfoldable pub configure : Text → (Text → Text) → S → Option Config → Response × S
  unfolding save source_setting_from_form
  configure source values s none =
      (http_error 500 (codes "failed to load CT-CVE source configuration"), s)
  configure source values s (some cfg) = save s (source_setting_from_form source cfg values)

  unfoldable pub checked_form : Text → Session → S → Option (Text → Text) → Response × S
  unfolding valid_csrf configure effective_config
  checked_form source session s none =
      (http_error 400 (codes "invalid source configuration form"), s)
  checked_form source session s (some values) =
      if valid_csrf (values (codes "csrf_token")) session.csrf_token
      then configure source values s (effective_config h s)
      else (http_error 403 (codes "invalid CSRF token"), s)

  unfoldable pub source_form : Request → S → Session → Response × S
  unfolding ◌==◌ trim_prefix checked_form
  source_form r s session =
      let source = trim_prefix r.path (codes "/sources/") in
      if not (source == nvd_id) && not (source == cisa_kev_id)
      then (not_found, s)
      else checked_form source session s r.form

  unfoldable pub serve_source_config : Request → S → Response × S
  unfolding ◌==◌ require_session source_form current_session
  serve_source_config r s =
      if not (is_post r.method)
      then (not_allowed (codes "POST"), s)
      else require_session h (source_form r s) s (current_session h r s)
