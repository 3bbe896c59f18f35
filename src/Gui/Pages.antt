-- ===== src/Gui/Pages.antt =====
-- The pages of the status: `serveIndex` and `serveStatus`.
use ct_cve.Base.{
  pos, Text, codes, ◌==◌, is_empty, false, not, ◌&&◌, if◌then◌else◌, Option, some, none, ◌>>=◌,
  List, [], ◌∷◌,
}
use ct_cve.Auth.{Session}
use ct_cve.Config.{Config, nvd_id, cisa_kev_id}
use ct_cve.Store.Sources.{FeedSourceStatus, OperationalLog}
use ct_cve.Gui.{
  Request, Response, Overview, Handler, Body, status_page, status_json, empty, shows, http_error,
  not_found, not_allowed, is_get, is_head, current_session, require_session, effective_config,
}

unfoldable pub find_status : Text → List FeedSourceStatus → Option FeedSourceStatus
unfolding ◌==◌
find_status source [] = none
find_status source (status ∷ statuses) =
    let rest = find_status source statuses in if status.source == source then some status else rest

module _ {S : Type 0} (h : Handler S) where
  unfoldable pub overview_of :
      Request → Session → Config → List FeedSourceStatus → List OperationalLog → Overview
  unfolding find_status
  overview_of r session cfg statuses logs = record {
    generated_at = r.now;
    interval = h.go.duration_string cfg.feed_sync_interval;
    sync_on_startup = cfg.feed_sync_on_startup;
    http_timeout = h.go.duration_string cfg.feed_http_timeout;
    sources =
        record {
          id = nvd_id;
          name = codes "NVD";
          enabled = cfg.sources.nvd.enabled;
          base_url = cfg.sources.nvd.base_url;
          api_key_configured = not (is_empty cfg.sources.nvd.api_key);
          request_delay = h.go.duration_string cfg.sources.nvd.request_delay;
          feed_source_status = find_status nvd_id statuses;
        }
        ∷ record {
          id = cisa_kev_id;
          name = codes "CISA KEV";
          enabled = cfg.sources.cisa_kev.enabled;
          base_url = cfg.sources.cisa_kev.base_url;
          api_key_configured = false;
          request_delay = [];
          feed_source_status = find_status cisa_kev_id statuses;
        }
        ∷ [];
    logs = logs;
    csrf_token = session.csrf_token;
  }

  unfoldable pub overview : Request → Session → S → Option Overview
  unfolding effective_config overview_of
  overview r session s = effective_config h s >>= λ cfg.
      h.store.list_feed_source_status s >>= λ statuses.
      h.store.list_operational_logs (pos 25) s >>= λ logs.
      some (overview_of r session cfg statuses logs)

  unfoldable pub show_overview : (Overview → Body) → Request → Option Overview → Response
  show_overview body r none = http_error 500 (codes "failed to load CT-CVE status")
  show_overview body r (some o) = shows 200 (if is_head r.method then empty else body o)

  unfoldable pub serve_overview : (Overview → Body) → Request → S → Response × S
  unfolding require_session current_session overview show_overview
  serve_overview body r s =
      require_session h (λ session. (show_overview body r (overview r session s), s)) s
        (current_session h r s)

  unfoldable pub serve_index : Request → S → Response × S
  unfolding ◌==◌ serve_overview
  serve_index r s =
      if not (r.path == codes "/") && not (r.path == codes "/status")
      then (not_found, s)
      else if not (is_get r.method)
      then (not_allowed (codes "GET, HEAD"), s)
      else serve_overview status_page r s

  unfoldable pub serve_status : Request → S → Response × S
  unfolding ◌==◌ serve_overview
  serve_status r s =
      if not (is_get r.method)
      then (not_allowed (codes "GET, HEAD"), s)
      else serve_overview status_json r s
