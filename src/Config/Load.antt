-- ===== src/Config/Load.antt =====
-- `Load` of internal/config/config.go.
use ct_cve.Base.{ℕ, ◌*◌, Text, codes, is_empty, trim_space, true, if◌then◌else◌}
use ct_cve.Base.Outcome.{Outcome, done, failed_with, ◌>>=◌}
use ct_cve.Config.{Config}
use ct_cve.Config.Check.{value_or_default, bool_from_env, duration_from_env, http_url_from_env}
use ct_cve.Config.Connections.{ConnectionLibrary, connections_name, ct_ops_connections_from_env}

abbrev pub milliseconds : ℕ → ℕ
milliseconds n = n * 1_000_000

abbrev pub seconds : ℕ → ℕ
seconds n = n * 1_000_000_000

abbrev pub database_url_name : Text
database_url_name = codes "CT_CVE_DATABASE_URL"

abbrev pub nvd_default : Text
nvd_default = codes "https://services.nvd.nist.gov/rest/json/cves/2.0"

abbrev pub kev_default : Text
kev_default =
    codes "https://www.cisa.gov/sites/default/files/feeds/known_exploited_vulnerabilities.json"

unfoldable pub required_database : Config → Outcome Config
required_database cfg =
    if is_empty cfg.database_url
    then failed_with (codes "CT_CVE_DATABASE_URL is required")
    else done cfg

unfoldable pub load : ConnectionLibrary → (Text → Text) → Outcome Config
unfolding trim_space duration_from_env bool_from_env http_url_from_env ct_ops_connections_from_env
    value_or_default required_database
load lib getenv =
    let api_key = trim_space (getenv (codes "CT_CVE_NVD_API_KEY")) in
    let default_delay = if is_empty api_key then seconds 6 else milliseconds 600 in
    duration_from_env lib.go getenv (codes "CT_CVE_FEED_SYNC_INTERVAL") (seconds 21_600)
    >>= λ interval.
        duration_from_env lib.go getenv (codes "CT_CVE_FEED_HTTP_TIMEOUT") (seconds 30)
        >>= λ timeout.
            bool_from_env lib.go getenv (codes "CT_CVE_FEED_SYNC_ON_STARTUP") true >>= λ on_startup.
            bool_from_env lib.go getenv (codes "CT_CVE_NVD_ENABLED") true >>= λ nvd_enabled.
            bool_from_env lib.go getenv (codes "CT_CVE_CISA_KEV_ENABLED") true >>= λ kev_enabled.
            duration_from_env lib.go getenv (codes "CT_CVE_NVD_REQUEST_DELAY") default_delay
            >>= λ delay.
                http_url_from_env lib.go getenv (codes "CT_CVE_NVD_BASE_URL") nvd_default
                >>= λ nvd_url.
                    http_url_from_env lib.go getenv (codes "CT_CVE_CISA_KEV_BASE_URL") kev_default
                    >>= λ kev_url.
                        ct_ops_connections_from_env lib (getenv connections_name) >>= λ connections.
                        required_database (record {
                          http_addr =
                              value_or_default (getenv (codes "CT_CVE_HTTP_ADDR")) (codes ":8080");
                          database_url = trim_space (getenv database_url_name);
                          feed_sync_interval = interval;
                          feed_sync_on_startup = on_startup;
                          feed_http_timeout = timeout;
                          sources = record {
                            nvd = record {
                              enabled = nvd_enabled;
                              base_url = nvd_url;
                              api_key = api_key;
                              request_delay = delay;
                            };
                            cisa_kev = record { enabled = kev_enabled; base_url = kev_url };
                          };
                          ct_ops_connections = connections;
                        })
