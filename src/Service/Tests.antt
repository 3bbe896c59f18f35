-- ===== src/Service/Tests.antt =====
-- A cycle of two sources, of which one fails.
use ct_cve.Base.{pos, refl, codes, true, none, some, [], ◌∷◌}
use ct_cve.Config.{Config, SourceSettings, nvd_id, apply_all}
use ct_cve.Feed.Types.{new_record, severity_high}
use ct_cve.Store.Cves.{Postgres}
use ct_cve.Store.Sources.{SourceTables, list_feed_source_config, upsert_feed_source_config}
use ct_cve.Store.Sources.InEffect.{IsInEffect, upsert_feed_source_config-IsInEffect}
use ct_cve.Service.{Sources, IsCycle, run_cycle, run_cycle-Logs}

abbrev sources : Sources
sources = record {
  nvd = λ cfg t. ((record { records = []; affected_packages = [] }, some (codes "timeout")), t);
  cisa_kev = λ url t. (
    (
      record {
        records = new_record (codes "CVE-2024-1") (codes "cisa-kev") severity_high ∷ [];
        affected_packages = [];
      },
      none,
    ),
    t,
  );
}

abbrev postgres : Postgres
postgres = record {
  cve_error = λ _. none;
  affected_error = λ _. none;
  foreign_key_error = codes "foreign key";
  result_error = λ _ _. none;
  settings_error = λ _. none;
}

abbrev cfg : Config
cfg = record {
  http_addr = [];
  database_url = codes "postgres://db";
  feed_sync_interval = pos 1;
  feed_sync_on_startup = true;
  feed_http_timeout = pos 1;
  sources = record {
    nvd = record {
      enabled = true;
      base_url = codes "http://n";
      api_key = [];
      request_delay = pos 1;
    };
    cisa_kev = record { enabled = true; base_url = codes "http://k" };
  };
  ct_ops_connections = [];
}

abbrev start : SourceTables
start = record {
  feeds = record { cves = []; affected = [] };
  statuses = [];
  settings = [];
  logs = [];
  next_log_id = 1;
  clock = 5;
}

run_cycle-Logs_example : IsCycle postgres cfg start (run_cycle postgres sources cfg start)
run_cycle-Logs_example =
    run_cycle-Logs postgres sources cfg start
      (record { nvd_quiet = λ cfg t. refl; cisa_kev_quiet = λ url t. refl })

-- A delay of a second, and the URL of a mirror.
abbrev setting : SourceSettings
setting = record {
  source = nvd_id;
  enabled = true;
  base_url = codes "http://mirror";
  api_key = codes "key";
  request_delay = pos 1_000_000_000;
}

upsert_feed_source_config-IsInEffect_example :
    IsInEffect setting
      (apply_all (list_feed_source_config (upsert_feed_source_config setting start).1) cfg.sources)
unfolding upsert_feed_source_config
upsert_feed_source_config-IsInEffect_example =
    upsert_feed_source_config-IsInEffect setting start cfg.sources refl refl
