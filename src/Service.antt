-- ===== src/Service.antt =====
-- The service as cmd/ct-cve/main.go puts it together: the sources that the configuration enables,
-- and a cycle of their synchronisation with the database. What a source fetches is a parameter.
mod Tests
use ct_cve.Base.{
  ◌⊎◌, inl, inr, Option-cases, subst, sym, Text, is_empty, trim_space, Bool, true, false, not, ◌&&◌,
  ◌≡◌, refl, ◌∙◌, ap, arith, All, if◌then◌else◌, Option, some, none, List, [], ◌∷◌, ◌++◌,
}
use ct_cve.Config.{Config, NvdSourceConfig, SourceSettings, apply_source_settings}
use ct_cve.Feed.Types.{FetchResult, source_nvd, source_cisa_kev}
use ct_cve.Feed.Syncer.{Source, sync_once, sync_sources, with_provided}
use ct_cve.Feed.Syncer.Laws.{Logs, IsQuiet, IsQuietAll, enabled_ids, sync_sources-Logs}
use ct_cve.Store.Cves.{Postgres}
use ct_cve.Store.Sources.{
  SourceTables, list_feed_source_config, read_feed_source_config, unless_unread, feed_store,
}
use ct_cve.Store.Sources.Laws.{log_sources, feed_store-IsLogged}

abbrev pub Fetch : Type 0
Fetch = SourceTables → (FetchResult × Option Text) × SourceTables

-- The two sources, made of their configuration.
pub record Sources : Type 0 where
  pub nvd : NvdSourceConfig → Fetch
  pub cisa_kev : Text → Fetch

unfoldable pub nvd_source : Sources → NvdSourceConfig → Source SourceTables
unfolding trim_space
nvd_source sources cfg = record {
  id = source_nvd;
  enabled = not (is_empty (trim_space cfg.base_url));
  fetch = sources.nvd cfg;
}

unfoldable pub cisa_kev_source : Sources → Text → Source SourceTables
unfolding trim_space
cisa_kev_source sources base_url = record {
  id = source_cisa_kev;
  enabled = not (is_empty (trim_space base_url));
  fetch = sources.cisa_kev base_url;
}

unfoldable pub build_sources : Sources → Config → List (Source SourceTables)
unfolding nvd_source cisa_kev_source
build_sources sources cfg =
    let kev =
      if cfg.sources.cisa_kev.enabled
      then cisa_kev_source sources cfg.sources.cisa_kev.base_url ∷ []
      else [] in
    if cfg.sources.nvd.enabled then nvd_source sources cfg.sources.nvd ∷ kev else kev

-- The settings that are stored go over those of the environment.
unfoldable pub current_config : Config → SourceTables → Config
unfolding apply_source_settings list_feed_source_config
current_config cfg t = apply_source_settings (list_feed_source_config t) cfg

-- No sources where the settings cannot be read.
unfoldable pub sources_of :
    Sources
    → Config
    → List SourceSettings × Option Text
    → Option (List (Source SourceTables)) × Option Text
unfolding build_sources apply_source_settings
sources_of sources cfg (settings, none) =
    (some (build_sources sources (apply_source_settings settings cfg)), none)
sources_of sources cfg (settings, some error) = (none, some error)

unfoldable pub provide_sources :
    Postgres
    → Sources
    → Config
    → SourceTables
    → (Option (List (Source SourceTables)) × Option Text) × SourceTables
unfolding sources_of read_feed_source_config
provide_sources postgres sources cfg t =
    (sources_of sources cfg (read_feed_source_config postgres t), t)

unfoldable pub run_cycle : Postgres → Sources → Config → SourceTables → Option Text × SourceTables
unfolding sync_once provide_sources feed_store
run_cycle postgres sources cfg =
    sync_once (feed_store postgres) [] (some (provide_sources postgres sources cfg))

-- The ids of the sources that a configuration enables and names a URL for.
unfoldable pub configured_ids : Config → List Text
unfolding trim_space
configured_ids cfg =
    let kev =
      if cfg.sources.cisa_kev.enabled && not (is_empty (trim_space cfg.sources.cisa_kev.base_url))
      then source_cisa_kev ∷ []
      else [] in
    if cfg.sources.nvd.enabled && not (is_empty (trim_space cfg.sources.nvd.base_url))
    then source_nvd ∷ kev
    else kev

-- Fetching leaves the tables' log as it is, whatever it brings and however it fails.
pub record IsQuietFetch (sources : Sources) : Type 0 where
  pub nvd_quiet :
      (cfg : NvdSourceConfig) (t : SourceTables) → log_sources (sources.nvd cfg t).1 ≡ log_sources t
  pub cisa_kev_quiet :
      (url : Text) (t : SourceTables) → log_sources (sources.cisa_kev url t).1 ≡ log_sources t

built_ids :
    (sources : Sources) (cfg : Config)
    → enabled_ids (build_sources sources cfg) ≡ configured_ids cfg
unfolding enabled_ids build_sources nvd_source cisa_kev_source configured_ids
built_ids sources cfg = ground arith

abbrev AreQuiet : Postgres → List (Source SourceTables) → Type 0
AreQuiet postgres = IsQuietAll (feed_store postgres) log_sources (feed_store-IsLogged postgres)

quiet_if :
    (postgres : Postgres) (b : Bool) (xs ys : List (Source SourceTables))
    → AreQuiet postgres xs
    → AreQuiet postgres ys
    → AreQuiet postgres (if b then xs else ys)
quiet_if postgres true xs ys p q = p
quiet_if postgres false xs ys p q = q

built_quiet :
    (postgres : Postgres) (sources : Sources) (cfg : Config)
    → IsQuietFetch sources
    → AreQuiet postgres (build_sources sources cfg)
unfolding build_sources nvd_source cisa_kev_source
built_quiet postgres sources cfg q =
    let url = cfg.sources.cisa_kev.base_url in
    let kev =
      quiet_if postgres cfg.sources.cisa_kev.enabled (cisa_kev_source sources url ∷ []) []
        (q.cisa_kev_quiet url, tt) tt in
    quiet_if postgres cfg.sources.nvd.enabled _ _ (q.nvd_quiet cfg.sources.nvd, kev) kev

-- What a cycle returns and leaves: the error of reading the settings, and the tables as they were;
-- or what `Logs` says of the sources that the stored settings enable.
abbrev pub IsCycle : Postgres → Config → SourceTables → Option Text × SourceTables → Type 0
IsCycle postgres cfg t r =
    ((error : Text) × (postgres.settings_error t.clock ≡ some error) × (r ≡ (some error, t)))
    ⊎ ((postgres.settings_error t.clock ≡ none)
        × Logs (feed_store postgres) log_sources (configured_ids (current_config cfg t)) t r)

module _ (postgres : Postgres) (sources : Sources) (cfg : Config) (t : SourceTables) where
  cycle_unread :
      (error : Text)
      → postgres.settings_error t.clock ≡ some error
      → run_cycle postgres sources cfg t ≡ (some error, t)
  unfolding run_cycle sync_once with_provided provide_sources read_feed_source_config unless_unread
      sources_of
  cycle_unread error e = rw e refl

  cycle_read :
      postgres.settings_error t.clock ≡ none
      → run_cycle postgres sources cfg t
        ≡ sync_sources (feed_store postgres) (build_sources sources (current_config cfg t)) t
  unfolding run_cycle sync_once with_provided provide_sources read_feed_source_config unless_unread
      sources_of current_config
  cycle_read e = rw e refl

  cycle-Logs :
      IsQuietFetch sources
      → Logs
          (feed_store postgres)
          log_sources
          (configured_ids (current_config cfg t))
          t
          (sync_sources (feed_store postgres) (build_sources sources (current_config cfg t)) t)
  cycle-Logs q =
      let now = build_sources sources (current_config cfg t) in
      let r = sync_sources (feed_store postgres) now t in
      subst (λ ids. Logs (feed_store postgres) log_sources ids t r)
        (built_ids sources (current_config cfg t))
        (sync_sources-Logs (feed_store postgres) log_sources (feed_store-IsLogged postgres) now t
          (built_quiet postgres sources (current_config cfg t) q))

-- A cycle for which the settings cannot be read returns that error and changes nothing. Another
-- cycle either returns no error, and then has logged one result for each source that the stored
-- settings, over those of the environment, enable and give a URL, first NVD, then CISA KEV; or
-- returns the error of recording a result of one of these sources, and then has logged one result
-- for each of them before it. This holds whichever sources fail and whichever rows of theirs the
-- database does not take, where fetching leaves the log as it is.
pub run_cycle-Logs :
    (postgres : Postgres) (sources : Sources) (cfg : Config) (t : SourceTables)
    → IsQuietFetch sources
    → IsCycle postgres cfg t (run_cycle postgres sources cfg t)
run_cycle-Logs postgres sources cfg t q = elim (Option-cases (postgres.settings_error t.clock)) [
  | inl e ↦ inr (
    e,
    subst (Logs (feed_store postgres) log_sources (configured_ids (current_config cfg t)) t)
        (sym (cycle_read postgres sources cfg t e)) (cycle-Logs postgres sources cfg t q),
  )
  | inr (error, e) ↦ inl (error, e, cycle_unread postgres sources cfg t error e)
]
