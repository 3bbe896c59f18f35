-- ===== src/Config/Valid.antt =====
-- What the whole of a configuration that has been loaded satisfies.
use ct_cve.Base.{
  ℕ, ℤ, pos, Text, ◌≡◌, refl, subst, arith, is_empty, trim_space, Bool, true, false, All,
  if◌then◌else◌, Option, some, none, codes,
}
use ct_cve.Base.Outcome.{done, done_parts, bind-done, unless_failed, if_done}
use ct_cve.Config.{Config, is_positive}
use ct_cve.Config.Check.{
  GoLibrary, positive_duration, duration_from_env, bool_from_env, http_url_from_env,
}
use ct_cve.Config.Connections.{ConnectionLibrary, connections_name, ct_ops_connections_from_env}
use ct_cve.Config.Laws.{IsSafe, ct_ops_connections_from_env-IsSafe}
use ct_cve.Config.Load.{
  required_database, seconds, milliseconds, nvd_default, kev_default, database_url_name, load,
}

module _ (lib : GoLibrary) where
  positive_duration-done :
      (name : Text) (parsed : Option ℤ) (d : ℤ)
      → positive_duration lib name parsed ≡ done d
      → is_positive d ≡ true
  unfolding positive_duration
  positive_duration-done name none d h = ground arith
  positive_duration-done name (some parsed) d h =
      let (p, e) = if_done (is_positive parsed) _ (done parsed) d h in
      subst (λ x. is_positive x ≡ true) (done_parts e) p

  from_env_positive :
      (name value : Text) (fallback : ℕ) (b : Bool) (d : ℤ)
      → is_positive (pos fallback) ≡ true
      → (if b then done (pos fallback) else positive_duration lib name (lib.parse_duration value))
        ≡ done d
      → is_positive d ≡ true
  from_env_positive name value fallback true d p h =
      subst (λ x. is_positive x ≡ true) (done_parts h) p
  from_env_positive name value fallback false d p h =
      positive_duration-done name (lib.parse_duration value) d h

  duration_from_env-done :
      (getenv : Text → Text) (name : Text) (fallback : ℕ) (d : ℤ)
      → is_positive (pos fallback) ≡ true
      → duration_from_env lib getenv name fallback ≡ done d
      → is_positive d ≡ true
  unfolding duration_from_env
  duration_from_env-done getenv name fallback d p h =
      from_env_positive name (trim_space (getenv name)) fallback _ d p h

-- The database is named, the durations are positive, and the connections are safe.
pub record IsValid (cfg : Config) : Type 0 where
  pub has_database : is_empty cfg.database_url ≡ false
  pub positive_interval : is_positive cfg.feed_sync_interval ≡ true
  pub positive_timeout : is_positive cfg.feed_http_timeout ≡ true
  pub positive_delay : is_positive cfg.sources.nvd.request_delay ≡ true
  pub safe_connections : All IsSafe cfg.ct_ops_connections

default_positive : (b : Bool) → is_positive (pos (if b then seconds 6 else milliseconds 600)) ≡ true
default_positive true = refl
default_positive false = refl

module _ (lib : ConnectionLibrary) (getenv : Text → Text) where
  -- A configuration that has been loaded names its database, has positive durations throughout, and
  -- its connections are safe: what their names, organisations and tokens need, they have.
  pub load-IsValid : (cfg : Config) → load lib getenv ≡ done cfg → IsValid cfg
  unfolding load required_database
  load-IsValid cfg h =
      let key = trim_space (getenv (codes "CT_CVE_NVD_API_KEY")) in
      let delay_default = if is_empty key then seconds 6 else milliseconds 600 in
      let go = lib.go in
      let (interval, a, h1) =
        bind-done (duration_from_env go getenv (codes "CT_CVE_FEED_SYNC_INTERVAL") (seconds 21_600))
          _ cfg h in
      let (timeout, b, h2) =
        bind-done (duration_from_env go getenv (codes "CT_CVE_FEED_HTTP_TIMEOUT") (seconds 30)) _
          cfg h1 in
      let (on_startup, c, h3) =
        bind-done (bool_from_env go getenv (codes "CT_CVE_FEED_SYNC_ON_STARTUP") true) _ cfg h2 in
      let (nvd_enabled, d, h4) =
        bind-done (bool_from_env go getenv (codes "CT_CVE_NVD_ENABLED") true) _ cfg h3 in
      let (kev_enabled, e, h5) =
        bind-done (bool_from_env go getenv (codes "CT_CVE_CISA_KEV_ENABLED") true) _ cfg h4 in
      let (delay, f, h6) =
        bind-done (duration_from_env go getenv (codes "CT_CVE_NVD_REQUEST_DELAY") delay_default) _
          cfg h5 in
      let (nvd_url, g, h7) =
        bind-done (http_url_from_env go getenv (codes "CT_CVE_NVD_BASE_URL") nvd_default) _ cfg
          h6 in
      let (kev_url, i, h8) =
        bind-done (http_url_from_env go getenv (codes "CT_CVE_CISA_KEV_BASE_URL") kev_default) _ cfg
          h7 in
      let (connections, j, h9) =
        bind-done (ct_ops_connections_from_env lib (getenv connections_name)) _ cfg h8 in
      let (named, k) =
        unless_failed (is_empty (trim_space (getenv database_url_name))) _ _ cfg h9 in
      subst IsValid (done_parts k) (record {
        has_database = named;
        positive_interval = duration_from_env-done go getenv _ _ interval refl a;
        positive_timeout = duration_from_env-done go getenv _ _ timeout refl b;
        positive_delay =
            duration_from_env-done go getenv _ delay_default delay (default_positive (is_empty key))
              f;
        safe_connections =
            ct_ops_connections_from_env-IsSafe lib (getenv connections_name) connections j;
      })
