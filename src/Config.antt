-- ===== src/Config.antt =====
-- The configuration of the service: internal/config/config.go. A duration is a number of
-- nanoseconds. What the environment gives is a parameter, a function from names to texts.
pub mod Check
pub mod Connections
pub mod Load
pub mod Laws
pub mod Valid
mod Tests
use ct_cve.Base.{
  ℕ, zero, suc, ℤ, pos, negsuc, Text, codes, ◌==◌, is_empty, Bool, true, false, if◌then◌else◌, List,
  [], ◌∷◌,
}
use ct_cve.CtOps.Types.{Connection}

pub record NvdSourceConfig : Type 0 where
  pub enabled : Bool
  pub base_url : Text
  pub api_key : Text
  pub request_delay : ℤ

pub record HttpSourceConfig : Type 0 where
  pub enabled : Bool
  pub base_url : Text

pub record SourceConfig : Type 0 where
  pub nvd : NvdSourceConfig
  pub cisa_kev : HttpSourceConfig

pub record SourceSettings : Type 0 where
  pub source : Text
  pub enabled : Bool
  pub base_url : Text
  pub api_key : Text
  pub request_delay : ℤ

pub record Config : Type 0 where
  pub http_addr : Text
  pub database_url : Text
  pub feed_sync_interval : ℤ
  pub feed_sync_on_startup : Bool
  pub feed_http_timeout : ℤ
  pub sources : SourceConfig
  pub ct_ops_connections : List Connection

abbrev pub nvd_id : Text
nvd_id = codes "nvd"

abbrev pub cisa_kev_id : Text
cisa_kev_id = codes "cisa-kev"

abbrev pub is_positive : ℤ → Bool
is_positive (pos zero) = false
is_positive (pos (suc n)) = true
is_positive (negsuc n) = false

-- The settings of one source, over what has been configured.
unfoldable pub set_nvd : SourceSettings → NvdSourceConfig → NvdSourceConfig
set_nvd setting old = record {
  enabled = setting.enabled;
  base_url = if is_empty setting.base_url then old.base_url else setting.base_url;
  api_key = setting.api_key;
  request_delay =
      if is_positive setting.request_delay then setting.request_delay else old.request_delay;
}

unfoldable pub set_cisa_kev : SourceSettings → HttpSourceConfig → HttpSourceConfig
set_cisa_kev setting old = record {
  enabled = setting.enabled;
  base_url = if is_empty setting.base_url then old.base_url else setting.base_url;
}

unfoldable pub apply_setting : SourceSettings → SourceConfig → SourceConfig
unfolding ◌==◌ set_nvd set_cisa_kev
apply_setting setting sources =
    if setting.source == nvd_id
    then record sources { nvd = set_nvd setting sources.nvd }
    else if setting.source == cisa_kev_id
    then record sources { cisa_kev = set_cisa_kev setting sources.cisa_kev }
    else sources

unfoldable pub apply_all : List SourceSettings → SourceConfig → SourceConfig
unfolding apply_setting
apply_all [] sources = sources
apply_all (setting ∷ settings) sources = apply_all settings (apply_setting setting sources)

unfoldable pub apply_source_settings : List SourceSettings → Config → Config
unfolding apply_all
apply_source_settings settings cfg = record cfg { sources = apply_all settings cfg.sources }
