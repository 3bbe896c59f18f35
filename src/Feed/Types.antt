-- ===== src/Feed/Types.antt =====
-- Records of a feed: internal/feed/types.go. A float64 is copied only; the model carries the text of
-- the number.
use ct_cve.Base.{ℕ, Text, codes, Bool, false, Option, none, List, []}
use ct_cve.CtOps.Time.{Time}
use ct_cve.Vuln.Types.{AffectedPackage}

abbrev pub Severity : Type 0
Severity = Text

abbrev pub severity_critical : Severity
severity_critical = codes "critical"

abbrev pub severity_high : Severity
severity_high = codes "high"

abbrev pub severity_medium : Severity
severity_medium = codes "medium"

abbrev pub severity_low : Severity
severity_low = codes "low"

abbrev pub severity_none : Severity
severity_none = codes "none"

abbrev pub severity_unknown : Severity
severity_unknown = codes "unknown"

abbrev pub source_alpine_sec_db : Text
source_alpine_sec_db = codes "alpine-secdb"

abbrev pub source_cisa_kev : Text
source_cisa_kev = codes "cisa-kev"

abbrev pub source_debian_tracker : Text
source_debian_tracker = codes "debian-tracker"

abbrev pub source_nvd : Text
source_nvd = codes "nvd"

abbrev pub source_red_hat_security_data : Text
source_red_hat_security_data = codes "redhat-security-data"

abbrev pub source_ubuntu_osv : Text
source_ubuntu_osv = codes "ubuntu-osv"

pub record CveRecord : Type 0 where
  pub cve_id : Text
  pub title : Text
  pub description : Text
  pub severity : Severity
  pub cvss_score : Option Text
  pub published_at : Option Time
  pub modified_at : Option Time
  pub rejected : Bool
  pub known_exploited : Bool
  pub kev_due_date : Option Time
  pub kev_vendor_project : Text
  pub kev_product : Text
  pub kev_required_action : Text
  pub source : Text
  pub metadata_json : Text

-- The AffectedPackage of package feed; what the matching reads is a record of its own.
pub record AffectedEntry : Type 0 where
  pub cve_id : Text
  pub source : Text
  pub affected : AffectedPackage
  pub repository : Text
  pub severity : Severity
  pub package_state : Text
  pub metadata_json : Text

pub record FetchResult : Type 0 where
  pub records : List CveRecord
  pub affected_packages : List AffectedEntry

-- An empty error stands for success.
pub record SourceResult : Type 0 where
  pub source : Text
  pub records : ℕ
  pub error : Text

-- A record with the given fields, and the zero values of the others.
abbrev pub new_record : (cve_id : Text) (source : Text) → Severity → CveRecord
new_record cve_id source severity = record {
  cve_id = cve_id;
  title = [];
  description = [];
  severity = severity;
  cvss_score = none;
  published_at = none;
  modified_at = none;
  rejected = false;
  known_exploited = false;
  kev_due_date = none;
  kev_vendor_project = [];
  kev_product = [];
  kev_required_action = [];
  source = source;
  metadata_json = [];
}

abbrev pub no_package : AffectedPackage
no_package = record {
  distro_id = [];
  distro_version_id = [];
  distro_codename = [];
  package_name = [];
  source_package_name = [];
  fixed_version = [];
  affected_versions = [];
}
