-- ===== src/Store/Cves.antt =====
-- The feeds' tables, cve_records and affected_packages: the upserts of internal/store/postgres.go.
-- A table is the list of its rows; the columns `created_at` and `updated_at` are left out, and so is
-- the rounding of the column types. A JSON text stands for its value.
pub mod Merge
pub mod Closed
mod Tests
use ct_cve.Base.{
  Text, codes, ◌==◌, Bool, true, false, not, ◌&&◌, ◌||◌, any, is_empty, if◌then◌else◌, Option, some,
  none, List, [], ◌∷◌,
}
use ct_cve.Vuln.Types.{AffectedPackage}
use ct_cve.CtOps.Time.{Time}
use ct_cve.Feed.Types.{CveRecord, AffectedEntry, SourceResult, severity_unknown}
use ct_cve.Feed.Records.{has_record}
use ct_cve.Store.Tables.{upsert}

-- Errors that PostgreSQL has of its own (a lost connection, a value that a column does not take):
-- a message, or none. Those of recording a result and of reading the settings may depend on the
-- time of the statement.
pub record Postgres : Type 0 where
  pub cve_error : CveRecord → Option Text
  pub affected_error : AffectedEntry → Option Text
  pub foreign_key_error : Text
  pub result_error : SourceResult → Time → Option Text
  pub settings_error : Time → Option Text

abbrev pub empty_json : Text
empty_json = codes "{}"

unfoldable pub json_or_empty : Text → Text
json_or_empty raw = if is_empty raw then empty_json else raw

abbrev pub coalesce {ℓ} : {A : Type ℓ} → Option A → Option A → Option A
coalesce (some x) old = some x
coalesce none old = old

-- CASE WHEN new <> default THEN new ELSE old END
unfoldable pub unless : Text → Text → Text → Text
unfolding ◌==◌
unless default new old = if new == default then old else new

-- The row of a record, and what ON CONFLICT makes of the row that is there.
unfoldable pub cve_row : CveRecord → CveRecord
unfolding json_or_empty
cve_row r = record r { metadata_json = json_or_empty r.metadata_json }

unfoldable pub merge_cve : CveRecord → CveRecord → CveRecord
unfolding unless
merge_cve new old = record {
  cve_id = old.cve_id;
  title = unless [] new.title old.title;
  description = unless [] new.description old.description;
  severity = unless severity_unknown new.severity old.severity;
  cvss_score = coalesce new.cvss_score old.cvss_score;
  published_at = coalesce new.published_at old.published_at;
  modified_at = coalesce new.modified_at old.modified_at;
  rejected = new.rejected || old.rejected;
  known_exploited = new.known_exploited || old.known_exploited;
  kev_due_date = coalesce new.kev_due_date old.kev_due_date;
  kev_vendor_project = unless [] new.kev_vendor_project old.kev_vendor_project;
  kev_product = unless [] new.kev_product old.kev_product;
  kev_required_action = unless [] new.kev_required_action old.kev_required_action;
  source = unless [] new.source old.source;
  metadata_json = unless empty_json new.metadata_json old.metadata_json;
}

unfoldable pub upsert_cve_record : CveRecord → List CveRecord → List CveRecord
unfolding ◌==◌ upsert cve_row merge_cve
upsert_cve_record r rows =
    let new = cve_row r in
    upsert (λ (row : CveRecord). row.cve_id == new.cve_id) (merge_cve new) new rows

unfoldable pub affected_row : AffectedEntry → AffectedEntry
unfolding json_or_empty
affected_row a = record a { metadata_json = json_or_empty a.metadata_json }

-- The columns of the index affected_packages_source_identity_idx.
unfoldable pub same_affected : AffectedEntry → AffectedEntry → Bool
unfolding ◌==◌
same_affected new row =
    (row.cve_id == new.cve_id)
    && (row.source == new.source)
    && (row.affected.distro_id == new.affected.distro_id)
    && (row.affected.distro_version_id == new.affected.distro_version_id)
    && (row.affected.distro_codename == new.affected.distro_codename)
    && (row.affected.package_name == new.affected.package_name)
    && (row.affected.fixed_version == new.affected.fixed_version)
    && (row.repository == new.repository)

unfoldable pub merge_affected : AffectedEntry → AffectedEntry → AffectedEntry
unfolding unless
merge_affected new old = record {
  cve_id = old.cve_id;
  source = old.source;
  affected = record {
    distro_id = old.affected.distro_id;
    distro_version_id = old.affected.distro_version_id;
    distro_codename = old.affected.distro_codename;
    package_name = old.affected.package_name;
    source_package_name =
        unless [] new.affected.source_package_name old.affected.source_package_name;
    fixed_version = old.affected.fixed_version;
    affected_versions =
        if is_empty new.affected.affected_versions
        then old.affected.affected_versions
        else new.affected.affected_versions;
  };
  repository = old.repository;
  severity = unless severity_unknown new.severity old.severity;
  package_state = unless [] new.package_state old.package_state;
  metadata_json = unless empty_json new.metadata_json old.metadata_json;
}

unfoldable pub upsert_affected_package : AffectedEntry → List AffectedEntry → List AffectedEntry
unfolding upsert affected_row same_affected merge_affected
upsert_affected_package entry rows =
    let new = affected_row entry in upsert (same_affected new) (merge_affected new) new rows

pub record FeedTables : Type 0 where
  pub cves : List CveRecord
  pub affected : List AffectedEntry

-- The first error ends a loop; the rows that are written stay.
unfoldable pub unless_error :
    Option Text → FeedTables → Option Text × FeedTables → Option Text × FeedTables
unless_error none t rest = rest
unless_error (some error) t rest = (some error, t)

module _ (postgres : Postgres) where
  unfoldable pub upsert_cve_records : List CveRecord → FeedTables → Option Text × FeedTables
  unfolding upsert_cve_record unless_error
  upsert_cve_records [] t = (none, t)
  upsert_cve_records (r ∷ records) t =
      unless_error (postgres.cve_error r) t
        (upsert_cve_records records (record t { cves = upsert_cve_record r t.cves }))

  unfoldable pub affected_row_error : AffectedEntry → List CveRecord → Option Text
  unfolding has_record
  affected_row_error a cves =
      coalesce (postgres.affected_error a)
        (if has_record a.cve_id cves then none else some postgres.foreign_key_error)

  unfoldable pub upsert_affected_packages :
      List AffectedEntry → FeedTables → Option Text × FeedTables
  unfolding upsert_affected_package affected_row_error unless_error
  upsert_affected_packages [] t = (none, t)
  upsert_affected_packages (a ∷ entries) t = unless_error (affected_row_error a t.cves) t (
      upsert_affected_packages entries
        (record t { affected = upsert_affected_package a t.affected }))
