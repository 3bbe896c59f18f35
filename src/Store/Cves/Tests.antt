-- ===== src/Store/Cves/Tests.antt =====
-- The theorems on the feeds' tables, at one record and one affected package.
use ct_cve.Base.{◌≡◌, refl, Text, codes, none, [], ◌∷◌, true}
use ct_cve.Feed.Types.{
  CveRecord, AffectedEntry, FetchResult, new_record, no_package, severity_high, severity_unknown,
  source_nvd, source_debian_tracker,
}
use ct_cve.Feed.Records.{has_record}
use ct_cve.Store.Cves.{
  Postgres, FeedTables, upsert_cve_record, upsert_cve_records, upsert_affected_packages,
}
use ct_cve.Store.Cves.Merge.{
  Keeps, exploited, rejected, upsert_cve_record_twice, upsert_cve_records_flags,
}
use ct_cve.Store.Cves.Closed.{IsReferenced, upserts-IsReferenced, closed_result_stored}

abbrev id : Text
id = codes "CVE-2024-1"

abbrev postgres : Postgres
postgres = record {
  cve_error = λ _. none;
  affected_error = λ _. none;
  foreign_key_error = codes "foreign key";
  result_error = λ _ _. none;
  settings_error = λ _. none;
}

abbrev kev : CveRecord
kev = record (new_record id (codes "cisa-kev") severity_unknown) { known_exploited = true }

abbrev nvd : CveRecord
nvd = new_record id source_nvd severity_high

abbrev openssl : AffectedEntry
openssl = record {
  cve_id = id;
  source = source_debian_tracker;
  affected = record no_package { package_name = codes "openssl"; fixed_version = codes "3.0.1" };
  repository = [];
  severity = severity_high;
  package_state = [];
  metadata_json = [];
}

abbrev stored : FeedTables
stored = record { cves = kev ∷ []; affected = openssl ∷ [] }

abbrev fresh : FeedTables
fresh = record { cves = []; affected = [] }

upsert_cve_record_twice_example :
    upsert_cve_record nvd (upsert_cve_record nvd (kev ∷ [])) ≡ upsert_cve_record nvd (kev ∷ [])
upsert_cve_record_twice_example = upsert_cve_record_twice nvd (kev ∷ [])

upsert_cve_records_flags_example :
    Keeps has_record id stored.cves (upsert_cve_records postgres (nvd ∷ []) stored).1.cves
    × Keeps exploited id stored.cves (upsert_cve_records postgres (nvd ∷ []) stored).1.cves
    × Keeps rejected id stored.cves (upsert_cve_records postgres (nvd ∷ []) stored).1.cves
upsert_cve_records_flags_example = upsert_cve_records_flags postgres id (nvd ∷ []) stored

upserts-IsReferenced_example :
    IsReferenced (upsert_cve_records postgres (nvd ∷ []) stored).1
    × IsReferenced (upsert_affected_packages postgres (openssl ∷ []) stored).1
unfolding has_record
upserts-IsReferenced_example =
    upserts-IsReferenced postgres (nvd ∷ []) (openssl ∷ []) stored (refl, tt)

abbrev brought : FetchResult
brought = record { records = nvd ∷ []; affected_packages = openssl ∷ [] }

closed_result_stored_example :
    ((upsert_cve_records postgres (nvd ∷ []) fresh).0 ≡ none)
    × ((upsert_affected_packages postgres
          (openssl ∷ [])
          (upsert_cve_records postgres (nvd ∷ []) fresh).1).0
        ≡ none)
unfolding has_record
closed_result_stored_example =
    closed_result_stored postgres brought fresh (refl, tt) ((refl, tt), (refl, tt))
