-- ===== src/Feed/Kev.antt =====
-- The catalogue of known exploited vulnerabilities: internal/feed/cisa.go.
use ct_cve.Base.{
  ℕ, leb, ltb, Text, trim_space, is_empty, not, ◌||◌, if◌then◌else◌, Bool, true, Option, some, none,
  List, [], ◌∷◌,
}
use ct_cve.CtOps.Time.{Time}
use ct_cve.Feed.Types.{CveRecord, FetchResult, new_record, severity_unknown, source_cisa_kev}

pub record KevVulnerability : Type 0 where
  pub cve_id : Text
  pub vendor_project : Text
  pub product : Text
  pub due_date : Text
  pub required_action : Text

-- time.Parse with DateOnly; a date that does not parse is dropped.
unfoldable pub due_date_of : (Text → Option Time) → Text → Option Time
due_date_of parse_date due_date = if is_empty due_date then none else parse_date due_date

unfoldable pub kev_record : (Text → Option Time) → Text → KevVulnerability → CveRecord
unfolding due_date_of trim_space
kev_record parse_date cve_id v = record (new_record cve_id source_cisa_kev severity_unknown) {
  known_exploited = true;
  kev_due_date = due_date_of parse_date v.due_date;
  kev_vendor_project = trim_space v.vendor_project;
  kev_product = trim_space v.product;
  kev_required_action = trim_space v.required_action;
}

unfoldable pub kev_records : (Text → Option Time) → List KevVulnerability → List CveRecord
unfolding trim_space
kev_records parse_date [] = []
kev_records parse_date (v ∷ vulnerabilities) =
    let rest = kev_records parse_date vulnerabilities in
    let cve_id = trim_space v.cve_id in
    if is_empty cve_id then rest else kev_record parse_date cve_id v ∷ rest

-- `none` is an error of the decoder.
unfoldable pub parse_cisa_kev :
    (Text → Option Time) → Option (List KevVulnerability) → Option (List CveRecord)
parse_cisa_kev parse_date none = none
parse_cisa_kev parse_date (some doc) = some (kev_records parse_date doc)

-- A status that is no success is an error.
abbrev pub is_success : ℕ → Bool
is_success status = not (ltb status 200 || leb 300 status)

-- `Fetch`: the response is a status and the decoded body, or `none` where there is none.
unfoldable pub fetch_cisa_kev :
    (Text → Option Time) → Option (ℕ × Option (List KevVulnerability)) → Option FetchResult
fetch_cisa_kev parse_date none = none
fetch_cisa_kev parse_date (some (status, body)) =
    if is_success status
    then elim (parse_cisa_kev parse_date body) [
      | none ↦ none
      | some records ↦ some (record { records = records; affected_packages = [] })
    ]
    else none
