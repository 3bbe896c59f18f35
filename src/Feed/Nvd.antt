-- ===== src/Feed/Nvd.antt =====
-- The National Vulnerability Database: internal/feed/nvd.go.
pub mod Pages
use ct_cve.Base.{
  ℕ, zero, suc, ◌+◌, leb, ltb, Text, codes, ◌==◌, trim_space, equal_fold, is_empty, not, ◌||◌,
  if◌then◌else◌, Bool, true, false, Option, some, none, List, [], ◌∷◌, ◌++◌,
}
use ct_cve.CtOps.Time.{Time}
use ct_cve.Feed.Types.{CveRecord, FetchResult, new_record, severity_unknown, source_nvd}
use ct_cve.Feed.Clean.{normalize_severity}
use ct_cve.Feed.Kev.{is_success}

pub record NvdDescription : Type 0 where
  pub lang : Text
  pub value : Text

-- A score is the text of its number.
pub record NvdMetric : Type 0 where
  pub base_score : Text
  pub base_severity : Text

-- The metrics are a map from a version of CVSS, here the list of its entries.
pub record NvdItem : Type 0 where
  pub id : Text
  pub published : Text
  pub last_modified : Text
  pub vuln_status : Text
  pub descriptions : List NvdDescription
  pub metrics : List (Text × List NvdMetric)

-- A total below zero, which ends the loop as zero does, is taken as zero.
pub record NvdPage : Type 0 where
  pub total_results : ℕ
  pub vulnerabilities : List NvdItem

unfoldable pub first_description : List NvdDescription → Text
unfolding trim_space
first_description [] = []
first_description (item ∷ _) = trim_space item.value

unfoldable pub english_or : Text → List NvdDescription → Text
unfolding trim_space ◌==◌
english_or other [] = other
english_or other (item ∷ items) =
    let rest = english_or other items in
    if item.lang == codes "en" then trim_space item.value else rest

unfoldable pub english_description : List NvdDescription → Text
unfolding english_or first_description
english_description items = english_or (first_description items) items

unfoldable pub metrics_at : Text → List (Text × List NvdMetric) → List NvdMetric
unfolding ◌==◌
metrics_at key [] = []
metrics_at key ((k, values) ∷ metrics) =
    let rest = metrics_at key metrics in if k == key then values else rest

unfoldable pub best_of : List Text → List (Text × List NvdMetric) → Option NvdMetric
unfolding metrics_at
best_of [] metrics = none
best_of (key ∷ keys) metrics = elim (metrics_at key metrics) [
  | [] ↦ best_of keys metrics
  | m ∷ _ ↦ some m
]

unfoldable pub nvd_best_metric : List (Text × List NvdMetric) → Option NvdMetric
unfolding best_of
nvd_best_metric = best_of (
    codes "cvssMetricV40"
    ∷ codes "cvssMetricV31"
    ∷ codes "cvssMetricV30"
    ∷ codes "cvssMetricV2"
    ∷ [])

-- `parse` is time.Parse with RFC3339Nano.
unfoldable pub parse_nvd_time : (Text → Option Time) → Text → Option Time
unfolding trim_space
parse_nvd_time parse raw =
    let value = trim_space raw in if is_empty value then none else parse value

unfoldable pub with_metric : Option NvdMetric → CveRecord → CveRecord
unfolding normalize_severity
with_metric none r = r
with_metric (some m) r = record r {
  cvss_score = some m.base_score;
  severity = normalize_severity m.base_severity;
}

unfoldable pub nvd_record : (Text → Option Time) → Text → NvdItem → CveRecord
unfolding english_description parse_nvd_time nvd_best_metric with_metric equal_fold
nvd_record parse cve_id item =
    with_metric (nvd_best_metric item.metrics)
      (record (new_record cve_id source_nvd severity_unknown) {
        description = english_description item.descriptions;
        rejected = equal_fold item.vuln_status (codes "Rejected");
        published_at = parse_nvd_time parse item.published;
        modified_at = parse_nvd_time parse item.last_modified;
      })

-- An item without an id is left out.
unfoldable pub nvd_records : (Text → Option Time) → List NvdItem → List CveRecord
unfolding trim_space
nvd_records parse [] = []
nvd_records parse (item ∷ items) =
    let rest = nvd_records parse items in
    let cve_id = trim_space item.id in
    if is_empty cve_id then rest else nvd_record parse cve_id item ∷ rest

-- `none` is an error of the decoder.
unfoldable pub parse_nvd_api : (Text → Option Time) → Option NvdPage → Option (List CveRecord × ℕ)
parse_nvd_api parse none = none
parse_nvd_api parse (some page) = some (nvd_records parse page.vulnerabilities, page.total_results)

-- `fetchPage`: the response is a status and the decoded body, or `none` where there is none.
unfoldable pub fetch_page :
    (Text → Option Time) → Option (ℕ × Option NvdPage) → Option (List CveRecord × ℕ)
fetch_page parse none = none
fetch_page parse (some (status, body)) =
    if is_success status then parse_nvd_api parse body else none

unfoldable pub nvd_results_per_page : ℕ
nvd_results_per_page = 2000

-- What the fetching meets: the response to the page at a start index, and whether the wait behind
-- that page is cancelled.
pub record NvdServer : Type 0 where
  pub respond : ℕ → Option (ℕ × Option NvdPage)
  pub cancelled : ℕ → Bool

-- `out_of_fuel` stands for a loop that goes on.
pub data NvdOutcome : Type 0 where
  fetched : List CveRecord → NvdOutcome
  failed : NvdOutcome
  out_of_fuel : NvdOutcome

module _ (parse : Text → Option Time) (server : NvdServer) where
  -- Behind a page: the loop ends at the total, or goes on when the wait is over.
  unfoldable pub after_page :
      (next : List CveRecord → NvdOutcome)
      → (start : ℕ) → List CveRecord
      → Option (List CveRecord × ℕ)
      → NvdOutcome
  unfolding nvd_results_per_page
  after_page next start records none = failed
  after_page next start records (some (page, total)) =
      let later = next (records ++ page) in
      if ltb (start + nvd_results_per_page) total
      then (if server.cancelled start then failed else later)
      else fetched (records ++ page)

  -- The pages from a start index on, which is below the total so far.
  unfoldable pub fetch_from : ℕ → ℕ → List CveRecord → NvdOutcome
  fetch_from zero start records = out_of_fuel
  fetch_from (suc n) start records =
      after_page (fetch_from n (start + nvd_results_per_page)) start records
        (fetch_page parse (server.respond start))

  -- The loop is entered, as the total starts at 1.
  unfoldable pub fetch_nvd : ℕ → NvdOutcome
  fetch_nvd n = fetch_from n 0 []
