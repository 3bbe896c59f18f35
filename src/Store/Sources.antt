-- ===== src/Store/Sources.antt =====
-- The tables of the sources: the statements of internal/store/postgres.go on feed_source_status,
-- feed_source_config and operational_logs. `clock` is what NOW() gives. Recording a result and reading
-- the settings for a cycle have the errors of the database; the other statements have those of the
-- constraints only.
pub mod Laws
pub mod InEffect
use ct_cve.Base.{
  ℕ, zero, suc, ◌+◌, ◌*◌, ◌/◌, leb, ltb, nat_eq, ℤ, pos, negsuc, Text, codes, text_compare,
  is_negative, ◌==◌, ◌++◌, length, take, map, is_empty, Bool, true, false, not, ◌&&◌, ◌||◌, any,
  if◌then◌else◌, Option, some, none, List, [], ◌∷◌,
}
use ct_cve.Base.Sort.{sort_by}
use ct_cve.Base.Outcome.{itoa}
use ct_cve.CtOps.Time.{Time}
use ct_cve.Config.{SourceSettings, nvd_id, cisa_kev_id}
use ct_cve.Feed.Types.{CveRecord, AffectedEntry, SourceResult}
use ct_cve.Feed.Syncer.{FeedStore}
use ct_cve.Store.Tables.{upsert}
use ct_cve.Store.Cves.{Postgres, FeedTables, coalesce, upsert_cve_records, upsert_affected_packages}

-- FeedSourceStatus of internal/status/status.go
pub record FeedSourceStatus : Type 0 where
  pub source : Text
  pub last_success_at : Option Time
  pub last_attempt_at : Option Time
  pub last_error : Text
  pub records_processed : ℕ
  pub updated_at : Time

pub record OperationalLog : Type 0 where
  pub id : ℕ
  pub source : Text
  pub category : Text
  pub level : Text
  pub message : Text
  pub detail : Text
  pub created_at : Time

-- A row of feed_source_config; the delay is in milliseconds.
pub record SourceRow : Type 0 where
  pub source : Text
  pub enabled : Bool
  pub base_url : Text
  pub api_key : Text
  pub request_delay_ms : Option ℕ

pub record SourceTables : Type 0 where
  pub feeds : FeedTables
  pub statuses : List FeedSourceStatus
  pub settings : List SourceRow
  pub logs : List OperationalLog
  pub next_log_id : ℕ
  pub clock : Time

unfoldable pub text_less : Text → Text → Bool
unfolding text_compare
text_less a b = is_negative (text_compare a b)

unfoldable pub status_row : SourceResult → Time → FeedSourceStatus
status_row result now = record {
  source = result.source;
  last_success_at = if is_empty result.error then some now else none;
  last_attempt_at = some now;
  last_error = result.error;
  records_processed = result.records;
  updated_at = now;
}

-- A failure keeps the time of the last success.
unfoldable pub next_status : FeedSourceStatus → FeedSourceStatus → FeedSourceStatus
next_status new old = record {
  source = old.source;
  last_success_at = if is_empty new.last_error then new.last_attempt_at else old.last_success_at;
  last_attempt_at = new.last_attempt_at;
  last_error = new.last_error;
  records_processed = new.records_processed;
  updated_at = new.updated_at;
}

unfoldable pub upsert_status : SourceResult → Time → List FeedSourceStatus → List FeedSourceStatus
unfolding ◌==◌ upsert status_row next_status
upsert_status result now rows =
    let new = status_row result now in
    upsert (λ (row : FeedSourceStatus). row.source == new.source) (next_status new) new rows

unfoldable pub add_log : Text → Text → Text → Text → Text → SourceTables → SourceTables
add_log source category level message detail t =
    let log : OperationalLog = record {
      id = t.next_log_id;
      source = source;
      category = category;
      level = level;
      message = message;
      detail = detail;
      created_at = t.clock;
    } in
    record t { logs = t.logs ++ log ∷ []; next_log_id = suc t.next_log_id }

unfoldable pub result_detail : SourceResult → Text
unfolding itoa
result_detail result =
    if is_empty result.error
    then codes "processed " ++ itoa result.records ++ codes " CVE records"
    else result.error

-- One transaction: both rows, or an error of the database and neither of them.
unfoldable pub committed : Option Text → SourceTables → SourceTables → Option Text × SourceTables
committed none written t = (none, written)
committed (some error) written t = (some error, t)

unfoldable pub record_source_result :
    Postgres → SourceResult → SourceTables → Option Text × SourceTables
unfolding upsert_status add_log result_detail committed
record_source_result postgres result t =
    let failed = not (is_empty result.error) in
    let level = if failed then codes "error" else codes "info" in
    let message = if failed then codes "source sync failed" else codes "source sync completed" in
    let with_status = record t { statuses = upsert_status result t.clock t.statuses } in
    let written =
      add_log result.source (codes "feed") level message (result_detail result) with_status in
    committed (postgres.result_error result t.clock) written t

unfoldable pub list_feed_source_status : SourceTables → List FeedSourceStatus
unfolding sort_by text_less
list_feed_source_status t =
    sort_by (λ (a b : FeedSourceStatus). text_less a.source b.source) t.statuses

abbrev pub nanoseconds_of : Option ℕ → ℤ
nanoseconds_of none = pos 0
nanoseconds_of (some ms) = pos (ms * 1_000_000)

unfoldable pub setting_of : SourceRow → SourceSettings
setting_of row = record {
  source = row.source;
  enabled = row.enabled;
  base_url = row.base_url;
  api_key = row.api_key;
  request_delay = nanoseconds_of row.request_delay_ms;
}

unfoldable pub list_feed_source_config : SourceTables → List SourceSettings
unfolding sort_by text_less setting_of
list_feed_source_config t =
    map setting_of (sort_by (λ (a b : SourceRow). text_less a.source b.source) t.settings)

-- The statement above with the errors of the database: the settings, or an error and none of them.
unfoldable pub unless_unread : Option Text → List SourceSettings → List SourceSettings × Option Text
unless_unread none settings = (settings, none)
unless_unread (some error) settings = ([], some error)

unfoldable pub read_feed_source_config : Postgres → SourceTables → List SourceSettings × Option Text
unfolding list_feed_source_config unless_unread
read_feed_source_config postgres t =
    unless_unread (postgres.settings_error t.clock) (list_feed_source_config t)

-- A delay above 0 in whole milliseconds.
unfoldable pub delay_ms : ℤ → Option ℕ
delay_ms (pos zero) = none
delay_ms (pos (suc n)) = some (suc n / 1_000_000)
delay_ms (negsuc n) = none

abbrev pub is_delay : Option ℕ → Bool
is_delay none = true
is_delay (some ms) = ltb 0 ms

-- The CHECKs on the columns of feed_source_config; a character of the URL is a byte.
unfoldable pub setting_columns : SourceRow → Bool
unfolding ◌==◌
setting_columns row =
    ((row.source == nvd_id) || (row.source == cisa_kev_id))
    && leb 1 (length row.base_url)
    && leb (length row.base_url) 2048
    && is_delay row.request_delay_ms

unfoldable pub row_of : SourceSettings → SourceRow
unfolding delay_ms
row_of setting = record {
  source = setting.source;
  enabled = setting.enabled;
  base_url = setting.base_url;
  api_key = setting.api_key;
  request_delay_ms = delay_ms setting.request_delay;
}

abbrev pub check_error : Text
check_error = codes "violates check constraint"

unfoldable pub upsert_feed_source_config :
    SourceSettings → SourceTables → Option Text × SourceTables
unfolding ◌==◌ upsert row_of setting_columns
upsert_feed_source_config setting t =
    let new = row_of setting in
    let rows = upsert (λ (row : SourceRow). row.source == new.source) (λ _. new) new t.settings in
    if setting_columns new then (none, record t { settings = rows }) else (some check_error, t)

-- The CHECKs on the columns of operational_logs.
unfoldable pub log_columns : Text → Text → Text → Bool
unfolding ◌==◌
log_columns category level message =
    ((category == codes "feed") || (category == codes "api") || (category == codes "system"))
    && ((level == codes "info") || (level == codes "warn") || (level == codes "error"))
    && leb 1 (length message)
    && leb (length message) 512

unfoldable pub record_operational_log :
    Text → Text → Text → Text → Text → SourceTables → Option Text × SourceTables
unfolding add_log log_columns
record_operational_log source category level message detail t =
    if log_columns category level message
    then (none, add_log source category level message detail t)
    else (some check_error, t)

unfoldable pub log_limit : ℤ → ℕ
log_limit (negsuc n) = 25
log_limit (pos n) = if nat_eq n 0 || ltb 100 n then 25 else n

abbrev pub newer : OperationalLog → OperationalLog → Bool
newer a b = ltb b.created_at a.created_at || (nat_eq b.created_at a.created_at && ltb b.id a.id)

unfoldable pub list_operational_logs : ℤ → SourceTables → List OperationalLog
unfolding sort_by log_limit
list_operational_logs limit t = take (log_limit limit) (sort_by newer t.logs)

abbrev pub with_feeds : SourceTables → Option Text × FeedTables → Option Text × SourceTables
with_feeds t (error, feeds) = (error, record t { feeds = feeds })

-- The store of the synchronisation.
unfoldable pub feed_store : Postgres → FeedStore SourceTables
unfolding upsert_cve_records upsert_affected_packages record_source_result
feed_store postgres = record {
  upsert_cve_records = λ records t. with_feeds t (upsert_cve_records postgres records t.feeds);
  upsert_affected_packages =
      λ entries t. with_feeds t (upsert_affected_packages postgres entries t.feeds);
  record_source_result = record_source_result postgres;
}
