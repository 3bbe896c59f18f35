-- ===== src/Feed/Syncer.antt =====
-- The synchronisation of the sources: `Syncer` of internal/feed/syncer.go, and `buildSources` of
-- cmd/ct-cve/main.go. An error is its message, and an operation that has none returns no message.
-- Logging is left out.
pub mod Laws
use ct_cve.Base.{
  ℕ, Text, length, is_empty, Bool, true, false, if◌then◌else◌, Option, some, none, List, [], ◌∷◌,
}
use ct_cve.Feed.Types.{CveRecord, AffectedEntry, FetchResult, SourceResult}

pub record Source (S : Type 0) : Type 0 where
  pub id : Text
  pub enabled : Bool
  pub fetch : S → (FetchResult × Option Text) × S

pub record FeedStore (S : Type 0) : Type 0 where
  pub upsert_cve_records : List CveRecord → S → Option Text × S
  pub upsert_affected_packages : List AffectedEntry → S → Option Text × S
  pub record_source_result : SourceResult → S → Option Text × S

module _ {S : Type 0} (store : FeedStore S) where
  unfoldable pub result_of : Source S → FetchResult → Text → SourceResult
  result_of source fetched error = record {
    source = source.id;
    records = length fetched.records;
    error = error;
  }

  -- A failure is recorded; the error that counts is that of the recording.
  unfoldable pub conclude : Source S → FetchResult → Text → S → Option Text × S
  conclude source fetched error s = store.record_source_result (result_of source fetched error) s

  unfoldable pub after_packages : Source S → FetchResult → Option Text × S → Option Text × S
  after_packages source fetched (none, s) = conclude source fetched [] s
  after_packages source fetched (some error, s) = conclude source fetched error s

  unfoldable pub after_records : Source S → FetchResult → Option Text × S → Option Text × S
  after_records source fetched (none, s) =
      after_packages source fetched (store.upsert_affected_packages fetched.affected_packages s)
  after_records source fetched (some error, s) = conclude source fetched error s

  unfoldable pub after_fetch : Source S → (FetchResult × Option Text) × S → Option Text × S
  after_fetch source ((fetched, none), s) =
      after_records source fetched (store.upsert_cve_records fetched.records s)
  after_fetch source ((fetched, some error), s) = conclude source fetched error s

  unfoldable pub sync_source : Source S → S → Option Text × S
  sync_source source s = if source.enabled then after_fetch source (source.fetch s) else (none, s)

  -- An error that could not be recorded ends the cycle.
  unfoldable pub then_sources : (S → Option Text × S) → Option Text × S → Option Text × S
  then_sources rest (none, s) = rest s
  then_sources rest (some error, s) = (some error, s)

  unfoldable pub sync_sources : List (Source S) → S → Option Text × S
  sync_sources [] s = (none, s)
  sync_sources (source ∷ sources) s = then_sources (sync_sources sources) (sync_source source s)

  unfoldable pub with_provided : (Option (List (Source S)) × Option Text) × S → Option Text × S
  with_provided ((none, none), s) = sync_sources [] s
  with_provided ((some sources, none), s) = sync_sources sources s
  with_provided ((_, some error), s) = (some error, s)

  -- `SyncOnce`; where there is a provider, it gives the sources or an error.
  unfoldable pub sync_once :
      List (Source S)
      → Option (S → (Option (List (Source S)) × Option Text) × S)
      → S
      → Option Text × S
  sync_once sources none s = sync_sources sources s
  sync_once sources (some provide) s = with_provided (provide s)
