-- ===== src/Store/Sources/Laws.antt =====
-- What the tables of the sources keep of what the service writes.
use ct_cve.Base.{
  Option-cases, inl, inr, ℕ, zero, suc, ◌≤◌, ℤ, pos, negsuc, Text, refl, arith, length, take, List,
  [], ◌∷◌, map,
}
use mathlib.Core.List.{map-append}
use ct_cve.Base.Sort.{sort_by}
use ct_cve.Feed.Types.{SourceResult}
use ct_cve.Feed.Syncer.Laws.{IsLogged, IsRecorded}
use ct_cve.Store.Cves.{Postgres}
use ct_cve.Store.Sources.{
  SourceTables, OperationalLog, add_log, committed, record_source_result, log_limit, newer,
  list_operational_logs, feed_store,
}

-- The sources of the logs, the oldest first.
abbrev pub log_sources : SourceTables → List Text
log_sources t = map (λ (l : OperationalLog). l.source) t.logs

-- The log has grown by the source, or there is an error and the log is what it was.
record_source_result-IsRecorded :
    (postgres : Postgres) (r : SourceResult) (t : SourceTables)
    → IsRecorded log_sources r.source t (record_source_result postgres r t)
unfolding record_source_result add_log committed
record_source_result-IsRecorded postgres r t =
    elim (Option-cases (postgres.result_error r t.clock)) [
      | inl e ↦ rw e (inl (refl, map-append _ t.logs _))
      | inr (error, e) ↦ rw e (inr (error, refl, refl))
    ]

pub feed_store-IsLogged : (postgres : Postgres) → IsLogged (feed_store postgres) log_sources
unfolding feed_store record_source_result
feed_store-IsLogged postgres = record {
  recorded = λ r t. record_source_result-IsRecorded postgres r t;
  records_kept = λ records t. refl;
  packages_kept = λ packages t. refl;
}

length-take : {A : Type 0} (n : ℕ) (xs : List A) → length (take n xs) ≤ n
length-take zero xs = omega arith
length-take (suc n) [] = omega arith
length-take (suc n) (x ∷ xs) = omega (arith, length-take n xs)

log_limit_bounds : (limit : ℤ) → (1 ≤ log_limit limit) × (log_limit limit ≤ 100)
unfolding log_limit
log_limit_bounds (negsuc n) = (omega arith, omega arith)
log_limit_bounds (pos n) = (ground arith, ground arith)

-- Whatever the limit, a list of logs has at most 100 entries.
pub length-list_operational_logs :
    (limit : ℤ) (t : SourceTables) → length (list_operational_logs limit t) ≤ 100
unfolding list_operational_logs
length-list_operational_logs limit t =
    let sorted = sort_by newer t.logs in
    omega (arith, length-take (log_limit limit) sorted, (log_limit_bounds limit).1)
