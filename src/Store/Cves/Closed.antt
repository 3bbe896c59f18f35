-- ===== src/Store/Cves/Closed.antt =====
-- The reference from affected_packages to cve_records.
use ct_cve.Base.{
  Text, ◌==◌, eq_sound, ◌≡◌, refl, sym, subst, arith, Bool, true, false, All, All-weaken,
  if◌then◌else◌, Option, some, none, List, [], ◌∷◌,
}
use ct_cve.Feed.Types.{CveRecord, AffectedEntry, FetchResult}
use ct_cve.Feed.Records.{has_record}
use ct_cve.Feed.Records.Laws.{IsClosed}
use ct_cve.Store.Upsert.{All-upsert}
use ct_cve.Store.Cves.{
  Postgres, FeedTables, coalesce, upsert_cve_record, unless_error, upsert_cve_records, affected_row,
  merge_affected, upsert_affected_package, affected_row_error, upsert_affected_packages,
}
use ct_cve.Store.Cves.Merge.{upsert-has_record, upsert-has_record_self, upsert_cve_records_keeps}

-- Each affected package that is stored refers to a CVE that is stored.
abbrev pub IsReferenced : FeedTables → Type 0
IsReferenced t = All (λ (a : AffectedEntry). has_record a.cve_id t.cves ≡ true) t.affected

no_record :
    (cve_id : Text) (rows : List CveRecord)
    → has_record cve_id [] ≡ true
    → has_record cve_id rows ≡ true
unfolding has_record
no_record cve_id rows h = ground arith

no_error-reference :
    (error : Option Text) (broken : Text) (b : Bool)
    → coalesce error (if b then none else some broken) ≡ none
    → b ≡ true
no_error-reference error broken true h = refl
no_error-reference none broken false h = ground arith
no_error-reference (some e) broken false h = ground arith

module _ (postgres : Postgres) where
  affected_kept :
      (a : AffectedEntry) (t : FeedTables)
      → has_record a.cve_id t.cves ≡ true
      → IsReferenced t
      → IsReferenced (record t { affected = upsert_affected_package a t.affected })
  unfolding upsert_affected_package affected_row merge_affected
  affected_kept a t k h =
      All-upsert (λ (x : AffectedEntry). has_record x.cve_id t.cves ≡ true) _
        (merge_affected (affected_row a)) (affected_row a) t.affected k (λ row p. p) h

  referenced_row :
      (a : AffectedEntry) (t : FeedTables)
      → affected_row_error postgres a t.cves ≡ none
      → has_record a.cve_id t.cves ≡ true
  unfolding affected_row_error
  referenced_row a t =
      no_error-reference (postgres.affected_error a) postgres.foreign_key_error
        (has_record a.cve_id t.cves)

  after_row-IsReferenced :
      (a : AffectedEntry) (t : FeedTables) (error : Option Text) (rest : Option Text × FeedTables)
      → affected_row_error postgres a t.cves ≡ error
      → IsReferenced t
      → (has_record a.cve_id t.cves ≡ true → IsReferenced rest.1)
      → IsReferenced (unless_error error t rest).1
  unfolding unless_error
  after_row-IsReferenced a t none rest e h k = k (referenced_row a t e)
  after_row-IsReferenced a t (some error) rest e h k = h

  packages-IsReferenced :
      (entries : List AffectedEntry) (t : FeedTables)
      → IsReferenced t
      → IsReferenced (upsert_affected_packages postgres entries t).1
  unfolding upsert_affected_packages
  packages-IsReferenced [] t h = h
  packages-IsReferenced (a ∷ entries) t h =
      after_row-IsReferenced a t (affected_row_error postgres a t.cves) _ refl h
        (λ k. packages-IsReferenced entries _ (affected_kept a t k h))

  after_cve-affected :
      (error : Option Text) (t : FeedTables) (rest : Option Text × FeedTables)
      → rest.1.affected ≡ t.affected
      → (unless_error error t rest).1.affected ≡ t.affected
  unfolding unless_error
  after_cve-affected none t rest e = e
  after_cve-affected (some error) t rest e = refl

  cve_records-affected :
      (records : List CveRecord) (t : FeedTables)
      → (upsert_cve_records postgres records t).1.affected ≡ t.affected
  unfolding upsert_cve_records
  cve_records-affected [] t = refl
  cve_records-affected (r ∷ records) t =
      after_cve-affected (postgres.cve_error r) t _ (cve_records-affected records _)

  records-IsReferenced :
      (records : List CveRecord) (t : FeedTables)
      → IsReferenced t
      → IsReferenced (upsert_cve_records postgres records t).1
  records-IsReferenced records t h =
      subst
        (All (λ (a : AffectedEntry).
          has_record a.cve_id (upsert_cve_records postgres records t).1.cves ≡ true))
        (sym (cve_records-affected records t))
        (All-weaken
          (λ (a : AffectedEntry).
            upsert_cve_records_keeps postgres has_record a.cve_id (upsert-has_record a.cve_id)
              records t)
          t.affected h)

  -- Each affected package that is stored refers to a CVE that is stored, after the upserts of any
  -- records and of any affected packages, wherever an error ends them.
  pub upserts-IsReferenced :
      (records : List CveRecord) (entries : List AffectedEntry) (t : FeedTables)
      → IsReferenced t
      → IsReferenced (upsert_cve_records postgres records t).1
        × IsReferenced (upsert_affected_packages postgres entries t).1
  upserts-IsReferenced records entries t h =
      (records-IsReferenced records t h, packages-IsReferenced entries t h)

  -- PostgreSQL itself takes the records and the affected packages.
  abbrev pub Takes : FetchResult → Type 0
  Takes f =
      All (λ (r : CveRecord). postgres.cve_error r ≡ none) f.records
      × All (λ (a : AffectedEntry). postgres.affected_error a ≡ none) f.affected_packages

  stored_first :
      (r : CveRecord) (records : List CveRecord) (t : FeedTables) (cve_id : Text) (b : Bool)
      → (r.cve_id == cve_id) ≡ b
      → (has_record cve_id records ≡ true → has_record cve_id t.cves ≡ true)
      → has_record r.cve_id t.cves ≡ true
      → has_record cve_id (r ∷ records) ≡ true
      → has_record cve_id t.cves ≡ true
  unfolding has_record
  stored_first r records t cve_id true q later self k =
      subst (λ c. has_record c t.cves ≡ true) (eq_sound r.cve_id cve_id q) self
  stored_first r records t cve_id false q later self k = later (ground arith)

  records_stored :
      (records : List CveRecord) (t : FeedTables)
      → All (λ (r : CveRecord). postgres.cve_error r ≡ none) records
      → ((upsert_cve_records postgres records t).0 ≡ none)
        × ((cve_id : Text)
            → has_record cve_id records ≡ true
            → has_record cve_id (upsert_cve_records postgres records t).1.cves ≡ true)
  unfolding upsert_cve_records unless_error
  records_stored [] t h = (refl, λ cve_id k. no_record cve_id t.cves k)
  records_stored (r ∷ records) t (e, h) =
      let first = record t { cves = upsert_cve_record r t.cves } in
      let (ok, found) = records_stored records first h in
      rw e (
        ok,
        λ cve_id.
            stored_first r records (upsert_cve_records postgres records first).1 cve_id _ refl
              (found cve_id)
              (upsert_cve_records_keeps postgres has_record r.cve_id (upsert-has_record r.cve_id)
                records first (upsert-has_record_self r t.cves)),
      )

  packages_stored :
      (entries : List AffectedEntry) (t : FeedTables)
      → All (λ (a : AffectedEntry). postgres.affected_error a ≡ none) entries
      → All (λ (a : AffectedEntry). has_record a.cve_id t.cves ≡ true) entries
      → (upsert_affected_packages postgres entries t).0 ≡ none
  unfolding upsert_affected_packages unless_error affected_row_error
  packages_stored [] t h k = refl
  packages_stored (a ∷ entries) t (e, h) (c, k) = rw (e, c) (packages_stored entries _ h k)

  -- A result whose affected packages each have a record is stored without an error, where PostgreSQL
  -- has none of its own: the reference to cve_records is never broken.
  pub closed_result_stored :
      (f : FetchResult) (t : FeedTables)
      → IsClosed f
      → Takes f
      → ((upsert_cve_records postgres f.records t).0 ≡ none)
        × ((upsert_affected_packages postgres f.affected_packages
              (upsert_cve_records postgres f.records t).1).0
            ≡ none)
  closed_result_stored f t closed (records, packages) =
      let (a, found) = records_stored f.records t records in
      (
        a,
        packages_stored f.affected_packages _ packages
            (All-weaken (λ (x : AffectedEntry). found x.cve_id) f.affected_packages closed),
      )
