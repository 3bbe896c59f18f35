-- ===== src/Feed/Syncer/Laws.antt =====
-- A cycle records one result for each source, up to a result that it cannot record.
use ct_cve.Base.{
  Text, ◌≡◌, refl, ap, sym, ◌∙◌, arith, Bool, true, false, if◌then◌else◌, Option, some, none, List,
  [], ◌∷◌, ◌++◌, All, append_assoc, append-nil, ◌⊎◌, inl, inr,
}
use ct_cve.Feed.Types.{CveRecord, AffectedEntry, FetchResult, SourceResult}
use ct_cve.Feed.Syncer.{
  Source, FeedStore, result_of, conclude, after_packages, after_records, after_fetch, sync_source,
  then_sources, sync_sources,
}

-- What recording a result of a source makes of the log: it adds the source, or it returns an error
-- and leaves the log as it is.
abbrev pub IsRecorded : {S : Type 0} → (S → List Text) → Text → S → Option Text × S → Type 0
IsRecorded log id s r =
    ((r.0 ≡ none) × (log r.1 ≡ log s ++ id ∷ []))
    ⊎ ((error : Text) × (r.0 ≡ some error) × (log r.1 ≡ log s))

-- The sources of the results that have been recorded, in a state: recording adds a source or fails,
-- and the other operations leave the log as it is.
pub record IsLogged {S : Type 0} (store : FeedStore S) (log : S → List Text) : Type 0 where
  pub recorded :
      (r : SourceResult) (s : S) → IsRecorded log r.source s (store.record_source_result r s)
  pub records_kept :
      (records : List CveRecord) (s : S) → log (store.upsert_cve_records records s).1 ≡ log s
  pub packages_kept :
      (packages : List AffectedEntry) (s : S)
      → log (store.upsert_affected_packages packages s).1 ≡ log s

-- The ids of the sources that are enabled.
unfoldable pub enabled_ids : {S : Type 0} → List (Source S) → List Text
enabled_ids [] = []
enabled_ids (source ∷ sources) =
    let rest = enabled_ids sources in if source.enabled then source.id ∷ rest else rest

-- An operation has ended with the error of recording a result of the source.
pub record Failed {S : Type 0} (store : FeedStore S) (id : Text) (r : Option Text × S)
    : Type 0 where
  pub result : SourceResult
  pub at : S
  pub error : Text
  pub of_source : result.source ≡ id
  pub is_error : r.0 ≡ some error
  pub recording : store.record_source_result result at ≡ r

-- The log has grown by the sources before some source, and recording a result of this one failed.
pub record StopsAt {S : Type 0} (store : FeedStore S) (log : S → List Text) (ids : List Text)
    (s : S) (r : Option Text × S) : Type 0 where
  pub before : List Text
  pub id : Text
  pub later : List Text
  pub split : ids ≡ before ++ id ∷ later
  pub failed : Failed store id r
  pub grown : log r.1 ≡ log s ++ before

-- Either there is no error, and the log has grown by the given sources, in that order; or the
-- error is that of recording a result of one of them, and the log has grown by those before it.
abbrev pub Logs :
    {S : Type 0} → FeedStore S → (S → List Text) → List Text → S → Option Text × S → Type 0
Logs store log ids s r = ((r.0 ≡ none) × (log r.1 ≡ log s ++ ids)) ⊎ StopsAt store log ids s r

no_failure : {S : Type 0} (store : FeedStore S) (id : Text) (s : S) → Failed store id (none, s) → ⊥
no_failure store id s f = let e = f.is_error in ground arith

module _ {S : Type 0} (store : FeedStore S) (log : S → List Text)
    (logged : IsLogged store log) where
  abbrev Adds : Source S → S → Option Text × S → Type 0
  Adds source s r =
      ((r.0 ≡ none) × (log r.1 ≡ log s ++ source.id ∷ []))
      ⊎ (Failed store source.id r × (log r.1 ≡ log s))

  conclude-Adds :
      (source : Source S) (fetched : FetchResult) (error : Text) (s s' : S)
      → log s' ≡ log s
      → Adds source s (conclude store source fetched error s')
  unfolding conclude result_of
  conclude-Adds source fetched error s s' e =
      let result = result_of store source fetched error in
      elim (logged.recorded result s') [
        | inl (a, b) ↦ inl (a, b ∙ ap (λ l. l ++ source.id ∷ []) e)
        | inr (error, a, b) ↦ inr (
          record {
            result = result;
            at = s';
            error = error;
            of_source = refl;
            is_error = a;
            recording = refl;
          },
          b ∙ e,
        )
      ]

  after_packages-Adds :
      (source : Source S) (fetched : FetchResult) (r : Option Text × S) (s : S)
      → log r.1 ≡ log s
      → Adds source s (after_packages store source fetched r)
  unfolding after_packages
  after_packages-Adds source fetched (none, s') s e = conclude-Adds source fetched [] s s' e
  after_packages-Adds source fetched (some error, s') s e =
      conclude-Adds source fetched error s s' e

  after_records-Adds :
      (source : Source S) (fetched : FetchResult) (r : Option Text × S) (s : S)
      → log r.1 ≡ log s
      → Adds source s (after_records store source fetched r)
  unfolding after_records
  after_records-Adds source fetched (none, s') s e =
      after_packages-Adds source fetched
        (store.upsert_affected_packages fetched.affected_packages s') s
        (logged.packages_kept fetched.affected_packages s' ∙ e)
  after_records-Adds source fetched (some error, s') s e = conclude-Adds source fetched error s s' e

  after_fetch-Adds :
      (source : Source S) (r : (FetchResult × Option Text) × S) (s : S)
      → log r.1 ≡ log s
      → Adds source s (after_fetch store source r)
  unfolding after_fetch
  after_fetch-Adds source ((fetched, none), s') s e =
      after_records-Adds source fetched (store.upsert_cve_records fetched.records s') s
        (logged.records_kept fetched.records s' ∙ e)
  after_fetch-Adds source ((fetched, some error), s') s e =
      conclude-Adds source fetched error s s' e

  -- Fetching does not record.
  abbrev pub IsQuiet : Source S → Type 0
  IsQuiet source = (s : S) → log (source.fetch s).1 ≡ log s

  abbrev pub IsQuietAll : List (Source S) → Type 0
  IsQuietAll = All IsQuiet

  -- After a source that has added itself, the rest adds its sources behind it.
  behind-Logs :
      (id : Text) (ids : List Text) (s s' : S) (r : Option Text × S)
      → log s' ≡ log s ++ id ∷ []
      → Logs store log ids s' r
      → Logs store log (id ∷ ids) s r
  behind-Logs id ids s s' r e (inl (a, b)) =
      inl (a, b ∙ ap (λ x. x ++ ids) e ∙ append_assoc (log s) (id ∷ []) ids)
  behind-Logs id ids s s' r e (inr stop) = inr (record {
    before = id ∷ stop.before;
    id = stop.id;
    later = stop.later;
    split = ap (λ x. id ∷ x) stop.split;
    failed = stop.failed;
    grown = stop.grown ∙ ap (λ x. x ++ stop.before) e ∙ append_assoc (log s) (id ∷ []) stop.before;
  })

  after_source-Logs :
      (rest : S → Option Text × S) (source : Source S) (ids : List Text) (s : S)
      (r : Option Text × S)
      → ((s' : S) → Logs store log ids s' (rest s'))
      → Adds source s r
      → Logs store log (source.id ∷ ids) s (then_sources store rest r)
  unfolding then_sources
  after_source-Logs rest source ids s (none, s') h (inl (ok, e)) =
      behind-Logs source.id ids s s' (rest s') e (h s')
  after_source-Logs rest source ids s (none, s') h (inr (f, e)) =
      elim (no_failure store source.id s' f) [ ]
  after_source-Logs rest source ids s (some error, s') h (inl (ok, e)) = ground arith
  after_source-Logs rest source ids s (some error, s') h (inr (f, e)) = inr (record {
    before = [];
    id = source.id;
    later = ids;
    split = refl;
    failed = f;
    grown = e ∙ sym (append-nil (log s));
  })

  sync_source-Logs :
      (source : Source S) (sources : List (Source S)) (s : S) (b : Bool)
      → source.enabled ≡ b
      → IsQuiet source
      → ((s' : S) → Logs store log (enabled_ids sources) s' (sync_sources store sources s'))
      → Logs store log (enabled_ids (source ∷ sources)) s (sync_sources store (source ∷ sources) s)
  unfolding sync_sources sync_source enabled_ids then_sources after_fetch after_records conclude
      after_packages result_of
  sync_source-Logs source sources s true e q h = rw e (
      after_source-Logs (sync_sources store sources) source (enabled_ids sources) s _ h
        (after_fetch-Adds source (source.fetch s) s (q s)))
  sync_source-Logs source sources s false e q h = rw e (h s)

  -- One cycle over sources that do not record anything themselves either returns no error, and then
  -- has recorded one result for each source that is enabled, in the order of the sources, whichever
  -- of them fail to fetch and whichever upserts fail; or returns the error of recording a result of
  -- one of these sources, and then has recorded one result for each of them before it.
  pub sync_sources-Logs :
      (sources : List (Source S)) (s : S)
      → IsQuietAll sources
      → Logs store log (enabled_ids sources) s (sync_sources store sources s)
  unfolding sync_sources enabled_ids
  sync_sources-Logs [] s q = inl (refl, sym (append-nil (log s)))
  sync_sources-Logs (source ∷ sources) s (q, qs) =
      sync_source-Logs source sources s source.enabled refl q
        (λ s'. sync_sources-Logs sources s' qs)
