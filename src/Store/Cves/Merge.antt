-- ===== src/Store/Cves/Merge.antt =====
-- What the upserts of the feeds' tables keep.
use ct_cve.Base.{
  Text, ◌==◌, eq_refl, ◌≡◌, refl, arith, Bool, true, false, ◌&&◌, ◌||◌, any, Option, some, none,
  List, [], ◌∷◌, Bool-cases, inl, inr,
}
use ct_cve.Feed.Types.{CveRecord}
use ct_cve.Feed.Records.{has_record}
use ct_cve.Store.Upsert.{any-upsert, upsert_has_key, upsert_twice}
use ct_cve.Store.Cves.{
  Postgres, FeedTables, coalesce, unless, cve_row, merge_cve, upsert_cve_record, unless_error,
  upsert_cve_records,
}

unless_same : (default text : Text) → unless default text text ≡ text
unfolding unless
unless_same default text = elim (Bool-cases (text == default)) [ inl e ↦ rw e | inr e ↦ rw e ]

unless_twice :
    (default new old : Text) → unless default new (unless default new old) ≡ unless default new old
unfolding unless
unless_twice default new old = elim (Bool-cases (new == default)) [ inl e ↦ rw e | inr e ↦ rw e ]

coalesce_twice {ℓ} :
    {A : Type ℓ} → (new old : Option A) → coalesce new (coalesce new old) ≡ coalesce new old
coalesce_twice none old = refl
coalesce_twice (some x) old = refl

coalesce_same {ℓ} : {A : Type ℓ} → (new : Option A) → coalesce new new ≡ new
coalesce_same none = refl
coalesce_same (some x) = refl

or_twice : (a b : Bool) → (a || (a || b)) ≡ (a || b)
or_twice true b = refl
or_twice false b = refl

or_same : (a : Bool) → (a || a) ≡ a
or_same true = refl
or_same false = refl

merge_cve_twice : (new old : CveRecord) → merge_cve new (merge_cve new old) ≡ merge_cve new old
unfolding merge_cve
merge_cve_twice new old = simp (unless_twice, coalesce_twice, or_twice)

merge_cve_same : (new : CveRecord) → merge_cve new new ≡ new
unfolding merge_cve
merge_cve_same new = simp (unless_same, coalesce_same, or_same)

-- Storing a record that has just been stored leaves the columns of the model as they are, in every
-- row; the time of the update is not one of them.
pub upsert_cve_record_twice :
    (r : CveRecord) (rows : List CveRecord)
    → upsert_cve_record r (upsert_cve_record r rows) ≡ upsert_cve_record r rows
unfolding upsert_cve_record cve_row
upsert_cve_record_twice r rows =
    upsert_twice _ (merge_cve (cve_row r)) (cve_row r) rows (eq_refl r.cve_id)
      (merge_cve_same (cve_row r)) (λ row. refl) (merge_cve_twice (cve_row r))

-- The CVE is stored as known to be exploited; as rejected.
unfoldable pub exploited : Text → List CveRecord → Bool
unfolding ◌==◌
exploited cve_id = any (λ row. (row.cve_id == cve_id) && row.known_exploited)

unfoldable pub rejected : Text → List CveRecord → Bool
unfolding ◌==◌
rejected cve_id = any (λ row. (row.cve_id == cve_id) && row.rejected)

-- What holds of the row of a CVE before, and after with the flags of the new record at hand.
abbrev pub Keeps : (Text → List CveRecord → Bool) → Text → List CveRecord → List CveRecord → Type 0
Keeps test cve_id before after = test cve_id before ≡ true → test cve_id after ≡ true

upsert-exploited :
    (cve_id : Text) (r : CveRecord) (rows : List CveRecord)
    → Keeps exploited cve_id rows (upsert_cve_record r rows)
unfolding upsert_cve_record exploited merge_cve
upsert-exploited cve_id r rows =
    any-upsert _ (merge_cve (cve_row r)) _ (λ row h. ground arith) (cve_row r) rows

upsert-rejected :
    (cve_id : Text) (r : CveRecord) (rows : List CveRecord)
    → Keeps rejected cve_id rows (upsert_cve_record r rows)
unfolding upsert_cve_record rejected merge_cve
upsert-rejected cve_id r rows =
    any-upsert _ (merge_cve (cve_row r)) _ (λ row h. ground arith) (cve_row r) rows

pub upsert-has_record :
    (cve_id : Text) (r : CveRecord) (rows : List CveRecord)
    → Keeps has_record cve_id rows (upsert_cve_record r rows)
unfolding upsert_cve_record has_record merge_cve
upsert-has_record cve_id r rows =
    any-upsert _ (merge_cve (cve_row r)) _ (λ row h. h) (cve_row r) rows

pub upsert-has_record_self :
    (r : CveRecord) (rows : List CveRecord) → has_record r.cve_id (upsert_cve_record r rows) ≡ true
unfolding upsert_cve_record has_record merge_cve cve_row
upsert-has_record_self r rows =
    upsert_has_key _ (merge_cve (cve_row r)) (cve_row r) rows (eq_refl r.cve_id) (λ row h. h)

module _ (postgres : Postgres) where
  -- What each statement keeps, the loop keeps, with the errors that end it.
  module _ (test : Text → List CveRecord → Bool) (cve_id : Text)
      (kept : (r : CveRecord) (rows : List CveRecord)
        → Keeps test cve_id rows (upsert_cve_record r rows)) where
    unless_error_keeps :
        (error : Option Text) (t : FeedTables) (rest : Option Text × FeedTables)
        → Keeps test cve_id t.cves rest.1.cves
        → Keeps test cve_id t.cves (unless_error error t rest).1.cves
    unfolding unless_error
    unless_error_keeps none t rest k = k
    unless_error_keeps (some error) t rest k = λ h. h

    pub upsert_cve_records_keeps :
        (records : List CveRecord) (t : FeedTables)
        → Keeps test cve_id t.cves (upsert_cve_records postgres records t).1.cves
    unfolding upsert_cve_records
    upsert_cve_records_keeps [] t = λ h. h
    upsert_cve_records_keeps (r ∷ records) t =
        unless_error_keeps (postgres.cve_error r) t _
          (λ h. upsert_cve_records_keeps records _ (kept r t.cves h))

  -- However many records a feed brings, and wherever an error ends it, a CVE that is stored stays
  -- stored, one that is known to be exploited stays so, and so does one that is rejected.
  pub upsert_cve_records_flags :
      (cve_id : Text) (records : List CveRecord) (t : FeedTables)
      → Keeps has_record cve_id t.cves (upsert_cve_records postgres records t).1.cves
        × Keeps exploited cve_id t.cves (upsert_cve_records postgres records t).1.cves
        × Keeps rejected cve_id t.cves (upsert_cve_records postgres records t).1.cves
  upsert_cve_records_flags cve_id records t = (
    upsert_cve_records_keeps has_record cve_id (upsert-has_record cve_id) records t,
    upsert_cve_records_keeps exploited cve_id (upsert-exploited cve_id) records t,
    upsert_cve_records_keeps rejected cve_id (upsert-rejected cve_id) records t,
  )
