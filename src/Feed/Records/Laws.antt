-- ===== src/Feed/Records/Laws.antt =====
-- Each affected package has a record of its CVE.
use ct_cve.Base.{
  Text, ◌==◌, eq_refl, eq_sound, eq_sym_false, ◌≡◌, refl, sym, arith, Bool, true, false, All,
  All-append, All-weaken, if◌then◌else◌, List, [], ◌∷◌, ◌++◌, map, Bool-cases, inl, inr, ◌||◌,
}
use ct_cve.Feed.Types.{CveRecord, AffectedEntry, FetchResult}
use ct_cve.Feed.Records.{has_record, add_record, put_record, add_affected}

-- Each affected package names a CVE that has a record.
abbrev pub IsClosed : FetchResult → Type 0
IsClosed f = All (λ (a : AffectedEntry). has_record a.cve_id f.records ≡ true) f.affected_packages

-- No two records have the same id.
abbrev pub IsUnique : List CveRecord → Type 0
IsUnique [] = Unit
IsUnique (r ∷ records) = (has_record r.cve_id records ≡ false) × IsUnique records

has_record-end :
    (cve_id : Text) (records : List CveRecord) (r : CveRecord)
    → has_record cve_id (records ++ r ∷ []) ≡ (has_record cve_id records || (r.cve_id == cve_id))
unfolding has_record
has_record-end cve_id [] r = ground arith
has_record-end cve_id (x ∷ records) r = ground (arith, has_record-end cve_id records r)

pub add_record-has_record_self :
    (r : CveRecord) (records : List CveRecord) → has_record r.cve_id (add_record r records) ≡ true
unfolding add_record
add_record-has_record_self r records =
    let e = has_record-end r.cve_id records r in let k = eq_refl r.cve_id in ground arith

-- No id is lost.
pub add_record-has_record :
    (cve_id : Text) (r : CveRecord) (records : List CveRecord)
    → has_record cve_id records ≡ true
    → has_record cve_id (add_record r records) ≡ true
unfolding add_record
add_record-has_record cve_id r records h = let e = has_record-end cve_id records r in ground arith

replaced-cve_id : (x r : CveRecord) → (if x.cve_id == r.cve_id then r else x).cve_id ≡ x.cve_id
replaced-cve_id x r = elim (Bool-cases (x.cve_id == r.cve_id)) [
  | inl e ↦ rw e (sym (eq_sound x.cve_id r.cve_id e))
  | inr e ↦ rw e
]

abbrev replace : CveRecord → List CveRecord → List CveRecord
replace r = map (λ (old : CveRecord). if old.cve_id == r.cve_id then r else old)

has_record-replace :
    (cve_id : Text) (r : CveRecord) (records : List CveRecord)
    → has_record cve_id (replace r records) ≡ has_record cve_id records
unfolding has_record
has_record-replace cve_id r [] = refl
has_record-replace cve_id r (x ∷ records) =
    let later = has_record-replace cve_id r records in rw (replaced-cve_id x r, later)

pub put_record-has_record_self :
    (r : CveRecord) (records : List CveRecord) → has_record r.cve_id (put_record r records) ≡ true
unfolding put_record
put_record-has_record_self r records =
    let e = has_record-end r.cve_id records r in
    let k = eq_refl r.cve_id in let m = has_record-replace r.cve_id r records in ground arith

pub put_record-has_record :
    (cve_id : Text) (r : CveRecord) (records : List CveRecord)
    → has_record cve_id records ≡ true
    → has_record cve_id (put_record r records) ≡ true
unfolding put_record
put_record-has_record cve_id r records h =
    let e = has_record-end cve_id records r in
    let m = has_record-replace cve_id r records in ground arith

has_record_tail :
    (r x : CveRecord) (records : List CveRecord)
    → has_record r.cve_id (x ∷ records) ≡ false
    → has_record r.cve_id records ≡ false
unfolding has_record
has_record_tail r x records h = ground arith

IsUnique_head :
    (r x : CveRecord) (records : List CveRecord)
    → has_record x.cve_id records ≡ false
    → has_record r.cve_id (x ∷ records) ≡ false
    → has_record x.cve_id (records ++ r ∷ []) ≡ false
unfolding has_record
IsUnique_head r x records n h =
    let e = has_record-end x.cve_id records r in
    let k = eq_sym_false x.cve_id r.cve_id in ground arith

IsUnique-end :
    (r : CveRecord) (records : List CveRecord)
    → IsUnique records
    → has_record r.cve_id records ≡ false
    → IsUnique (records ++ r ∷ [])
IsUnique-end r [] u h = (h, tt)
IsUnique-end r (x ∷ records) (n, u) h =
    (IsUnique_head r x records n h, IsUnique-end r records u (has_record_tail r x records h))

IsUnique-replace :
    (r : CveRecord) (records : List CveRecord) → IsUnique records → IsUnique (replace r records)
IsUnique-replace r [] u = tt
IsUnique-replace r (x ∷ records) (n, u) = (
  rw (replaced-cve_id x r, has_record-replace x.cve_id r records) n,
  IsUnique-replace r records u,
)

pub add_record-IsUnique :
    (r : CveRecord) (records : List CveRecord) → IsUnique records → IsUnique (add_record r records)
unfolding add_record
add_record-IsUnique r records u = elim (Bool-cases (has_record r.cve_id records)) [
  | inl e ↦ rw e u
  | inr e ↦ rw e (IsUnique-end r records u e)
]

pub put_record-IsUnique :
    (r : CveRecord) (records : List CveRecord) → IsUnique records → IsUnique (put_record r records)
unfolding put_record
put_record-IsUnique r records u = elim (Bool-cases (has_record r.cve_id records)) [
  | inl e ↦ rw e (IsUnique-replace r records u)
  | inr e ↦ rw e (IsUnique-end r records u e)
]

-- Closed, with no id twice.
abbrev pub IsSound : FetchResult → Type 0
IsSound f = IsClosed f × IsUnique f.records

-- The result with other records.
abbrev pub with_records : List CveRecord → FetchResult → FetchResult
with_records records f = record { records = records; affected_packages = f.affected_packages }

pub add_record-IsSound :
    (r : CveRecord) (f : FetchResult)
    → IsSound f
    → IsSound (with_records (add_record r f.records) f)
add_record-IsSound r f (closed, unique) = (
  All-weaken (λ (a : AffectedEntry). add_record-has_record a.cve_id r f.records) f.affected_packages
      closed,
  add_record-IsUnique r f.records unique,
)

pub put_record-IsSound :
    (r : CveRecord) (f : FetchResult)
    → IsSound f
    → IsSound (with_records (put_record r f.records) f)
put_record-IsSound r f (closed, unique) = (
  All-weaken (λ (a : AffectedEntry). put_record-has_record a.cve_id r f.records) f.affected_packages
      closed,
  put_record-IsUnique r f.records unique,
)

pub add_affected-IsSound :
    (a : AffectedEntry) (f : FetchResult)
    → has_record a.cve_id f.records ≡ true
    → IsSound f
    → IsSound (add_affected a f)
unfolding add_affected
add_affected-IsSound a f h (closed, unique) =
    (All-append _ f.affected_packages (a ∷ []) closed (h, tt), unique)

-- Sound, with a record of the given CVE.
abbrev pub IsSoundWith : Text → FetchResult → Type 0
IsSoundWith cve_id f = (has_record cve_id f.records ≡ true) × IsSound f

pub add_record-IsSoundWith :
    (r : CveRecord) (f : FetchResult)
    → IsSound f
    → IsSoundWith r.cve_id (with_records (add_record r f.records) f)
add_record-IsSoundWith r f s = (add_record-has_record_self r f.records, add_record-IsSound r f s)

pub put_record-IsSoundWith :
    (r : CveRecord) (f : FetchResult)
    → IsSound f
    → IsSoundWith r.cve_id (with_records (put_record r f.records) f)
put_record-IsSoundWith r f s = (put_record-has_record_self r f.records, put_record-IsSound r f s)

pub add_affected-IsSoundWith :
    (a : AffectedEntry) (f : FetchResult)
    → IsSoundWith a.cve_id f
    → IsSoundWith a.cve_id (add_affected a f)
unfolding add_affected
add_affected-IsSoundWith a f (h, s) = (h, add_affected-IsSound a f h s)

pub added-IsSound :
    (a : AffectedEntry) (f : FetchResult) → IsSoundWith a.cve_id f → IsSound (add_affected a f)
added-IsSound a f (h, s) = add_affected-IsSound a f h s

pub if-IsSound :
    (b : Bool) (f g : FetchResult) → IsSound f → IsSound g → IsSound (if b then f else g)
if-IsSound true f g s t = s
if-IsSound false f g s t = t

pub single-IsSoundWith :
    (r : CveRecord) → IsSoundWith r.cve_id (record { records = r ∷ []; affected_packages = [] })
unfolding has_record
single-IsSoundWith r = let e = eq_refl r.cve_id in (ground arith, (tt, (refl, tt)))
