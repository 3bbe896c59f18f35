-- ===== src/Feed/Records.antt =====
-- The map from CVE ids to records that the parsers fill. A map is the list of its entries in the
-- order in which they come; Go's order when it is read is not defined.
pub mod Laws
use ct_cve.Base.{Text, ◌==◌, Bool, true, false, any, all, if◌then◌else◌, List, [], ◌∷◌, ◌++◌, map}
use ct_cve.Feed.Types.{CveRecord, AffectedEntry, FetchResult}

unfoldable pub has_record : Text → List CveRecord → Bool
unfolding ◌==◌
has_record cve_id = any (λ r. r.cve_id == cve_id)

-- The record is added if its id is new.
unfoldable pub add_record : CveRecord → List CveRecord → List CveRecord
unfolding has_record
add_record r records = if has_record r.cve_id records then records else records ++ r ∷ []

-- The record replaces that of its id.
unfoldable pub put_record : CveRecord → List CveRecord → List CveRecord
unfolding has_record ◌==◌
put_record r records =
    if has_record r.cve_id records
    then map (λ old. if old.cve_id == r.cve_id then r else old) records
    else records ++ r ∷ []

-- What has been collected, with one more affected package.
unfoldable pub add_affected : AffectedEntry → FetchResult → FetchResult
add_affected a f = record { records = f.records; affected_packages = f.affected_packages ++ a ∷ [] }

abbrev pub no_result : FetchResult
no_result = record { records = []; affected_packages = [] }
