-- ===== src/Feed/RedHat/Laws.antt =====
-- The advisories of Red Hat have records of their CVEs.
use ct_cve.Base.{
  Text, ◌≡◌, subst, some_parts, is_empty, if◌then◌else◌, Bool, true, false, Option, some, none,
  List, [], ◌∷◌, All,
}
use ct_cve.Feed.Types.{FetchResult}
use ct_cve.Feed.Clean.{
  unique_non_empty_strings, split_red_hat_fixed_package, red_hat_version_from_fixed_evr,
}
use ct_cve.Feed.Records.{add_affected, no_result, has_record}
use ct_cve.Feed.Records.Laws.{
  IsSound, add_record-IsSoundWith, add_record-has_record, add_affected-IsSound,
}
use ct_cve.Feed.RedHat.{
  RedHatRow, RedHatLibrary, red_hat_record, red_hat_records, red_hat_entry, red_hat_entries,
  red_hat_package, red_hat_packages, red_hat_row, red_hat_rows, parse_red_hat_csaf_list,
}

-- All of the ids have records.
abbrev Known : List Text → FetchResult → Type 0
Known cve_ids f = All (λ (i : Text). has_record i f.records ≡ true) cve_ids × IsSound f

module _ (lib : RedHatLibrary) (row : RedHatRow) where
  red_hat_records-keeps :
      (i : Text) (cve_ids : List Text) (f : FetchResult)
      → has_record i f.records ≡ true
      → has_record i (red_hat_records lib row cve_ids f).records ≡ true
  unfolding red_hat_records
  red_hat_records-keeps i [] f h = h
  red_hat_records-keeps i (c ∷ cve_ids) f h =
      red_hat_records-keeps i cve_ids _
        (add_record-has_record i (red_hat_record lib row c) f.records h)

  red_hat_records-Known :
      (cve_ids : List Text) (f : FetchResult)
      → IsSound f
      → Known cve_ids (red_hat_records lib row cve_ids f)
  unfolding red_hat_records red_hat_record
  red_hat_records-Known [] f s = (tt, s)
  red_hat_records-Known (c ∷ cve_ids) f s =
      let (h, t) = add_record-IsSoundWith (red_hat_record lib row c) f s in
      let (all, u) = red_hat_records-Known cve_ids _ t in
      ((red_hat_records-keeps c cve_ids _ h, all), u)

  -- The records are kept while packages are added.
  red_hat_entries-Known :
      (pkg name fixed version : Text) (all cve_ids : List Text) (f : FetchResult)
      → All (λ (i : Text). has_record i f.records ≡ true) cve_ids
      → Known all f
      → Known all (red_hat_entries lib row pkg name fixed version cve_ids f)
  unfolding red_hat_entries red_hat_entry add_affected
  red_hat_entries-Known pkg name fixed version all [] f h k = k
  red_hat_entries-Known pkg name fixed version all (c ∷ cve_ids) f (h, hs) (known, s) =
      red_hat_entries-Known pkg name fixed version all cve_ids
        (add_affected (red_hat_entry lib row pkg name fixed version c) f) hs
        (known, add_affected-IsSound (red_hat_entry lib row pkg name fixed version c) f h s)

  if-Known :
      (all : List Text) (b : Bool) (f g : FetchResult)
      → Known all f
      → Known all g
      → Known all (if b then f else g)
  if-Known all true f g k l = k
  if-Known all false f g k l = l

  red_hat_package-Known :
      (all : List Text) (pkg : Text) (split : Option (Text × Text)) (f : FetchResult)
      → Known all f
      → Known all (red_hat_package lib row all pkg split f)
  unfolding red_hat_package
  red_hat_package-Known all pkg none f k = k
  red_hat_package-Known all pkg (some (name, fixed)) f k =
      let version = red_hat_version_from_fixed_evr fixed in
      if-Known all (is_empty version) f _ k
        (red_hat_entries-Known pkg name fixed version all all f k.0 k)

  red_hat_packages-Known :
      (all packages : List Text) (f : FetchResult)
      → Known all f
      → Known all (red_hat_packages lib row all packages f)
  unfolding red_hat_packages
  red_hat_packages-Known all [] f k = k
  red_hat_packages-Known all (pkg ∷ packages) f k =
      red_hat_packages-Known all packages _
        (red_hat_package-Known all pkg (split_red_hat_fixed_package pkg) f k)

  red_hat_row-IsSound :
      (cve_ids : List Text) (f : FetchResult) → IsSound f → IsSound (red_hat_row lib row cve_ids f)
  unfolding red_hat_row
  red_hat_row-IsSound [] f s = s
  red_hat_row-IsSound (c ∷ cve_ids) f s =
      (red_hat_packages-Known (c ∷ cve_ids) row.released_packages _
        (red_hat_records-Known (c ∷ cve_ids) f s)).1

red_hat_rows-IsSound :
    (lib : RedHatLibrary) (rows : List RedHatRow) (f : FetchResult)
    → IsSound f
    → IsSound (red_hat_rows lib rows f)
unfolding red_hat_rows
red_hat_rows-IsSound lib [] f s = s
red_hat_rows-IsSound lib (row ∷ rows) f s =
    red_hat_rows-IsSound lib rows _
      (red_hat_row-IsSound lib row (unique_non_empty_strings row.cves) f s)

-- Each affected package of the advisories has a record of its CVE, and no CVE has two.
pub parse_red_hat_csaf_list-IsSound :
    (lib : RedHatLibrary) (rows : List RedHatRow) (f : FetchResult)
    → parse_red_hat_csaf_list lib (some rows) ≡ some f
    → IsSound f
unfolding parse_red_hat_csaf_list
parse_red_hat_csaf_list-IsSound lib rows f h =
    subst IsSound (some_parts h) (red_hat_rows-IsSound lib rows no_result (tt, tt))
