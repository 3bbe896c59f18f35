-- ===== src/Store/Findings/Laws.antt =====
-- The findings that are open after a snapshot.
use ct_cve.Base.{
  Text, eq_refl, ◌≡◌, refl, sym, arith, Bool, true, false, any, All, is_empty, List, [], ◌∷◌,
  if◌then◌else◌, map,
}
use ct_cve.CtOps.Time.{Time}
use ct_cve.CtOps.Snapshot.{Finding}
use ct_cve.Store.Tables.{FindingRow, CveRow}
use ct_cve.Store.Findings.{
  one_of, is_stale, same_finding, resolve_row, resolved_finding, stale_findings, resolve_each,
  resolve_stale_findings, Matches,
}

one_of-empty : (text : Text) (texts : List Text) → is_empty texts ≡ true → one_of text texts ≡ false
unfolding one_of
one_of-empty text [] h = refl
one_of-empty text (_ ∷ _) h = ground arith

module _ (org_id : Text) (ids matched : List Text) (cves : List CveRow) (now : Time) where
  abbrev stale : FindingRow → Bool
  stale = is_stale org_id ids matched cves

  -- One of the findings has the row's key.
  abbrev covers : List Finding → FindingRow → Bool
  covers findings row = any (λ f. same_finding org_id f row) findings

  abbrev Covered : List Finding → List FindingRow → Type 0
  Covered findings = All (λ row. stale row ≡ true → covers findings row ≡ true)

  resolve_row-stale : (row : FindingRow) → stale (resolve_row now row) ≡ false
  unfolding is_stale
  resolve_row-stale row = ground arith

  resolve_row-covers :
      (f : Finding) (findings : List Finding) (row : FindingRow) (b : Bool)
      → b ≡ same_finding org_id f row
      → (stale row ≡ true → covers (f ∷ findings) row ≡ true)
      → stale (if b then resolve_row now row else row) ≡ true
      → covers findings (if b then resolve_row now row else row) ≡ true
  resolve_row-covers f findings row true e c h = let gone = resolve_row-stale row in ground arith
  resolve_row-covers f findings row false e c h = ground (arith, c h)

  resolve_one-Covered :
      (f : Finding) (findings : List Finding) (rows : List FindingRow)
      → Covered (f ∷ findings) rows
      → Covered findings
          (map (λ row. if same_finding org_id f row then resolve_row now row else row) rows)
  resolve_one-Covered f findings [] all = all
  resolve_one-Covered f findings (row ∷ rows) (c, all) = (
    resolve_row-covers f findings row (same_finding org_id f row) refl c,
    resolve_one-Covered f findings rows all,
  )

  resolve_each-stale :
      (findings : List Finding) (rows : List FindingRow)
      → Covered findings rows
      → All (λ row. stale row ≡ false) (resolve_each org_id now findings rows)
  unfolding resolve_each
  resolve_each-stale [] [] all = tt
  resolve_each-stale [] (row ∷ rows) (c, all) = (ground arith, resolve_each-stale [] rows all)
  resolve_each-stale (f ∷ findings) rows all =
      resolve_each-stale findings
        (map (λ row. if same_finding org_id f row then resolve_row now row else row) rows)
        (resolve_one-Covered f findings rows all)

  same_finding-resolved :
      (row : FindingRow)
      → stale row ≡ true
      → same_finding org_id (resolved_finding now row) row ≡ true
  unfolding same_finding is_stale resolved_finding
  same_finding-resolved row h =
      let a = eq_refl row.host_id in
      let b = eq_refl row.package_id in let c = eq_refl row.cve_id in ground arith

  Covered-more :
      (f : Finding) (findings : List Finding) (rows : List FindingRow)
      → Covered findings rows
      → Covered (f ∷ findings) rows
  Covered-more f findings [] all = all
  Covered-more f findings (row ∷ rows) (c, all) =
      (λ h. ground (arith, c h), Covered-more f findings rows all)

  cons-Covered :
      (row : FindingRow) (rows : List FindingRow) (b : Bool)
      → b ≡ stale row
      → Covered (stale_findings org_id ids matched cves now rows) rows
      → let rest = stale_findings org_id ids matched cves now rows in
        Covered (if b then resolved_finding now row ∷ rest else rest) (row ∷ rows)
  cons-Covered row rows true e all =
      let rest = stale_findings org_id ids matched cves now rows in
      let same = same_finding-resolved row (sym e) in
      (λ h. ground arith, Covered-more (resolved_finding now row) rest rows all)
  cons-Covered row rows false e all = (λ h. ground arith, all)

  stale_findings-Covered :
      (rows : List FindingRow) → Covered (stale_findings org_id ids matched cves now rows) rows
  unfolding stale_findings
  stale_findings-Covered [] = tt
  stale_findings-Covered (row ∷ rows) =
      cons-Covered row rows (stale row) refl (stale_findings-Covered rows)

  no_package-stale : (row : FindingRow) → is_empty ids ≡ true → stale row ≡ false
  unfolding is_stale
  no_package-stale row h = let none_of = one_of-empty row.package_id ids h in ground arith

  no_packages-stale :
      (rows : List FindingRow) → is_empty ids ≡ true → All (λ row. stale row ≡ false) rows
  no_packages-stale [] h = tt
  no_packages-stale (row ∷ rows) h = (no_package-stale row h, no_packages-stale rows h)

  abbrev resolved_or_same : List FindingRow → Bool → Matches
  resolved_or_same rows b =
      let found = stale_findings org_id ids matched cves now rows in
      if b then ([], rows) else (found, resolve_each org_id now found rows)

  resolve_if-stale :
      (rows : List FindingRow) (b : Bool)
      → b ≡ is_empty ids
      → All (λ row. stale row ≡ false) (resolved_or_same rows b).1
  resolve_if-stale rows true e = no_packages-stale rows (sym e)
  resolve_if-stale rows false e =
      resolve_each-stale (stale_findings org_id ids matched cves now rows) rows
        (stale_findings-Covered rows)

  -- No finding is stale once the stale ones are resolved: a finding of the organisation that is
  -- still open, on one of the packages and with a known CVE, has a matched key.
  pub resolve_stale_findings-stale :
      (rows : List FindingRow)
      → All
          (λ row. is_stale org_id ids matched cves row ≡ false)
          (resolve_stale_findings org_id ids matched cves now rows).1
  unfolding resolve_stale_findings
  resolve_stale_findings-stale rows = resolve_if-stale rows (is_empty ids) refl
