-- ===== src/Store/Findings/Opened.antt =====
-- The row of a finding is open from its upsert on.
use ct_cve.Base.{
  Text, eq_refl, eq_sound, ◌≡◌, refl, arith, Bool, true, not, ◌&&◌, any, none, List, [], ◌∷◌, ◌++◌,
  inl, inr, if◌then◌else◌, Bool-cases, map,
}
use ct_cve.CtOps.Time.{Time}
use ct_cve.CtOps.Snapshot.{Finding}
use ct_cve.Store.Tables.{FindingRow, upsert, earliest}
use ct_cve.Store.Findings.{same_finding, open_row, upsert_open_finding, is_set}

-- A row of the finding is in the table, and is open.
unfoldable pub is_open : Text → Finding → List FindingRow → Bool
is_open org_id f = any (λ row. same_finding org_id f row && not (is_set row.resolved_at))

module _ (org_id : Text) (f : Finding) where
  open_row-same :
      (g : Finding) (row : FindingRow) (t : Time)
      → same_finding org_id g row ≡ true
      → same_finding org_id f row ≡ true
      → same_finding org_id f (open_row org_id g t) ≡ true
  unfolding same_finding open_row
  open_row-same g row t h k =
      let o = eq_refl org_id in
      let a = eq_refl f.host_id in
      let b = eq_refl f.software_package_id in
      let c = eq_refl f.cve_id in
      ground (
        arith,
        eq_sound row.host_id g.host_id,
        eq_sound row.host_id f.host_id,
        eq_sound row.package_id g.software_package_id,
        eq_sound row.package_id f.software_package_id,
        eq_sound row.cve_id g.cve_id,
        eq_sound row.cve_id f.cve_id,
      )

  open_row_self : (t : Time) → same_finding org_id f (open_row org_id f t) ≡ true
  unfolding same_finding open_row
  open_row_self t =
      let o = eq_refl org_id in
      let a = eq_refl f.host_id in
      let b = eq_refl f.software_package_id in let c = eq_refl f.cve_id in ground arith

  open_row-open : (g : Finding) (t : Time) → (open_row org_id g t).resolved_at ≡ none
  unfolding open_row
  open_row-open g t = refl

  is_open-updated :
      (g : Finding) (rows : List FindingRow)
      → is_open org_id f rows ≡ true
      → is_open org_id f (
          map
            (λ row.
              if same_finding org_id g row
              then open_row org_id g (earliest row.first_seen_at g.first_seen_at)
              else row)
            rows)
        ≡ true
  unfolding is_open
  is_open-updated g [] h = h
  is_open-updated g (row ∷ rows) h =
      let t = earliest row.first_seen_at g.first_seen_at in
      ground (arith, is_open-updated g rows, open_row-same g row t, open_row-open g t)

  is_open-inserted :
      (rows new : List FindingRow)
      → is_open org_id f rows ≡ true
      → is_open org_id f (rows ++ new) ≡ true
  unfolding is_open
  is_open-inserted [] new h = ground arith
  is_open-inserted (row ∷ rows) new h = ground (arith, is_open-inserted rows new)

  is_open-self_updated :
      (rows : List FindingRow)
      → any (same_finding org_id f) rows ≡ true
      → is_open org_id f (
          map
            (λ row.
              if same_finding org_id f row
              then open_row org_id f (earliest row.first_seen_at f.first_seen_at)
              else row)
            rows)
        ≡ true
  unfolding is_open
  is_open-self_updated [] h = ground arith
  is_open-self_updated (row ∷ rows) h =
      let t = earliest row.first_seen_at f.first_seen_at in
      ground (arith, is_open-self_updated rows, open_row_self t, open_row-open f t)

  is_open-self_inserted :
      (rows : List FindingRow)
      → is_open org_id f (rows ++ open_row org_id f f.first_seen_at ∷ []) ≡ true
  unfolding is_open
  is_open-self_inserted [] =
      let t = f.first_seen_at in ground (arith, open_row_self t, open_row-open f t)
  is_open-self_inserted (row ∷ rows) = ground (arith, is_open-self_inserted rows)

  pub is_open-upsert_open_finding :
      (rows : List FindingRow) → is_open org_id f (upsert_open_finding org_id f rows) ≡ true
  unfolding upsert_open_finding upsert
  is_open-upsert_open_finding rows = elim (Bool-cases (any (same_finding org_id f) rows)) [
    | inl e ↦ rw e (is_open-self_updated rows e)
    | inr e ↦ rw e (is_open-self_inserted rows)
  ]

  pub is_open-upsert :
      (g : Finding) (rows : List FindingRow)
      → is_open org_id f rows ≡ true
      → is_open org_id f (upsert_open_finding org_id g rows) ≡ true
  unfolding upsert_open_finding upsert
  is_open-upsert g rows h = elim (Bool-cases (any (same_finding org_id g) rows)) [
    | inl e ↦ rw e (is_open-updated g rows h)
    | inr e ↦ rw e (is_open-inserted rows (open_row org_id g g.first_seen_at ∷ []) h)
  ]
