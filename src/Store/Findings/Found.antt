-- ===== src/Store/Findings/Found.antt =====
-- The matches of a snapshot are found, and their findings are open.
use ct_cve.Base.{
  Text, ◌≡◌, refl, ap, sym, ◌∙◌, subst, arith, Bool, true, false, Option, some, List, [], ◌∷◌, ◌++◌,
  inl, inr, if◌then◌else◌,
}
use ct_cve.Base.Utf8.{Unicode}
use ct_cve.CtOps.Time.{Time}
use ct_cve.CtOps.Snapshot.{Finding, InventorySnapshot, SnapshotPackage}
use ct_cve.Vuln.Matcher.{Reason, match_package}
use ct_cve.Store.Findings.{
  AffectedRecord, Matches, inventory_package, is_live, finding_from_match, add_match,
  match_candidates, match_packages,
}
use ct_cve.Store.Findings.Opened.{is_open, is_open-upsert, is_open-upsert_open_finding}
use ct_cve.Store.Findings.Matched.{Among, same-Matches, bind-some}

same_pair : {a b : Bool × Reason} → ◌≡◌ {A = Option (Bool × Reason)} (some a) (some b) → a ≡ b
same_pair h = ground arith

Among-end : (f : Finding) (fs : List Finding) → Among f (fs ++ f ∷ [])
Among-end f [] = inl refl
Among-end f (_ ∷ fs) = inr (Among-end f fs)

Among-append : (f g : Finding) (fs : List Finding) → Among f fs → Among f (fs ++ g ∷ [])
Among-append f g [] i = elim i [ ]
Among-append f g (_ ∷ fs) (inl e) = inl e
Among-append f g (_ ∷ fs) (inr i) = inr (Among-append f g fs i)

module _ (u : Unicode) (sha256_hex : Text → Text) (snapshot : InventorySnapshot) (now : Time) where
  -- The finding is returned, and it has an open row.
  abbrev pub IsFound : Finding → Matches → Type 0
  IsFound f m = Among f m.0 × (is_open snapshot.org_id f m.1 ≡ true)

  module _ (f : Finding) where
    add_match-IsFound :
        (p : SnapshotPackage) (c : AffectedRecord) (m : Matches) (v : Bool × Reason)
        → IsFound f m
        → IsFound f (add_match u sha256_hex snapshot now p c m v)
    unfolding add_match
    add_match-IsFound p c (found, rows) (false, reason) h = h
    add_match-IsFound p c (found, rows) (true, reason) (i, o) =
        let g = finding_from_match sha256_hex snapshot.org_id p c reason now in
        (Among-append f g found i, is_open-upsert snapshot.org_id f g rows o)

    match_candidates-IsFound :
        (p : SnapshotPackage) (cs : List AffectedRecord) (m m' : Matches)
        → match_candidates u sha256_hex snapshot now p cs m ≡ some m'
        → IsFound f m
        → IsFound f m'
    unfolding match_candidates
    match_candidates-IsFound p [] m m' h k = subst (IsFound f) (same-Matches m m' h) k
    match_candidates-IsFound p (c ∷ cs) m m' h k =
        let (v, e, h') = bind-some (match_package u (inventory_package p) c.row.affected) _ m' h in
        match_candidates-IsFound p cs (add_match u sha256_hex snapshot now p c m v) m' h'
          (add_match-IsFound p c m v k)

    match_live-IsFound :
        (p : SnapshotPackage) (cs : List AffectedRecord) (m m' : Matches) (b : Bool)
        → (if b then match_candidates u sha256_hex snapshot now p cs m else some m) ≡ some m'
        → IsFound f m
        → IsFound f m'
    match_live-IsFound p cs m m' true h k = match_candidates-IsFound p cs m m' h k
    match_live-IsFound p cs m m' false h k = subst (IsFound f) (same-Matches m m' h) k

    match_packages-IsFound :
        (cs : List AffectedRecord) (packages : List SnapshotPackage) (m m' : Matches)
        → match_packages u sha256_hex snapshot now cs packages m ≡ some m'
        → IsFound f m
        → IsFound f m'
    unfolding match_packages
    match_packages-IsFound cs [] m m' h k = subst (IsFound f) (same-Matches m m' h) k
    match_packages-IsFound cs (p ∷ packages) m m' h k =
        let live = is_live snapshot p in
        let (m1, e, h') =
          bind-some (if live then match_candidates u sha256_hex snapshot now p cs m else some m) _
            m' h in
        match_packages-IsFound cs packages m1 m' h' (match_live-IsFound p cs m m1 live e k)

  module _ (p : SnapshotPackage) (c : AffectedRecord) (reason : Reason)
      (match : match_package u (inventory_package p) c.row.affected ≡ some (true, reason)) where
    abbrev new_finding : Finding
    new_finding = finding_from_match sha256_hex snapshot.org_id p c reason now

    add_match-new :
        (m : Matches)
        → IsFound new_finding (add_match u sha256_hex snapshot now p c m (true, reason))
    unfolding add_match
    add_match-new (found, rows) =
        (Among-end new_finding found, is_open-upsert_open_finding snapshot.org_id new_finding rows)

    abbrev match_live : List AffectedRecord → SnapshotPackage → Matches → Option Matches
    match_live cs q m =
        if is_live snapshot q then match_candidates u sha256_hex snapshot now q cs m else some m

    same_verdict :
        (d : AffectedRecord) (v : Bool × Reason)
        → c ≡ d
        → match_package u (inventory_package p) d.row.affected ≡ some v
        → (true, reason) ≡ v
    same_verdict d v i e = same_pair (
        sym match
        ∙ (ap (λ (x : AffectedRecord). match_package u (inventory_package p) x.row.affected) i ∙ e))

    match_candidates-new :
        (cs : List AffectedRecord) (m m' : Matches)
        → Among c cs
        → match_candidates u sha256_hex snapshot now p cs m ≡ some m'
        → IsFound new_finding m'
    unfolding match_candidates
    match_candidates-new [] m m' i h = elim i [ ]
    match_candidates-new (d ∷ cs) m m' (inr i) h =
        let (v, e, h') = bind-some (match_package u (inventory_package p) d.row.affected) _ m' h in
        match_candidates-new cs (add_match u sha256_hex snapshot now p d m v) m' i h'
    match_candidates-new (d ∷ cs) m m' (inl i) h =
        let (v, e, h') = bind-some (match_package u (inventory_package p) d.row.affected) _ m' h in
        match_candidates-IsFound new_finding p cs (add_match u sha256_hex snapshot now p d m v) m'
          h'
          (subst (λ x. IsFound new_finding (add_match u sha256_hex snapshot now p x m v)) i
            (subst (λ w. IsFound new_finding (add_match u sha256_hex snapshot now p c m w))
              (same_verdict d v i e) (add_match-new m)))

    live_match :
        (cs : List AffectedRecord) (q : SnapshotPackage) (m m' : Matches)
        → p ≡ q
        → is_live snapshot p ≡ true
        → match_live cs q m ≡ some m'
        → match_candidates u sha256_hex snapshot now p cs m ≡ some m'
    live_match cs q m m' i live e =
        let e' : match_live cs p m ≡ some m' = subst (λ x. match_live cs x m ≡ some m') (sym i) e in
        subst
          (λ b. (if b then match_candidates u sha256_hex snapshot now p cs m else some m) ≡ some m')
          live e'

    match_packages-new :
        (cs : List AffectedRecord) (packages : List SnapshotPackage) (m m' : Matches)
        → Among p packages
        → Among c cs
        → is_live snapshot p ≡ true
        → match_packages u sha256_hex snapshot now cs packages m ≡ some m'
        → IsFound new_finding m'
    unfolding match_packages
    match_packages-new cs [] m m' i j live h = elim i [ ]
    match_packages-new cs (q ∷ packages) m m' (inr i) j live h =
        let (m1, e, h') = bind-some (match_live cs q m) _ m' h in
        match_packages-new cs packages m1 m' i j live h'
    match_packages-new cs (q ∷ packages) m m' (inl i) j live h =
        let (m1, e, h') = bind-some (match_live cs q m) _ m' h in
        match_packages-IsFound new_finding cs packages m1 m' h'
          (match_candidates-new cs m m1 j (live_match cs q m m1 i live e))

  -- Each live package of the snapshot that MatchPackage matches to a candidate gives a finding,
  -- which is returned and is open in the table.
  pub match_packages_complete :
      (p : SnapshotPackage) (c : AffectedRecord) (reason : Reason) (cs : List AffectedRecord)
      (packages : List SnapshotPackage) (m m' : Matches)
      → Among p packages
      → Among c cs
      → is_live snapshot p ≡ true
      → match_package u (inventory_package p) c.row.affected ≡ some (true, reason)
      → match_packages u sha256_hex snapshot now cs packages m ≡ some m'
      → IsFound (finding_from_match sha256_hex snapshot.org_id p c reason now) m'
  match_packages_complete p c reason cs packages m m' i j live e h =
      match_packages-new p c reason e cs packages m m' i j live h
