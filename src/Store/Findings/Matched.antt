-- ===== src/Store/Findings/Matched.antt =====
-- The findings of a snapshot are its matches.
use ct_cve.Base.{
  Text, ◌≡◌, refl, sym, subst, arith, Bool, true, false, All, All-append, Option, some, none, ◌>>=◌,
  List, [], ◌∷◌, inl, inr, ◌⊎◌, if◌then◌else◌,
}
use ct_cve.Base.Utf8.{Unicode}
use ct_cve.CtOps.Time.{Time}
use ct_cve.CtOps.Snapshot.{Finding, InventorySnapshot, SnapshotPackage}
use ct_cve.Vuln.Matcher.{Reason, match_package}
use ct_cve.Store.Tables.{FindingRow}
use ct_cve.Store.Findings.{
  AffectedRecord, Matches, inventory_package, is_live, finding_from_match, add_match,
  match_candidates, match_packages,
}

-- The element is one of the list's.
abbrev pub Among : {A : Type 0} → A → List A → Type 0
Among a [] = ⊥
Among a (b ∷ bs) = (a ≡ b) ⊎ Among a bs

pub same-Matches : (m m' : Matches) → ◌≡◌ {A = Option Matches} (some m) (some m') → m ≡ m'
same-Matches m m' h = ground arith

pub bind-some :
    {A B : Type 0} (o : Option A) (f : A → Option B) (b : B)
    → (o >>= f) ≡ some b
    → (a : A) × (o ≡ some a) × (f a ≡ some b)
bind-some none f b h = ground arith
bind-some (some a) f b h = (a, refl, h)

module _ (u : Unicode) (sha256_hex : Text → Text) (snapshot : InventorySnapshot) (now : Time) where
  -- The finding is that of a live package among the given ones and of a candidate that it matches.
  abbrev pub Justified : List AffectedRecord → List SnapshotPackage → Finding → Type 0
  Justified candidates packages f =
      (p : SnapshotPackage) × (c : AffectedRecord) × (reason : Reason) × Among p packages
      × Among c candidates
      × (is_live snapshot p ≡ true)
      × (match_package u (inventory_package p) c.row.affected ≡ some (true, reason))
      × (f ≡ finding_from_match sha256_hex snapshot.org_id p c reason now)

  module _ (P : Finding → Type 0) where
    -- What a match adds has the property.
    abbrev Adds : SnapshotPackage → AffectedRecord → Type 0
    Adds p c =
        (reason : Reason)
        → match_package u (inventory_package p) c.row.affected ≡ some (true, reason)
        → P (finding_from_match sha256_hex snapshot.org_id p c reason now)

    add_match-All :
        (p : SnapshotPackage) (c : AffectedRecord) (m : Matches) (v : Bool × Reason)
        → Adds p c
        → match_package u (inventory_package p) c.row.affected ≡ some v
        → All P m.0
        → All P (add_match u sha256_hex snapshot now p c m v).0
    unfolding add_match
    add_match-All p c (found, rows) (false, reason) adds e all = all
    add_match-All p c (found, rows) (true, reason) adds e all =
        All-append P found _ all (adds reason e, tt)

    match_candidates-All :
        (p : SnapshotPackage) (cs : List AffectedRecord) (m m' : Matches)
        → ((c : AffectedRecord) → Among c cs → Adds p c)
        → match_candidates u sha256_hex snapshot now p cs m ≡ some m'
        → All P m.0
        → All P m'.0
    unfolding match_candidates
    match_candidates-All p [] m m' adds h all =
        subst (λ (x : Matches). All P x.0) (same-Matches m m' h) all
    match_candidates-All p (c ∷ cs) m m' adds h all =
        let (v, e, h') = bind-some (match_package u (inventory_package p) c.row.affected) _ m' h in
        match_candidates-All p cs (add_match u sha256_hex snapshot now p c m v) m'
          (λ c' i. adds c' (inr i)) h' (add_match-All p c m v (adds c (inl refl)) e all)

    abbrev match_live : List AffectedRecord → SnapshotPackage → Matches → Option Matches
    match_live cs p m =
        if is_live snapshot p then match_candidates u sha256_hex snapshot now p cs m else some m

    match_live-All :
        (p : SnapshotPackage) (cs : List AffectedRecord) (m m' : Matches) (b : Bool)
        → b ≡ is_live snapshot p
        → ((c : AffectedRecord) → Among c cs → is_live snapshot p ≡ true → Adds p c)
        → (if b then match_candidates u sha256_hex snapshot now p cs m else some m) ≡ some m'
        → All P m.0
        → All P m'.0
    match_live-All p cs m m' true e adds h all =
        match_candidates-All p cs m m' (λ c i. adds c i (sym e)) h all
    match_live-All p cs m m' false e adds h all =
        subst (λ (x : Matches). All P x.0) (same-Matches m m' h) all

    match_packages-All :
        (cs : List AffectedRecord) (packages : List SnapshotPackage) (m m' : Matches)
        → ((p : SnapshotPackage) (c : AffectedRecord)
            → Among p packages
            → Among c cs
            → is_live snapshot p ≡ true
            → Adds p c)
        → match_packages u sha256_hex snapshot now cs packages m ≡ some m'
        → All P m.0
        → All P m'.0
    unfolding match_packages
    match_packages-All cs [] m m' adds h all =
        subst (λ (x : Matches). All P x.0) (same-Matches m m' h) all
    match_packages-All cs (p ∷ packages) m m' adds h all =
        let (m1, e, h') = bind-some (match_live cs p m) _ m' h in
        match_packages-All cs packages m1 m' (λ p' c i. adds p' c (inr i)) h'
          (match_live-All p cs m m1 (is_live snapshot p) refl
            (λ c i live. adds p c (inl refl) i live) e all)

  -- Each finding that the matching returns is justified by a live package of the snapshot, and by a
  -- candidate that MatchPackage says it matches.
  pub match_packages-Justified :
      (cs : List AffectedRecord) (packages : List SnapshotPackage) (rows : List FindingRow)
      (m : Matches)
      → match_packages u sha256_hex snapshot now cs packages ([], rows) ≡ some m
      → All (Justified cs packages) m.0
  match_packages-Justified cs packages rows m h =
      match_packages-All (Justified cs packages) cs packages ([], rows) m
        (λ p c i j live reason e. (p, c, reason, i, j, live, e, refl)) h tt
