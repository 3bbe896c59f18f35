-- ===== src/Vuln/Matcher/Laws.antt =====
-- When a package is matched to an advisory.
use ct_cve.Base.{
  Text, ℤ, ◌≡◌, ◌≢◌, ◌↔◌, ◌⊎◌, ap, ◌∙◌, arith, ◌==◌, eq_iff, any, is_empty, is_negative, Bool, true,
  false, some, none, Option-cases, Bool-cases, inl, inr, List, [], ◌∷◌, NonPos,
}
use ct_cve.Base.Order.{Triangle}
use ct_cve.Base.Utf8.{Unicode}
use ct_cve.Vuln.Types.{InventoryPackage, AffectedPackage, source_version_for_match}
use ct_cve.Vuln.Version.{compare_distro_version}
use ct_cve.Vuln.Version.Order.{IsPlain, compare_distro_version-Triangle}
use ct_cve.Vuln.Matcher.{
  Reason, mismatch, match_version, match_package, unless_mismatch, verdict,
  supported_inventory_source, distro_matches, distro_version_matches, package_name_matches,
  listed_affected_version,
}

abbrev pub IsListed : Text → List Text → Type 0
IsListed v [] = ⊥
IsListed v (w ∷ ws) = (w ≡ v) ⊎ IsListed v ws

any-IsListed : (v : Text) (ws : List Text) → (any (λ w. w == v) ws ≡ true) ↔ IsListed v ws
any-IsListed v [] = ground arith
any-IsListed v (w ∷ ws) = ground (arith, any-IsListed v ws, eq_iff w v)

-- The package is one that the advisory speaks of: its source is supported, its distribution, with
-- the version and code name where both sides give one, is the advisory's, and so is its name.
pub record IsSubject (p : InventoryPackage) (a : AffectedPackage) : Type 0 where
  pub source : supported_inventory_source p.source ≡ true
  pub distro : (a.distro_id ≡ []) ⊎ (distro_matches p a ≡ true)
  pub distro_version :
      (a.distro_version_id ≡ []) ⊎ (p.distro_version_id ≡ []) ⊎ (distro_version_matches p a ≡ true)
  pub codename :
      (a.distro_codename ≡ []) ⊎ (p.distro_codename ≡ []) ⊎ (a.distro_codename ≡ p.distro_codename)
  pub name : package_name_matches p a ≡ true

is_empty_iff : (s : Text) → (is_empty s ≡ true) ↔ (s ≡ [])
is_empty_iff [] = ground arith
is_empty_iff (_ ∷ _) = ground arith

mismatch-IsSubject :
    (p : InventoryPackage) (a : AffectedPackage) → (mismatch p a ≡ none) ↔ IsSubject p a
unfolding mismatch
mismatch-IsSubject p a = ground (
  arith,
  is_empty_iff a.distro_id,
  is_empty_iff a.distro_version_id,
  is_empty_iff p.distro_version_id,
  is_empty_iff a.distro_codename,
  is_empty_iff p.distro_codename,
  eq_iff a.distro_codename p.distro_codename,
)

-- The version is below the one that fixes the advisory, as the comparison of versions finds.
abbrev pub IsBelowFix : Unicode → Text → Text → AffectedPackage → Type 0
IsBelowFix u source installed a =
    (a.fixed_version ≢ [])
    × ((c : ℤ) × (compare_distro_version u source installed a.fixed_version ≡ some c)
        × (is_negative c ≡ true))

abbrev pub IsVulnerable : Unicode → Text → Text → AffectedPackage → Type 0
IsVulnerable u source installed a =
    (installed ≢ []) × (IsListed installed a.affected_versions ⊎ IsBelowFix u source installed a)

module _ (u : Unicode) (source installed : Text) (a : AffectedPackage) where
  -- The installed version is one that the advisory lists.
  abbrev listed : Bool
  listed = any (λ version. version == installed) a.affected_versions

  some_installed :
      (r : Reason) → match_version u source installed a ≡ some (true, r) → installed ≢ []
  unfolding match_version
  some_installed r h = ground (arith, is_empty_iff installed)

  some_fix :
      (r : Reason)
      → match_version u source installed a ≡ some (true, r)
      → listed ≡ false
      → a.fixed_version ≢ []
  unfolding match_version
  some_fix r h l = ground (arith, is_empty_iff installed, is_empty_iff a.fixed_version)

  some_below :
      (r : Reason)
      → match_version u source installed a ≡ some (true, r)
      → listed ≡ false
      → (c : ℤ) × (compare_distro_version u source installed a.fixed_version ≡ some c)
        × (is_negative c ≡ true)
  unfolding match_version verdict
  some_below r h l =
      elim (Option-cases (compare_distro_version u source installed a.fixed_version)) [
        | inl endless ↦ ground arith
        | inr (c, ended) ↦ (c, ended, ground arith)
      ]

  match_version_sound :
      (r : Reason)
      → match_version u source installed a ≡ some (true, r)
      → IsVulnerable u source installed a
  match_version_sound r h = elim (Bool-cases listed) [
    | inl l ↦ (some_installed r h, inl ((any-IsListed installed a.affected_versions).0 l))
    | inr l ↦ (some_installed r h, inr (some_fix r h l, some_below r h l))
  ]

  match_version-listed :
      installed ≢ []
      → listed ≡ true
      → match_version u source installed a ≡ some (true, listed_affected_version)
  unfolding match_version
  match_version-listed s l = ground (arith, is_empty_iff installed)

  match_version_unlisted :
      installed ≢ []
      → listed ≡ false
      → a.fixed_version ≢ []
      → (c : ℤ) → compare_distro_version u source installed a.fixed_version ≡ some c
      → match_version u source installed a ≡ some (verdict source c)
  unfolding match_version
  match_version_unlisted s l f c e =
      ground (arith, is_empty_iff installed, is_empty_iff a.fixed_version)

  match_version_complete :
      IsVulnerable u source installed a
      → (r : Reason) × (match_version u source installed a ≡ some (true, r))
  match_version_complete (some_version, inl l) = (
    listed_affected_version,
    match_version-listed some_version ((any-IsListed installed a.affected_versions).1 l),
  )
  match_version_complete (some_version, inr (has_fix, (c, ended, below))) =
      elim (Bool-cases listed) [
        | inl l ↦ (listed_affected_version, match_version-listed some_version l)
        | inr l ↦ (
          (verdict source c).1,
          match_version_unlisted some_version l has_fix c ended
              ∙ ap some (unfold verdict in ground arith),
        )
      ]

module _ (u : Unicode) (p : InventoryPackage) (a : AffectedPackage) where
  abbrev pub IsAffected : Type 0
  IsAffected = IsSubject p a × IsVulnerable u p.source (source_version_for_match p a) a

  -- A package is reported exactly if the advisory speaks of it, and its installed version is known
  -- and is listed by the advisory, or below the version that fixes it.
  pub match_package_iff : ((r : Reason) × (match_package u p a ≡ some (true, r))) ↔ IsAffected
  match_package_iff = (
    λ (r, h). elim (Option-cases (mismatch p a)) [
      | inl e ↦ (
        (mismatch-IsSubject p a).0 e,
        match_version_sound u p.source (source_version_for_match p a) a r (passed e h),
      )
      | inr (reason, e) ↦ absurd (refused e h)
    ],
    λ (s, v).
        let (r, h) = match_version_complete u p.source (source_version_for_match p a) a v in
        (r, unfold match_package unless_mismatch in rw ((mismatch-IsSubject p a).1 s) h),
  )
    where
      passed :
          {r : Reason}
          → mismatch p a ≡ none
          → match_package u p a ≡ some (true, r)
          → match_version u p.source (source_version_for_match p a) a ≡ some (true, r)
      passed e h = unfold match_package unless_mismatch in ground arith

      refused :
          {r reason : Reason}
          → mismatch p a ≡ some reason
          → match_package u p a ≡ some (true, r)
          → ⊥
      refused e h = unfold match_package unless_mismatch in ground arith

abbrev pub at_version : InventoryPackage → Text → InventoryPackage
at_version p v = record p { version = v }

-- Only the comparison of versions reads the version.
IsSubject-at_version :
    (p : InventoryPackage) (a : AffectedPackage) (v : Text)
    → IsSubject p a
    → IsSubject (at_version p v) a
IsSubject-at_version p a v s = record {
  source = s.source;
  distro = unfold distro_matches in s.distro;
  distro_version = unfold distro_version_matches in s.distro_version;
  codename = s.codename;
  name = unfold package_name_matches in s.name;
}

source_version-eq-version :
    (p : InventoryPackage) (a : AffectedPackage)
    → p.source_name ≡ []
    → source_version_for_match p a ≡ p.version
unfolding source_version_for_match
source_version-eq-version p a e = rw e

negative_of_Triangle :
    (x y z : ℤ) → Triangle x y z → NonPos x → is_negative y ≡ true → is_negative z ≡ true
negative_of_Triangle x y z t h k = ground arith

-- Take an advisory that lists no versions, and a package that is known by its own name and version
-- alone. If the package is reported, so is the same package at any version that compares as the
-- same or below, versions being plain and not empty.
pub match_package-older :
    (u : Unicode) (p : InventoryPackage) (a : AffectedPackage) (v : Text) (c : ℤ) (r : Reason)
    → p.source_name ≡ []
    → a.affected_versions ≡ []
    → IsPlain p.version
    → IsPlain a.fixed_version
    → IsPlain v
    → v ≢ []
    → compare_distro_version u p.source v p.version ≡ some c
    → NonPos c
    → match_package u p a ≡ some (true, r)
    → (s : Reason) × (match_package u (at_version p v) a ≡ some (true, s))
match_package-older u p a v c r no_source no_list pp pa pv some_v e low h =
    let (subject, (_, vulnerable)) = (match_package_iff u p a).0 (r, h) in
    (match_package_iff u (at_version p v) a).1 (
      IsSubject-at_version p a v subject,
      rw (source_version-eq-version (at_version p v) a no_source)
          (some_v, inr (still_below vulnerable)),
    )
  where
    transitive :
        (x y z : ℤ)
        → compare_distro_version u p.source v p.version ≡ some x
        → compare_distro_version u p.source p.version a.fixed_version ≡ some y
        → Triangle x y z
        → (d : ℤ) → compare_distro_version u p.source p.version a.fixed_version ≡ some d
        → is_negative d ≡ true
        → is_negative z ≡ true
    transitive x y z ex ey t d ed below =
        negative_of_Triangle x y z t (let same : c ≡ x = ground arith in rw (← same) low)
          (let same : d ≡ y = ground arith in rw (← same) below)

    still_below :
        IsListed (source_version_for_match p a) a.affected_versions
          ⊎ IsBelowFix u p.source (source_version_for_match p a) a
        → IsBelowFix u p.source v a
    still_below (inl l) = absurd (rw no_list at l)
    still_below (inr (has_fix, (d, ended, below))) =
        let (x, y, z, ex, ey, ez, t) =
          compare_distro_version-Triangle u p.source v p.version a.fixed_version pv pp pa in
        (
          has_fix,
          (
            z,
            ez,
            transitive x y z ex ey t d (rw (source_version-eq-version p a no_source) at ended)
                below,
          ),
        )
