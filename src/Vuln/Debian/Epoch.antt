-- ===== src/Vuln/Debian/Epoch.antt =====
-- The epochs of Debian versions: where their difference fits an int64 the whole comparison is a
-- total order up to ties, and where it does not the comparison goes the wrong way.
use ct_cve.Base.{
  suc, atoi, Option, some, none, [], ◌∷◌, Option-cases, inl, inr, cut, ℕ, ◌+◌, ◌^◌, ◌≤◌, ◌<◌, Text,
  ℤ, pos, negsuc, pos_part, neg_part, neg, ◌-ℤ◌, wrap64, is_negative, ◌≡◌, refl, arith, true,
}
use ct_cve.Base.Order.{IsOrder, Triangle, first_nonzero, -ℤ-IsOrder, then-IsOrder, on-IsOrder}
use ct_cve.Vuln.Debian.{
  DebianVersion, debian_part_compare, split_debian_version, compare_split, compare_debian_version,
  split_epoch, with_epoch, after_cut, at_last_dash,
}
use ct_cve.Vuln.Debian.Order.{debian_part_compare-IsOrder}

-- The epoch is 0 or more, and an int64, as `strconv.Atoi` returns it.
pub record HasPlainEpoch (v : DebianVersion) : Type 0 where
  pub nonneg : neg_part v.epoch ≡ 0
  pub fits : pos_part v.epoch < 2 ^ 63

wrap64-sub : (m n : ℕ) → m < 2 ^ 63 → n < 2 ^ 63 → wrap64 (pos m -ℤ pos n) ≡ pos m -ℤ pos n
unfolding wrap64 ◌-ℤ◌
wrap64-sub m n h k = ground arith

pub wrap64-sub_ℤ :
    (x y : ℤ)
    → neg_part x ≡ 0
    → neg_part y ≡ 0
    → pos_part x < 2 ^ 63
    → pos_part y < 2 ^ 63
    → wrap64 (x -ℤ y) ≡ x -ℤ y
wrap64-sub_ℤ (pos m) (pos n) _ _ h k = wrap64-sub m n h k
wrap64-sub_ℤ (pos m) (negsuc n) _ e _ _ = absurd (omega arith)
wrap64-sub_ℤ (negsuc m) y e _ _ _ = absurd (omega arith)

pub exact : DebianVersion → DebianVersion → ℤ
exact a b = first_nonzero (a.epoch -ℤ b.epoch) (
    first_nonzero (debian_part_compare a.upstream b.upstream)
      (debian_part_compare a.revision b.revision))

pub exact-IsOrder : IsOrder exact
exact-IsOrder =
    unfold exact in
    then-IsOrder (on-IsOrder (λ (v : DebianVersion). v.epoch) -ℤ-IsOrder) (
      then-IsOrder (on-IsOrder (λ (v : DebianVersion). v.upstream) debian_part_compare-IsOrder)
        (on-IsOrder (λ (v : DebianVersion). v.revision) debian_part_compare-IsOrder))

compare_split-exact :
    {a b : DebianVersion} → HasPlainEpoch a → HasPlainEpoch b → compare_split a b ≡ exact a b
unfolding compare_split exact
compare_split-exact {a} {b} p q = rw (wrap64-sub_ℤ a.epoch b.epoch p.nonneg q.nonneg p.fits q.fits)

atoi-lt : (s : Text) (z : ℤ) → atoi s ≡ some z → pos_part z < 2 ^ 63
unfolding atoi
atoi-lt [] z h = cc
atoi-lt (c ∷ s) z h = ground arith

with_epoch-lt : (v before after : Text) → pos_part (with_epoch v after (atoi before)).0 < 2 ^ 63
unfolding with_epoch
with_epoch-lt v before after = elim (Option-cases (atoi before)) [
  | inl e ↦ rw e (omega arith)
  | inr (z, e) ↦ rw e (atoi-lt before z e)
]

after_cut-lt : (v : Text) (o : Option (Text × Text)) → pos_part (after_cut v o).0 < 2 ^ 63
unfolding after_cut
after_cut-lt v none = omega arith
after_cut-lt v (some (before, after)) = with_epoch-lt v before after

epoch-at_last_dash : (e : ℤ) (v : Text) (o : Option (Text × Text)) → (at_last_dash e v o).epoch ≡ e
unfolding at_last_dash
epoch-at_last_dash e v none = refl
epoch-at_last_dash e v (some (u, r)) = refl

pub epoch-split_debian_version : (v : Text) → (split_debian_version v).epoch ≡ (split_epoch v).0
epoch-split_debian_version v =
    unfold split_debian_version in epoch-at_last_dash (split_epoch v).0 (split_epoch v).1 _

pub split_epoch-lt : (v : Text) → pos_part (split_epoch v).0 < 2 ^ 63
split_epoch-lt v = unfold split_epoch in after_cut-lt v (cut v b':')

-- An epoch that is read off a version is an int64.
pub plain_epoch :
    (v : Text)
    → neg_part (split_debian_version v).epoch ≡ 0
    → HasPlainEpoch (split_debian_version v)
plain_epoch v h = record { nonneg = h; fits = rw epoch-split_debian_version (split_epoch-lt v) }

overflow-negative :
    (m n : ℕ)
    → m < 2 ^ 63
    → n < 2 ^ 63
    → 2 ^ 63 ≤ m + suc n
    → is_negative (wrap64 (pos m -ℤ negsuc n)) ≡ true
unfolding wrap64 ◌-ℤ◌
overflow-negative m n h k e = ground arith

abbrev pub HasEpoch : Text → Type 0
HasEpoch v = neg_part (split_debian_version v).epoch ≡ 0

pub compare_debian_version-exact :
    (a b : Text)
    → HasEpoch a
    → HasEpoch b
    → compare_debian_version a b ≡ exact (split_debian_version a) (split_debian_version b)
compare_debian_version-exact a b p q =
    unfold compare_debian_version in compare_split-exact (plain_epoch a p) (plain_epoch b q)

pub compare_debian_version_flip :
    (a b : Text)
    → HasEpoch a
    → HasEpoch b
    → compare_debian_version b a ≡ neg (compare_debian_version a b)
compare_debian_version_flip a b p q =
    rw (compare_debian_version-exact b a q p, compare_debian_version-exact a b p q)
      (exact-IsOrder.flip (split_debian_version a) (split_debian_version b))

pub compare_debian_version-Triangle :
    (a b c : Text)
    → HasEpoch a
    → HasEpoch b
    → HasEpoch c
    → Triangle
        (compare_debian_version a b)
        (compare_debian_version b c)
        (compare_debian_version a c)
compare_debian_version-Triangle a b c p q r =
    rw
      (
        compare_debian_version-exact a b p q,
        compare_debian_version-exact b c q r,
        compare_debian_version-exact a c p r,
      )
      (exact-IsOrder.trans (split_debian_version a) (split_debian_version b)
        (split_debian_version c))

overflow-compare_split :
    (a b : DebianVersion) (m n : ℕ)
    → a.epoch ≡ pos m
    → b.epoch ≡ negsuc n
    → m < 2 ^ 63
    → n < 2 ^ 63
    → 2 ^ 63 ≤ m + suc n
    → is_negative (compare_split a b) ≡ true
overflow-compare_split a b m n e f h k o = unfold compare_split in rw (e, f) (ground arith)

-- Epochs so far apart that their difference is no int64: the version with the larger epoch, `a`,
-- is found to be below the other.
pub overflow-compare_debian_version :
    (a b : Text) (m n : ℕ)
    → (split_debian_version a).epoch ≡ pos m
    → (split_debian_version b).epoch ≡ negsuc n
    → m < 2 ^ 63
    → n < 2 ^ 63
    → 2 ^ 63 ≤ m + suc n
    → is_negative (compare_debian_version a b) ≡ true
overflow-compare_debian_version a b m n e f h k o =
    unfold compare_debian_version in
    overflow-compare_split (split_debian_version a) (split_debian_version b) m n e f h k o
