-- ===== src/Vuln/Version/Order.antt =====
-- For every package source, the comparison of two plain versions ends, and it is a total order up
-- to ties.
use ct_cve.Base.{
  ℕ, ◌+◌, ◌≤◌, Text, ℤ, neg, neg_part, ◌-ℤ◌, is_zero, ◌≡◌, refl, ap, ◌∙◌, arith, length, true,
  false, Bool, if◌then◌else◌, some, IsAscii,
}
use ct_cve.Base.Order.{IsOrder, Triangle, first_nonzero, -ℤ-IsOrder, then-IsOrder, on-IsOrder}
use ct_cve.Base.Utf8.{Unicode}
use ct_cve.Vuln.Debian.{split_epoch, split_debian_version}
use ct_cve.Vuln.Debian.Epoch.{
  exact, exact-IsOrder, compare_debian_version-exact, HasEpoch, split_epoch-lt, wrap64-sub_ℤ,
  epoch-split_debian_version,
}
use ct_cve.Vuln.Rpm.{compare_rpm_version}
use ct_cve.Vuln.Rpm.Loop.{rpm_order, rpm_order-IsOrder, rpmvercmp-rpm_order}
use ct_cve.Vuln.Natural.{compare_natural_version}
use ct_cve.Vuln.Natural.Order.{compare_natural_version-IsOrder}
use ct_cve.Vuln.Version.{
  normalize_compare, one_of, debian_sources, rpm_sources, alpine_sources, compare_distro_version,
}
use ct_cve.Vuln.Version.Epoch.{split_epoch-IsPart}

-- An ASCII text whose epoch, if it has one, is not negative.
pub record IsPlain (v : Text) : Type 0 where
  pub ascii : IsAscii v
  pub epoch : neg_part (split_epoch v).0 ≡ 0

if-some {ℓ} :
    {A : Type ℓ} (t : Bool) (x y : A) → (if t then some x else some y) ≡ some (if t then x else y)
if-some true x y = refl
if-some false x y = refl

switch-some :
    (f : ℤ → ℤ) (s t r : Bool) (x y z : ℤ)
    → (if s then some (f x) else if t then some (f y) else if r then some (f z) else some (f z))
      ≡ some (f (if s then x else if t then y else z))
switch-some f true t r x y z = refl
switch-some f false true r x y z = refl
switch-some f false false true x y z = refl
switch-some f false false false x y z = refl

if-IsOrder :
    {c d : Text → Text → ℤ} (t : Bool)
    → IsOrder c
    → IsOrder d
    → IsOrder (λ a b. if t then c a b else d a b)
if-IsOrder true o p = o
if-IsOrder false o p = p

IsPlain-HasEpoch : {v : Text} → IsPlain v → HasEpoch v
IsPlain-HasEpoch {v} p = rw epoch-split_debian_version p.epoch

normalize_compare-neg : (z : ℤ) → normalize_compare (neg z) ≡ neg (normalize_compare z)
unfolding normalize_compare
normalize_compare-neg z = ground arith

normalize_compare-Triangle :
    (x y z : ℤ)
    → Triangle x y z
    → Triangle (normalize_compare x) (normalize_compare y) (normalize_compare z)
unfolding normalize_compare
normalize_compare-Triangle x y z t h k = ground arith

module _ (u : Unicode) where
  -- What `compareRPMVersion` computes, for versions up to a length.
  rpm_exact : ℕ → Text → Text → ℤ
  rpm_exact m a b =
      first_nonzero ((split_epoch a).0 -ℤ (split_epoch b).0)
        (rpm_order u m (split_epoch a).1 (split_epoch b).1)

  rpm_exact-IsOrder : (m : ℕ) → IsOrder (rpm_exact m)
  rpm_exact-IsOrder m =
      unfold rpm_exact in
      then-IsOrder (on-IsOrder (λ v. (split_epoch v).0) -ℤ-IsOrder)
        (on-IsOrder (λ v. (split_epoch v).1) (rpm_order-IsOrder u m))

  compare_rpm_version-exact :
      (m : ℕ) {a b : Text}
      → IsPlain a
      → IsPlain b
      → length a + length b ≤ m
      → compare_rpm_version u a b ≡ some (rpm_exact m a b)
  unfolding compare_rpm_version rpm_exact
  compare_rpm_version-exact m {a} {b} p q h =
      rw
        (
          wrap64-sub_ℤ (split_epoch a).0 (split_epoch b).0 p.epoch q.epoch (split_epoch-lt a)
              (split_epoch-lt b),
          rpmvercmp-rpm_order u m (split_epoch a).1 (split_epoch b).1
              ((split_epoch-IsPart a).ascii p.ascii) ((split_epoch-IsPart b).ascii q.ascii)
              (omega (arith, (split_epoch-IsPart a).shorter, (split_epoch-IsPart b).shorter)),
        )
        (if-some (is_zero ((split_epoch a).0 -ℤ (split_epoch b).0)) _ _)

  -- What `CompareDistroVersion` computes before it is normalised, for versions up to a length.
  distro_order : ℕ → Text → Text → Text → ℤ
  distro_order m source a b =
      if one_of source debian_sources
      then exact (split_debian_version a) (split_debian_version b)
      else if one_of source rpm_sources
      then rpm_exact m a b
      else compare_natural_version a b

  distro_order-IsOrder : (m : ℕ) (source : Text) → IsOrder (distro_order m source)
  distro_order-IsOrder m source =
      unfold distro_order in
      if-IsOrder (one_of source debian_sources) (on-IsOrder split_debian_version exact-IsOrder) (
        if-IsOrder (one_of source rpm_sources) (rpm_exact-IsOrder m)
          compare_natural_version-IsOrder)

  compare_distro_version-order :
      (m : ℕ) (source : Text) {a b : Text}
      → IsPlain a
      → IsPlain b
      → length a + length b ≤ m
      → compare_distro_version u source a b ≡ some (normalize_compare (distro_order m source a b))
  compare_distro_version-order m source {a} {b} p q h =
      unfold compare_distro_version distro_order in
      rw
        (
          compare_debian_version-exact a b (IsPlain-HasEpoch p) (IsPlain-HasEpoch q),
          compare_rpm_version-exact m p q h,
        )
        (switch-some normalize_compare (one_of source debian_sources) (one_of source rpm_sources)
          (one_of source alpine_sources) (exact (split_debian_version a) (split_debian_version b))
          (rpm_exact m a b) (compare_natural_version a b))

  -- Comparing plain versions the other way round gives the opposite sign, whatever the source, and
  -- both comparisons end.
  pub compare_distro_version_flip :
      (source a b : Text)
      → IsPlain a
      → IsPlain b
      → (c : ℤ) × (compare_distro_version u source a b ≡ some c)
        × (compare_distro_version u source b a ≡ some (neg c))
  compare_distro_version_flip source a b p q =
      let m = length a + length b in
      (
        normalize_compare (distro_order m source a b),
        compare_distro_version-order m source p q (omega arith),
        compare_distro_version-order m source q p (omega arith)
            ∙ ap (λ z. some (normalize_compare z)) ((distro_order-IsOrder m source).flip a b)
            ∙ ap some (normalize_compare-neg (distro_order m source a b)),
      )

  -- The comparisons of three plain versions end, and are transitive: if `a` is at most `b`, and
  -- `b` at most `c`, then `a` is at most `c`, and ties with it only if all three tie.
  pub compare_distro_version-Triangle :
      (source a b c : Text)
      → IsPlain a
      → IsPlain b
      → IsPlain c
      → (x y z : ℤ) × (compare_distro_version u source a b ≡ some x)
        × (compare_distro_version u source b c ≡ some y)
        × (compare_distro_version u source a c ≡ some z)
        × Triangle x y z
  compare_distro_version-Triangle source a b c p q r =
      let m = length a + length b + length c in
      (
        normalize_compare (distro_order m source a b),
        normalize_compare (distro_order m source b c),
        normalize_compare (distro_order m source a c),
        compare_distro_version-order m source p q (omega arith),
        compare_distro_version-order m source q r (omega arith),
        compare_distro_version-order m source p r (omega arith),
        normalize_compare-Triangle _ _ _ ((distro_order-IsOrder m source).trans a b c),
      )
