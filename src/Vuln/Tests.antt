-- ===== src/Vuln/Tests.antt =====
-- Runs of the comparisons and of the matching, and the theorems at concrete versions.
use ct_cve.Base.{
  codes, ℤ, pos, negsuc, neg, is_negative, is_zero, is_positive, ◌≡◌, ◌↔◌, ◌<◌, refl, arith, true,
  false, some, none, [], ◌∷◌,
}
use ct_cve.Base.Order.{Triangle}
use ct_cve.Base.Utf8.{Unicode}
use ct_cve.Vuln.Numeric.{compare_numeric_strings}
use ct_cve.Vuln.Numeric.Value.{value, compare_numeric_strings-value}
use ct_cve.Vuln.Debian.{split_epoch, split_debian_version, compare_debian_version}
use ct_cve.Vuln.Debian.Epoch.{overflow-compare_debian_version}
use ct_cve.Vuln.Rpm.{rpm_rounds, rpmvercmp}
use ct_cve.Vuln.Rpm.Loop.{rpm_rounds-rpmvercmp}
use ct_cve.Vuln.Rpm.Endless.{rpm_rounds-endless}
use ct_cve.Vuln.Version.{compare_distro_version}
use ct_cve.Vuln.Version.Order.{
  IsPlain, compare_distro_version_flip, compare_distro_version-Triangle,
}
use ct_cve.Vuln.Types.{InventoryPackage, AffectedPackage}
use ct_cve.Vuln.Matcher.{Reason, match_package, matching, below_fixed_version}
use ct_cve.Vuln.Matcher.Laws.{IsAffected, at_version, match_package_iff, match_package-older}

-- The Hebrew letters U+05D0 to U+05EA stand for the letters above Latin-1.
abbrev tables : Unicode
tables = record {
  wide_digit = λ c. false;
  wide_letter = λ c. elim (Prim.Native.Nat.compare c 0x5d0) [
    | Prim.Native.Nat.Ordering.eq ↦ true
    | _ ↦ false
  ];
}

debian_runs :
    (compare_distro_version tables
        (codes "dpkg")
        (codes "1.1.1f-1ubuntu2.18")
        (codes "1.1.1f-1ubuntu2.19")
      ≡ some (negsuc 0))
    × (compare_distro_version tables (codes "dpkg") (codes "2:1.0-1") (codes "1:9.9-9")
        ≡ some (pos 1))
    × (compare_distro_version tables (codes "dpkg") (codes "1.0~rc1-1") (codes "1.0-1")
        ≡ some (negsuc 0))
    × (compare_distro_version tables (codes "dpkg") (codes "1.0-1ubuntu1") (codes "1.0-1ubuntu1")
        ≡ some (pos 0))
unfolding compare_distro_version
debian_runs = (refl, refl, refl, refl)

rpm_runs :
    (compare_distro_version tables (codes "rpm") (codes "1:3.2.2-8.el9") (codes "1:3.2.2-9.el9")
      ≡ some (negsuc 0))
    × (compare_distro_version tables (codes "rpm") (codes "3.5.3-9.el9_7") (codes "0:3.5.3-9.el9_7")
        ≡ some (pos 0))
    × (compare_distro_version tables
          (codes "rpm")
          (codes "8.7p1-48.el9_7.alma.1")
          (codes "0:8.7p1-48.el9_7")
        ≡ some (pos 1))
    × (compare_distro_version tables (codes "rpm") (codes "1.0~rc1") (codes "1.0") ≡ some (pos 1))
unfolding compare_distro_version
rpm_runs = (refl, refl, refl, refl)

alpine_run :
    compare_distro_version tables (codes "apk") (codes "1.2.4-r3") (codes "1.2.4-r4")
    ≡ some (negsuc 0)
unfolding compare_distro_version
alpine_run = refl

IsPlain-old : IsPlain (codes "1.0~rc1-1")
IsPlain-old = record { ascii = omega arith; epoch = unfold split_epoch in refl }

IsPlain-mid : IsPlain (codes "1.0-1")
IsPlain-mid = record { ascii = omega arith; epoch = unfold split_epoch in refl }

IsPlain-new : IsPlain (codes "1:1.0-1")
IsPlain-new = record { ascii = omega arith; epoch = unfold split_epoch in refl }

compare_distro_version_flip_example :
    (c : ℤ) × (compare_distro_version tables (codes "rpm") (codes "1.0-1") (codes "1:1.0-1")
      ≡ some c)
    × (compare_distro_version tables (codes "rpm") (codes "1:1.0-1") (codes "1.0-1") ≡ some (neg c))
compare_distro_version_flip_example =
    compare_distro_version_flip tables (codes "rpm") (codes "1.0-1") (codes "1:1.0-1") IsPlain-mid
      IsPlain-new

compare_distro_version-Triangle_example :
    (x y z : ℤ) × (compare_distro_version tables (codes "dpkg") (codes "1.0~rc1-1") (codes "1.0-1")
      ≡ some x)
    × (compare_distro_version tables (codes "dpkg") (codes "1.0-1") (codes "1:1.0-1") ≡ some y)
    × (compare_distro_version tables (codes "dpkg") (codes "1.0~rc1-1") (codes "1:1.0-1") ≡ some z)
    × Triangle x y z
compare_distro_version-Triangle_example =
    compare_distro_version-Triangle tables (codes "dpkg") (codes "1.0~rc1-1") (codes "1.0-1")
      (codes "1:1.0-1") IsPlain-old IsPlain-mid IsPlain-new

compare_numeric_strings-value_example :
    ((is_negative (compare_numeric_strings (codes "007") (codes "12")) ≡ true)
      ↔ (7 < value (codes "12")))
    × ((is_zero (compare_numeric_strings (codes "007") (codes "12")) ≡ true)
        ↔ (value (codes "007") ≡ 12))
    × ((is_positive (compare_numeric_strings (codes "007") (codes "12")) ≡ true)
        ↔ (12 < value (codes "007")))
compare_numeric_strings-value_example =
    compare_numeric_strings-value (codes "007") (codes "12") (omega arith) (omega arith)

rpm_rounds-rpmvercmp_example :
    (c : ℤ) × (rpmvercmp tables (codes "1.0") (codes "1_0") ≡ some c)
    × (rpm_rounds tables 9 (codes "1.0") (codes "1_0") ≡ some c)
rpm_rounds-rpmvercmp_example =
    rpm_rounds-rpmvercmp tables 9 (codes "1.0") (codes "1_0") (omega arith) (omega arith)
      (omega arith)

rpm_rounds-endless_example : rpm_rounds tables 50 (0xd7 ∷ 0x90 ∷ []) (0xd7 ∷ 0x90 ∷ []) ≡ none
rpm_rounds-endless_example =
    rpm_rounds-endless tables 0x90 0x90 (omega arith) (omega arith) (omega arith) (omega arith) refl
      refl [] [] 50

overflow-compare_debian_version_example :
    is_negative (compare_debian_version (codes "9223372036854775807:1.0") (codes "-1:1.0")) ≡ true
unfolding split_debian_version
overflow-compare_debian_version_example =
    overflow-compare_debian_version (codes "9223372036854775807:1.0") (codes "-1:1.0")
      9223372036854775807 0 refl refl (omega arith) (omega arith) (omega arith)

abbrev openssl : InventoryPackage
openssl = record {
  name = codes "openssl";
  version = codes "1.0-1";
  source = codes "dpkg";
  distro_id = codes "Debian";
  distro_id_like = [];
  distro_version_id = codes "12";
  distro_codename = codes "bookworm";
  source_name = [];
  source_version = [];
}

abbrev advisory : AffectedPackage
advisory = record {
  distro_id = codes "debian";
  distro_version_id = [];
  distro_codename = codes "bookworm";
  package_name = codes "openssl";
  source_package_name = [];
  fixed_version = codes "1:1.0-1";
  affected_versions = [];
}

openssl_matched : match_package tables openssl advisory ≡ some (true, below_fixed_version)
unfolding matching
openssl_matched = refl

match_package_iff_example :
    ((r : Reason) × (match_package tables openssl advisory ≡ some (true, r)))
    ↔ IsAffected tables openssl advisory
match_package_iff_example = match_package_iff tables openssl advisory

match_package-older_example :
    (s : Reason) × (match_package tables (at_version openssl (codes "1.0~rc1-1")) advisory
      ≡ some (true, s))
match_package-older_example =
    match_package-older tables openssl advisory (codes "1.0~rc1-1") (negsuc 0) below_fixed_version
      refl refl IsPlain-mid IsPlain-new IsPlain-old (cc) debian_runs.2 (omega arith) openssl_matched
