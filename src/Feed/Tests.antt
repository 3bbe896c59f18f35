-- ===== src/Feed/Tests.antt =====
-- The theorems on the feeds, at small documents.
use ct_cve.Base.{
  ℕ, ◌≡◌, ◌≢◌, refl, ap, some_parts, cut_last, contains, arith, Text, codes, Option, some, none,
  List, [], ◌∷◌,
}
use ct_cve.CtOps.Time.{Time}
use ct_cve.Feed.Types.{CveRecord, FetchResult}
use ct_cve.Feed.Records.{no_result}
use ct_cve.Feed.Records.Laws.{IsSound}
use ct_cve.Feed.Debian.{
  DebianTracker, debian_packages, parse_debian_tracker, parse_debian_tracker-IsSound,
}
use ct_cve.Feed.RedHat.{RedHatLibrary, RedHatRow, red_hat_rows, parse_red_hat_csaf_list}
use ct_cve.Feed.RedHat.Laws.{parse_red_hat_csaf_list-IsSound}
use ct_cve.Feed.Clean.{package_file_stem, split_red_hat_fixed_package}
use ct_cve.Feed.Clean.Laws.{
  IsSplit, split_red_hat_fixed_package_joined, split_red_hat_fixed_package-IsSplit,
}
use ct_cve.Feed.Nvd.{
  NvdItem, fetched, out_of_fuel, nvd_records, nvd_results_per_page, fetch_nvd, fetch_page,
  parse_nvd_api,
}
use ct_cve.Feed.Nvd.Pages.{serves, IsBounded, fetch_nvd-serves, fetch_nvd-ends}

abbrev tracker : DebianTracker
tracker =
    (
      codes "openssl",
      (
        codes "CVE-2024-1",
        record {
          description = codes "overflow";
          releases =
              (
                codes "bookworm",
                record {
                  status = codes "resolved";
                  fixed_version = codes "3.0.1";
                  urgency = codes "high";
                },
              )
              ∷ [];
        },
      )
          ∷ [],
    )
    ∷ []

abbrev debian_result : FetchResult
debian_result = debian_packages tracker no_result

parse_debian_tracker-IsSound_example : IsSound debian_result
unfolding parse_debian_tracker
parse_debian_tracker-IsSound_example = parse_debian_tracker-IsSound tracker debian_result refl

abbrev red_hat : RedHatLibrary
red_hat = record { parse_rfc3339 = λ _. none; encode_metadata = λ _. codes "{}" }

abbrev rows : List RedHatRow
rows =
    record {
      rhsa = codes "RHSA-2024:1";
      severity = codes "important";
      released_on = [];
      cves = codes "CVE-2024-3" ∷ codes "CVE-2024-4" ∷ [];
      released_packages = codes "bash-5.1.8-6.el9_1.x86_64" ∷ [];
      resource_url = [];
    }
    ∷ []

abbrev red_hat_result : FetchResult
red_hat_result = red_hat_rows red_hat rows no_result

parse_red_hat_csaf_list-IsSound_example : IsSound red_hat_result
unfolding parse_red_hat_csaf_list
parse_red_hat_csaf_list-IsSound_example =
    parse_red_hat_csaf_list-IsSound red_hat rows red_hat_result refl

bash_split :
    split_red_hat_fixed_package (codes "bash-5.1.8-6.el9_1.x86_64.rpm")
    ≡ some (codes "bash", codes "5.1.8-6.el9_1")
unfolding package_file_stem cut_last contains split_red_hat_fixed_package
bash_split = refl

split_red_hat_fixed_package_joined_example :
    split_red_hat_fixed_package (codes "bash-5.1.8-6.el9_1.x86_64.rpm")
    ≡ some (codes "bash", codes "5.1.8-6.el9_1")
unfolding package_file_stem cut_last contains
split_red_hat_fixed_package_joined_example =
    split_red_hat_fixed_package_joined (codes "bash-5.1.8-6.el9_1.x86_64.rpm") (codes "bash")
      (codes "5.1.8") (codes "6.el9_1") refl (refl, (refl, (refl, (refl, tt))))
      (refl, (refl, (refl, (refl, (refl, tt))))) refl refl refl

split_red_hat_fixed_package-IsSplit_example :
    IsSplit
      (package_file_stem (codes "bash-5.1.8-6.el9_1.x86_64.rpm"))
      (codes "bash")
      (codes "5.1.8-6.el9_1")
split_red_hat_fixed_package-IsSplit_example =
    split_red_hat_fixed_package-IsSplit (codes "bash-5.1.8-6.el9_1.x86_64.rpm") (codes "bash")
      (codes "5.1.8-6.el9_1") bash_split

abbrev parse_nothing : Text → Option Time
parse_nothing _ = none

abbrev items : List NvdItem
items =
    record {
      id = codes "CVE-2024-5";
      published = [];
      last_modified = [];
      vuln_status = codes "Analyzed";
      descriptions = [];
      metrics = [];
    }
    ∷ []

fetch_nvd-serves_example :
    fetch_nvd parse_nothing (serves items) 1 ≡ fetched (nvd_records parse_nothing items)
unfolding nvd_results_per_page
fetch_nvd-serves_example = fetch_nvd-serves parse_nothing items 1 (omega arith) (omega arith)

bounded : IsBounded parse_nothing (serves items) 1
unfolding fetch_page parse_nvd_api
bounded start page total h =
    let e = ap (λ (x : List CveRecord × ℕ). x.1) (some_parts h) in omega (arith, e)

fetch_nvd-ends_example : fetch_nvd parse_nothing (serves items) 1 ≢ out_of_fuel
unfolding nvd_results_per_page
fetch_nvd-ends_example =
    fetch_nvd-ends parse_nothing (serves items) 1 1 (omega arith) (omega arith) bounded
