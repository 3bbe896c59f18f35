-- ===== src/Feed/Nvd/Pages.antt =====
-- The pages of the database.
use ct_cve.Base.{
  ℕ, zero, suc, ◌+◌, ◌*◌, ◌≤◌, ◌<◌, ltb, Text, ◌≡◌, ◌≢◌, refl, sym, ap, ◌∙◌, arith, Bool, true,
  false, Option, some, none, List, [], ◌∷◌, ◌++◌, append_assoc, length, take, drop,
  take-append-drop, length-drop,
}
use ct_cve.CtOps.Time.{Time}
use ct_cve.Feed.Types.{CveRecord}
use ct_cve.Feed.Nvd.{
  NvdItem, NvdServer, NvdOutcome, fetched, out_of_fuel, nvd_results_per_page, nvd_records,
  parse_nvd_api, fetch_page, after_page, fetch_from, fetch_nvd,
}

nvd_records-append :
    (parse : Text → Option Time) (xs ys : List NvdItem)
    → nvd_records parse (xs ++ ys) ≡ nvd_records parse xs ++ nvd_records parse ys
unfolding nvd_records
nvd_records-append parse [] ys = refl
nvd_records-append parse (x ∷ xs) ys = ground (arith, nvd_records-append parse xs ys)

-- A server that holds a list of items, and answers each start index with the items from there on,
-- as many as fit on a page, and with the number of all.
abbrev pub serves : List NvdItem → NvdServer
serves items = record {
  respond = λ start. some (
    200,
    some (record {
      total_results = length items;
      vulnerabilities = take nvd_results_per_page (drop start items);
    }),
  );
  cancelled = λ _. false;
}

drop-nil : (n : ℕ) → ◌≡◌ {A = List NvdItem} (drop n []) []
drop-nil zero = refl
drop-nil (suc n) = refl

drop-drop : (a b : ℕ) (xs : List NvdItem) → drop b (drop a xs) ≡ drop (a + b) xs
drop-drop zero b xs = let e : b ≡ zero + b = omega arith in ap (λ k. drop k xs) e
drop-drop (suc a) b [] = drop-nil b ∙ sym (drop-nil (suc a + b))
drop-drop (suc a) b (x ∷ xs) =
    let e : suc (a + b) ≡ suc a + b = omega arith in drop-drop a b xs ∙ ap (λ k. drop k (x ∷ xs)) e

take_all : (n : ℕ) (xs : List NvdItem) → length xs ≤ n → take n xs ≡ xs
take_all zero [] h = refl
take_all (suc n) [] h = refl
take_all zero (x ∷ xs) h = ground arith
take_all (suc n) (x ∷ xs) h = ap (λ r. x ∷ r) (take_all n xs (omega arith))

fuel_left : (n start page total : ℕ) → total < start + suc n * page → start + page < total → 0 < n
fuel_left zero start page total h k = omega arith
fuel_left (suc n) start page total h k = omega arith

module _ (parse : Text → Option Time) (items : List NvdItem) where
  abbrev page_at : ℕ → List NvdItem
  page_at start = take nvd_results_per_page (drop start items)

  page-rest :
      (start : ℕ)
      → nvd_records parse (page_at start)
          ++ nvd_records parse (drop (start + nvd_results_per_page) items)
        ≡ nvd_records parse (drop start items)
  page-rest start =
      ap (λ d. nvd_records parse (page_at start) ++ nvd_records parse d)
        (sym (drop-drop start nvd_results_per_page items))
      ∙ (sym (
            nvd_records-append parse (page_at start) (drop nvd_results_per_page (drop start items)))
          ∙ ap (nvd_records parse) (take-append-drop nvd_results_per_page (drop start items)))

  fetch_page-serves :
      (start : ℕ)
      → fetch_page parse ((serves items).respond start)
        ≡ some (nvd_records parse (page_at start), length items)
  unfolding fetch_page parse_nvd_api
  fetch_page-serves start = refl

  last_page :
      (start : ℕ)
      → ltb (start + nvd_results_per_page) (length items) ≡ false
      → nvd_records parse (page_at start) ≡ nvd_records parse (drop start items)
  last_page start e =
      let few : length items ≤ start + nvd_results_per_page = ground arith in
      ap (nvd_records parse) (
        take_all nvd_results_per_page (drop start items)
          (omega (arith, few, length-drop start items)))

  after_page-serves :
      (next : List CveRecord → NvdOutcome) (start : ℕ) (records : List CveRecord) (more : Bool)
      → more ≡ ltb (start + nvd_results_per_page) (length items)
      → (more ≡ true
          → (rs : List CveRecord)
          → next rs ≡ fetched (rs ++ nvd_records parse (drop (start + nvd_results_per_page) items)))
      → after_page parse
          (serves items)
          next
          start
          records
          (some (nvd_records parse (page_at start), length items))
        ≡ fetched (records ++ nvd_records parse (drop start items))
  unfolding after_page
  after_page-serves next start records true e h = rw (sym e) (
      h refl (records ++ nvd_records parse (page_at start))
      ∙ ap fetched (
          append_assoc records (nvd_records parse (page_at start)) _
          ∙ ap (λ r. records ++ r) (page-rest start)))
  after_page-serves next start records false e h =
      rw (sym e) (ap (λ r. fetched (records ++ r)) (last_page start (sym e)))

  fetch_from-serves :
      (n start : ℕ) (records : List CveRecord)
      → length items < start + n * nvd_results_per_page
      → 0 < n
      → fetch_from parse (serves items) n start records
        ≡ fetched (records ++ nvd_records parse (drop start items))
  unfolding fetch_from
  fetch_from-serves zero start records h k = ground arith
  fetch_from-serves (suc n) start records h k = rw (fetch_page-serves start) (
      after_page-serves (fetch_from parse (serves items) n (start + nvd_results_per_page)) start
        records (ltb (start + nvd_results_per_page) (length items)) refl
        (λ more rs.
          fetch_from-serves n (start + nvd_results_per_page) rs (omega arith)
            (fuel_left n start nvd_results_per_page (length items) h (ground arith))))

  -- From a server that holds a list of items, all of their records are fetched, in their order and
  -- each once; the fuel must cover the pages.
  pub fetch_nvd-serves :
      (n : ℕ)
      → 0 < n
      → length items < n * nvd_results_per_page
      → fetch_nvd parse (serves items) n ≡ fetched (nvd_records parse items)
  unfolding fetch_nvd
  fetch_nvd-serves n k h = fetch_from-serves n 0 [] (omega arith) k

module _ (parse : Text → Option Time) (server : NvdServer) (bound : ℕ) where
  -- No page reports more items in all than the bound.
  abbrev pub IsBounded : Type 0
  IsBounded =
      (start : ℕ) (page : List CveRecord) (total : ℕ)
      → fetch_page parse (server.respond start) ≡ some (page, total)
      → total ≤ bound

  after_page-ends :
      (next : List CveRecord → NvdOutcome) (start : ℕ) (records : List CveRecord)
      (r : Option (List CveRecord × ℕ))
      → ((page : List CveRecord) (total : ℕ)
          → r ≡ some (page, total)
          → start + nvd_results_per_page < total
          → next (records ++ page) ≢ out_of_fuel)
      → after_page parse server next start records r ≢ out_of_fuel
  unfolding after_page
  after_page-ends next start records none h e = ground arith
  after_page-ends next start records (some (page, total)) h e =
      let later = h page total refl in ground arith

  fetch_from-ends :
      (n start : ℕ) (records : List CveRecord)
      → bound < start + n * nvd_results_per_page
      → 0 < n
      → IsBounded
      → fetch_from parse server n start records ≢ out_of_fuel
  unfolding fetch_from
  fetch_from-ends zero start records h k b = ground arith
  fetch_from-ends (suc n) start records h k b =
      after_page-ends (fetch_from parse server n (start + nvd_results_per_page)) start records
        (fetch_page parse (server.respond start))
        (λ page total e more.
          let below = b start page total e in
          fetch_from-ends n (start + nvd_results_per_page) (records ++ page) (omega arith)
            (fuel_left n start nvd_results_per_page bound h (omega arith)) b)

  -- The loop over the pages ends, whatever the server answers and with every error, as long as the
  -- totals that it reports have a bound.
  pub fetch_nvd-ends :
      (n : ℕ)
      → 0 < n
      → bound < n * nvd_results_per_page
      → IsBounded
      → fetch_nvd parse server n ≢ out_of_fuel
  unfolding fetch_nvd
  fetch_nvd-ends n k h b = fetch_from-ends n 0 [] (omega arith) k b
