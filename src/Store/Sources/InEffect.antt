-- ===== src/Store/Sources/InEffect.antt =====
-- A setting that is saved is the one that the configuration then has.
use ct_cve.Base.{
  ℕ, zero, suc, pos, ◌*◌, leb, Text, ◌==◌, eq_refl, ◌≡◌, refl, sym, ap, ◌∙◌, subst, arith, ◌<◌,
  length, is_empty, Bool, true, false, any, All, All-append, if◌then◌else◌, some, none, List, [],
  ◌∷◌, map, Bool-cases, inl, inr, neither,
}
use ct_cve.Base.Sort.{insert, sort_by, any-sort_by}
use ct_cve.Config.{
  SourceSettings, SourceConfig, NvdSourceConfig, nvd_id, cisa_kev_id, set_nvd, is_positive,
  apply_setting, apply_all,
}
use ct_cve.Store.Tables.{upsert}
use ct_cve.Store.Upsert.{upsert_has_key}
use ct_cve.Store.Sources.{
  SourceTables, SourceRow, text_less, setting_of, list_feed_source_config, row_of, setting_columns,
  delay_ms, nanoseconds_of, upsert_feed_source_config,
}

module _ {A : Type 0} (P : A → Type 0) where
  module _ (same : A → Bool) (new : A) (p : P new)
      (other : (row : A) → same row ≡ false → P row) where
    replaced : (row : A) (b : Bool) → same row ≡ b → P (if b then new else row)
    replaced row true e = p
    replaced row false e = other row e

    All-replaced : (rows : List A) → All P (map (λ row. if same row then new else row) rows)
    All-replaced [] = tt
    All-replaced (row ∷ rows) = (replaced row (same row) refl, All-replaced rows)

    All-others : (rows : List A) → any same rows ≡ false → All P rows
    All-others [] h = tt
    All-others (row ∷ rows) h =
        let (a, b) = neither (same row) (any same rows) h in (other row a, All-others rows b)

    All-upsert-new : (rows : List A) → All P (upsert same (λ _. new) new rows)
    unfolding upsert
    All-upsert-new rows = elim (Bool-cases (any same rows)) [
      | inl e ↦ rw e (All-replaced rows)
      | inr e ↦ rw e (All-append P rows (new ∷ []) (All-others rows e) (p, tt))
    ]

  module _ (less : A → A → Bool) where
    if-All : (b : Bool) (xs ys : List A) → All P xs → All P ys → All P (if b then xs else ys)
    if-All true xs ys p q = p
    if-All false xs ys p q = q

    All-insert : (x : A) (ys : List A) → P x → All P ys → All P (insert less x ys)
    unfolding insert
    All-insert x [] p h = (p, tt)
    All-insert x (y ∷ ys) p (q, h) =
        if-All (less y x) (y ∷ insert less x ys) (x ∷ y ∷ ys) (q, All-insert x ys p h) (p, (q, h))

    All-sort_by : (xs : List A) → All P xs → All P (sort_by less xs)
    unfolding sort_by
    All-sort_by [] h = tt
    All-sort_by (x ∷ xs) (p, h) = All-insert x (sort_by less xs) p (All-sort_by xs h)

abbrev by_source : SourceRow → SourceRow → Bool
by_source a b = text_less a.source b.source

never : (b : Bool) → b ≡ true → b ≡ false → ⊥
never b p q = ground arith

differ : (b : Bool) (row new : SourceRow) → b ≡ true → b ≡ false → row ≡ new
differ b row new p q = ground arith

abbrev is_nvd : SourceRow → Bool
is_nvd row = row.source == nvd_id

module _ (new : SourceRow) where
  -- A row of NVD is the given one.
  abbrev IsNew : SourceRow → Type 0
  IsNew row = is_nvd row ≡ true → row ≡ new

  -- The configuration of NVD is that of the row, over some other.
  abbrev pub HasRow : SourceConfig → Type 0
  HasRow s = (old : NvdSourceConfig) × (s.nvd ≡ set_nvd (setting_of new) old)

  apply-HasRow :
      (row : SourceRow) (s : SourceConfig) (b : Bool)
      → is_nvd row ≡ b
      → IsNew row
      → (b ≡ false → HasRow s)
      → HasRow (apply_setting (setting_of row) s)
  unfolding apply_setting setting_of
  apply-HasRow row s true e k h = rw e (s.nvd, ap (λ r. set_nvd (setting_of r) s.nvd) (k e))
  apply-HasRow row s false e k h = elim (Bool-cases (row.source == cisa_kev_id)) [
    | inl f ↦ rw (e, f) (h refl)
    | inr f ↦ rw (e, f) (h refl)
  ]

  apply_all-HasRow :
      (rows : List SourceRow) (s : SourceConfig)
      → All IsNew rows
      → (any is_nvd rows ≡ false → HasRow s)
      → HasRow (apply_all (map setting_of rows) s)
  unfolding apply_all
  apply_all-HasRow [] s k h = h refl
  apply_all-HasRow (row ∷ rows) s (k, ks) h =
      apply_all-HasRow rows (apply_setting (setting_of row) s) ks
        (λ e. apply-HasRow row s (is_nvd row) refl k (λ f. h (ground arith)))

abbrev same_source : SourceSettings → SourceRow → Bool
same_source setting row = row.source == setting.source

abbrev saved_rows : SourceSettings → SourceTables → List SourceRow
saved_rows setting t =
    upsert (same_source setting) (λ _. row_of setting) (row_of setting) t.settings

saved_rows-IsNew :
    (setting : SourceSettings) (t : SourceTables)
    → setting.source ≡ nvd_id
    → All (IsNew (row_of setting)) (saved_rows setting t)
unfolding row_of
saved_rows-IsNew setting t e =
    All-upsert-new (IsNew (row_of setting)) (same_source setting) (row_of setting) (λ _. refl)
      (λ row f.
        let k = subst (λ (x : Text). (row.source == x) ≡ false) e f in
        λ q. differ (row.source == nvd_id) row (row_of setting) q k)
      t.settings

saved_rows_nvd :
    (setting : SourceSettings) (t : SourceTables)
    → setting.source ≡ nvd_id
    → any is_nvd (saved_rows setting t) ≡ true
unfolding row_of
saved_rows_nvd setting t e =
    subst (λ (x : Text). any (λ (row : SourceRow). row.source == x) (saved_rows setting t) ≡ true) e
      (upsert_has_key (same_source setting) (λ _. row_of setting) (row_of setting) t.settings
        (eq_refl setting.source) (λ row _. eq_refl setting.source))

saved-HasRow :
    (setting : SourceSettings) (t : SourceTables) (s : SourceConfig)
    → setting.source ≡ nvd_id
    → HasRow
        (row_of setting)
        (apply_all (map setting_of (sort_by by_source (saved_rows setting t))) s)
saved-HasRow setting t s e =
    let rows = saved_rows setting t in
    apply_all-HasRow (row_of setting) (sort_by by_source rows) s
      (All-sort_by (IsNew (row_of setting)) by_source rows (saved_rows-IsNew setting t e))
      (λ f.
        let k = any-sort_by by_source is_nvd rows in
        let l = saved_rows_nvd setting t e in elim (never (any is_nvd rows) l (sym k ∙ f)) [ ])

-- The switch, the URL and the key are those of the setting, and so is its delay in whole
-- milliseconds, if it has one.
abbrev pub IsInEffect : SourceSettings → SourceConfig → Type 0
IsInEffect setting s =
    (s.nvd.enabled ≡ setting.enabled)
    × (s.nvd.base_url ≡ setting.base_url)
    × (s.nvd.api_key ≡ setting.api_key)
    × ((ms : ℕ)
        → delay_ms setting.request_delay ≡ some (suc ms)
        → s.nvd.request_delay ≡ nanoseconds_of (some (suc ms)))

filled : (t : Text) → leb 1 (length t) ≡ true → is_empty t ≡ false
filled [] h = ground arith
filled (c ∷ t) h = refl

has_url :
    (setting : SourceSettings)
    → setting_columns (row_of setting) ≡ true
    → is_empty setting.base_url ≡ false
unfolding setting_columns row_of
has_url setting h = filled setting.base_url (ground arith)

above_zero : (n : ℕ) → 0 < n → is_positive (pos n) ≡ true
above_zero zero h = ground arith
above_zero (suc n) h = refl

positive_ms : (ms : ℕ) → is_positive (nanoseconds_of (some (suc ms))) ≡ true
positive_ms ms = above_zero (suc ms * 1_000_000) (omega arith)

HasRow-IsInEffect :
    (setting : SourceSettings) (s : SourceConfig)
    → setting_columns (row_of setting) ≡ true
    → HasRow (row_of setting) s
    → IsInEffect setting s
unfolding set_nvd setting_of row_of
HasRow-IsInEffect setting s c (old, e) = (
  ap (λ (x : NvdSourceConfig). x.enabled) e,
  ap (λ (x : NvdSourceConfig). x.base_url) e ∙ rw (has_url setting c),
  ap (λ (x : NvdSourceConfig). x.api_key) e,
  λ ms d. ap (λ (x : NvdSourceConfig). x.request_delay) e ∙ rw (d, positive_ms ms),
)

-- A setting of NVD that is saved without an error is in effect from then on: whatever was stored and
-- configured before, the configuration with the stored settings has the switch, the URL and the key
-- of the setting, and its delay in whole milliseconds if that is not zero.
pub upsert_feed_source_config-IsInEffect :
    (setting : SourceSettings) (t : SourceTables) (s : SourceConfig)
    → setting.source ≡ nvd_id
    → (upsert_feed_source_config setting t).0 ≡ none
    → IsInEffect setting
        (apply_all (list_feed_source_config (upsert_feed_source_config setting t).1) s)
unfolding list_feed_source_config upsert_feed_source_config
upsert_feed_source_config-IsInEffect setting t s e =
    elim (Bool-cases (setting_columns (row_of setting))) [
      | inl c ↦ rw c (λ h.
          HasRow-IsInEffect setting
            (apply_all (map setting_of (sort_by by_source (saved_rows setting t))) s) c
            (saved-HasRow setting t s e))
      | inr c ↦ rw c (λ h. ground arith)
    ]
