-- ===== src/Vuln/Rpm/Order.antt =====
-- The rounds of `rpmvercmp`, taken without the question of whether they end, compare by a total
-- order up to ties.
use ct_cve.Base.{
  ℕ, Text, ℤ, sub_ℕ, text_compare, length, is_digit, true, false, if◌then◌else◌, ◌≡◌, refl, arith,
  [], ◌∷◌,
}
use ct_cve.Base.Order.{
  IsOrder, first_nonzero, sub_ℕ-IsOrder, same-IsOrder, then-IsOrder, on-IsOrder,
}
use ct_cve.Base.Utf8.{Unicode}
use ct_cve.Vuln.Numeric.{compare_numeric_strings}
use ct_cve.Vuln.Numeric.Order.{text_compare-IsOrder, compare_numeric_strings-IsOrder}
use ct_cve.Vuln.Natural.Loop.{by_emptiness}
use ct_cve.Vuln.Natural.Order.{by_emptiness-IsOrder}
use ct_cve.Vuln.Rpm.{take_rpm_part, compare_parts, trim}

module _ (u : Unicode) where
  -- What a round finds on trimmed texts.
  unfoldable pub trimmed_round : Text → Text → ℤ
  trimmed_round [] b = sub_ℕ 0 (length b)
  trimmed_round (x ∷ xs) [] = sub_ℕ (length (x ∷ xs)) 0
  trimmed_round (x ∷ xs) (y ∷ ys) = compare_parts u x xs y ys

  unfoldable pub compare_round : Text → Text → ℤ
  unfolding trimmed_round
  compare_round a b = trimmed_round (trim u a) (trim u b)

-- A number is above what begins with a letter or "~".
rank : Text → ℕ
rank [] = 0
rank (c ∷ _) = if is_digit c then 1 else 0

module _ (u : Unicode) where
  abbrev by_kind : Text → Text → ℤ
  by_kind a b = first_nonzero (sub_ℕ (rank a) (rank b)) (
      first_nonzero (compare_numeric_strings (take_rpm_part u a true) (take_rpm_part u b true))
        (text_compare (take_rpm_part u a false) (take_rpm_part u b false)))

  by_kind-IsOrder : IsOrder by_kind
  by_kind-IsOrder = then-IsOrder (on-IsOrder rank sub_ℕ-IsOrder) (
      then-IsOrder (on-IsOrder (λ s. take_rpm_part u s true) compare_numeric_strings-IsOrder)
        (on-IsOrder (λ s. take_rpm_part u s false) text_compare-IsOrder))

  compare_parts-by_kind :
      (x : ℕ) (xs : Text) (y : ℕ) (ys : Text)
      → compare_parts u x xs y ys ≡ by_kind (x ∷ xs) (y ∷ ys)
  unfolding compare_parts rank
  compare_parts-by_kind x xs y ys = ground arith

  trimmed_round-by_kind :
      (a b : Text) → trimmed_round u a b ≡ first_nonzero (by_emptiness a b) (by_kind a b)
  unfolding trimmed_round
  trimmed_round-by_kind [] [] = unfold compare_parts rank in refl
  trimmed_round-by_kind [] (_ ∷ _) = ground arith
  trimmed_round-by_kind (_ ∷ _) [] = ground arith
  trimmed_round-by_kind (x ∷ xs) (y ∷ ys) = compare_parts-by_kind x xs y ys

  pub compare_round-IsOrder : IsOrder (compare_round u)
  compare_round-IsOrder =
      unfold compare_round in
      on-IsOrder (trim u)
        (same-IsOrder trimmed_round-by_kind (then-IsOrder by_emptiness-IsOrder by_kind-IsOrder))
