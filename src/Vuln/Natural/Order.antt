-- ===== src/Vuln/Natural/Order.antt =====
-- The comparison of natural and Alpine versions is a total order up to ties.
use ct_cve.Base.{
  ℕ, Text, ℤ, neg, text_compare, leb, ltb, ◌≡◌, refl, arith, true, false, [], ◌∷◌, if◌then◌else◌,
}
use ct_cve.Base.Order.{IsOrder, Triangle, first_nonzero, same-IsOrder, then-IsOrder, on-IsOrder}
use ct_cve.Vuln.Numeric.{compare_numeric_strings}
use ct_cve.Vuln.Numeric.Order.{text_compare-IsOrder, compare_numeric_strings-IsOrder}
use ct_cve.Vuln.Natural.{take_natural_part, compare_parts, compare_natural_version}
use ct_cve.Vuln.Natural.Loop.{by_emptiness, compare_round, compare_natural_version-IsOrder_of}

-- Whether a text begins with a byte below the digits, a digit, or a byte above them.
rank : Text → Text
rank [] = 0 ∷ []
rank (c ∷ _) = (if ltb c b'0' then 0 else if leb c b'9' then 1 else 2) ∷ []

abbrev by_kind : Text → Text → ℤ
by_kind a b = first_nonzero (text_compare (rank a) (rank b)) (
    first_nonzero (compare_numeric_strings (take_natural_part a true) (take_natural_part b true))
      (text_compare (take_natural_part a false) (take_natural_part b false)))

by_kind-IsOrder : IsOrder by_kind
by_kind-IsOrder = then-IsOrder (on-IsOrder rank text_compare-IsOrder) (
    then-IsOrder (on-IsOrder (λ s. take_natural_part s true) compare_numeric_strings-IsOrder)
      (on-IsOrder (λ s. take_natural_part s false) text_compare-IsOrder))

-- Parts of different kinds differ in their first byte, so that the kinds decide.
compare_parts-by_kind :
    (x : ℕ) (xs : Text) (y : ℕ) (ys : Text)
    → compare_parts (x ∷ xs) (y ∷ ys) ≡ by_kind (x ∷ xs) (y ∷ ys)
unfolding compare_parts rank
compare_parts-by_kind x xs y ys = ground arith

by_emptiness_flip : (a b : Text) → by_emptiness b a ≡ neg (by_emptiness a b)
by_emptiness_flip [] [] = refl
by_emptiness_flip [] (_ ∷ _) = ground arith
by_emptiness_flip (_ ∷ _) [] = ground arith
by_emptiness_flip (_ ∷ _) (_ ∷ _) = refl

by_emptiness-Triangle :
    (a b c : Text) → Triangle (by_emptiness a b) (by_emptiness b c) (by_emptiness a c)
by_emptiness-Triangle [] [] [] h k = ground arith
by_emptiness-Triangle [] [] (_ ∷ _) h k = ground arith
by_emptiness-Triangle [] (_ ∷ _) [] h k = ground arith
by_emptiness-Triangle [] (_ ∷ _) (_ ∷ _) h k = ground arith
by_emptiness-Triangle (_ ∷ _) [] [] h k = ground arith
by_emptiness-Triangle (_ ∷ _) [] (_ ∷ _) h k = ground arith
by_emptiness-Triangle (_ ∷ _) (_ ∷ _) [] h k = ground arith
by_emptiness-Triangle (_ ∷ _) (_ ∷ _) (_ ∷ _) h k = ground arith

pub by_emptiness-IsOrder : IsOrder by_emptiness
by_emptiness-IsOrder = record { flip = by_emptiness_flip; trans = by_emptiness-Triangle }

compare_round-by_kind :
    (a b : Text) → compare_round a b ≡ first_nonzero (by_emptiness a b) (by_kind a b)
compare_round-by_kind [] [] = unfold compare_parts rank in refl
compare_round-by_kind [] (_ ∷ _) = ground arith
compare_round-by_kind (_ ∷ _) [] = ground arith
compare_round-by_kind (x ∷ xs) (y ∷ ys) = compare_parts-by_kind x xs y ys

pub compare_natural_version-IsOrder : IsOrder compare_natural_version
compare_natural_version-IsOrder =
    compare_natural_version-IsOrder_of
      (same-IsOrder compare_round-by_kind (then-IsOrder by_emptiness-IsOrder by_kind-IsOrder))
