-- ===== src/Vuln/Numeric/Order.antt =====
-- `strings.Compare` and `compareNumericStrings` are total orders up to ties.
use ct_cve.Base.{Text, neg, ◌≡◌, refl, arith, text_compare, length, sub_ℕ, [], ◌∷◌}
use ct_cve.Base.Order.{
  IsOrder, Triangle, first_nonzero, sub_ℕ-IsOrder, same-IsOrder, then-IsOrder, on-IsOrder,
}
use ct_cve.Vuln.Numeric.{compare_numeric_strings, without_zeros}

text_compare_flip : (a b : Text) → text_compare b a ≡ neg (text_compare a b)
unfolding text_compare
text_compare_flip [] [] = refl
text_compare_flip [] (_ ∷ _) = refl
text_compare_flip (_ ∷ _) [] = refl
text_compare_flip (x ∷ xs) (y ∷ ys) = ground (arith, text_compare_flip xs ys)

text_compare-Triangle :
    (a b c : Text) → Triangle (text_compare a b) (text_compare b c) (text_compare a c)
unfolding text_compare
text_compare-Triangle [] [] [] h k = ground arith
text_compare-Triangle [] [] (_ ∷ _) h k = ground arith
text_compare-Triangle [] (_ ∷ _) [] h k = ground arith
text_compare-Triangle [] (_ ∷ _) (_ ∷ _) h k = ground arith
text_compare-Triangle (_ ∷ _) [] c h k = ground arith
text_compare-Triangle (_ ∷ _) (_ ∷ _) [] h k = ground arith
text_compare-Triangle (x ∷ xs) (y ∷ ys) (z ∷ zs) h k =
    ground (arith, text_compare-Triangle xs ys zs)

pub text_compare-IsOrder : IsOrder text_compare
text_compare-IsOrder = record { flip = text_compare_flip; trans = text_compare-Triangle }

by_length :
    (a b : Text)
    → compare_numeric_strings a b
      ≡ first_nonzero
          (sub_ℕ (length (without_zeros a)) (length (without_zeros b)))
          (text_compare (without_zeros a) (without_zeros b))
unfolding compare_numeric_strings
by_length a b = ground arith

pub compare_numeric_strings-IsOrder : IsOrder compare_numeric_strings
compare_numeric_strings-IsOrder = same-IsOrder by_length (
    then-IsOrder (on-IsOrder (λ s. length (without_zeros s)) sub_ℕ-IsOrder)
      (on-IsOrder without_zeros text_compare-IsOrder))
