-- ===== src/Vuln/Debian/Order.antt =====
-- The comparison of Debian versions is a total order up to ties.
use ct_cve.Base.{
  ℕ, zero, suc, ◌+◌, ◌-◌, ◌≤◌, Text, pos, ◌-ℤ◌, ◌≡◌, refl, ap, ◌∙◌, arith, length, [], ◌∷◌,
}
use ct_cve.Base.Order.{IsOrder, first_nonzero, -ℤ-IsOrder, then-IsOrder, on-IsOrder}
use ct_cve.Base.Rounds.{rounds, loop-IsOrder}
use ct_cve.Vuln.Numeric.{take_digits}
use ct_cve.Vuln.Numeric.Order.{compare_numeric_strings-IsOrder}
use ct_cve.Vuln.Debian.{
  take_debian_non_digit, debian_order_char, debian_lex_compare, debian_part_compare,
}
use ct_cve.Vuln.Debian.Loop.{after_non_digits, compare_round, debian_part_compare-IsOrder_of}

abbrev tail : Text → Text
tail [] = []
tail (_ ∷ s) = s

debian_lex_compare_lem :
    (a b : Text)
    → debian_lex_compare a b
      ≡ first_nonzero
          (debian_order_char a -ℤ debian_order_char b)
          (debian_lex_compare (tail a) (tail b))
unfolding debian_lex_compare
debian_lex_compare_lem [] [] = refl
debian_lex_compare_lem [] (_ ∷ _) = refl
debian_lex_compare_lem (_ ∷ _) [] = refl
debian_lex_compare_lem (_ ∷ _) (_ ∷ _) = refl

char-IsOrder : IsOrder (λ a b. debian_order_char a -ℤ debian_order_char b)
char-IsOrder = on-IsOrder debian_order_char -ℤ-IsOrder

char-tie :
    (a b : Text) → length a + length b ≡ 0 → debian_order_char a -ℤ debian_order_char b ≡ pos 0
char-tie [] [] h = unfold debian_lex_compare in refl
char-tie [] (_ ∷ _) h = absurd (omega arith)
char-tie (_ ∷ _) b h = absurd (omega arith)

length-tail : (s : Text) → length (tail s) ≤ length s - 1
length-tail [] = omega arith
length-tail (_ ∷ _) = omega arith

debian_lex_compare-rounds :
    (n : ℕ) (a b : Text)
    → length a + length b ≤ n
    → debian_lex_compare a b ≡ rounds (λ a b. debian_order_char a -ℤ debian_order_char b) tail n a b
unfolding rounds
debian_lex_compare-rounds zero [] [] h = unfold debian_lex_compare in refl
debian_lex_compare-rounds zero [] (_ ∷ _) h = absurd (omega arith)
debian_lex_compare-rounds zero (_ ∷ _) b h = absurd (omega arith)
debian_lex_compare-rounds (suc n) a b h =
    debian_lex_compare_lem a b
    ∙ ap (first_nonzero (debian_order_char a -ℤ debian_order_char b)) (
        debian_lex_compare-rounds n (tail a) (tail b) (omega (arith, length-tail a, length-tail b)))

debian_lex_compare-IsOrder : IsOrder debian_lex_compare
debian_lex_compare-IsOrder =
    loop-IsOrder length char-tie length-tail
      (λ a b. debian_lex_compare-rounds (length a + length b) a b (omega arith)) char-IsOrder

compare_round-IsOrder : IsOrder compare_round
compare_round-IsOrder =
    then-IsOrder (on-IsOrder take_debian_non_digit debian_lex_compare-IsOrder)
      (on-IsOrder (λ s. take_digits (after_non_digits s)) compare_numeric_strings-IsOrder)

pub debian_part_compare-IsOrder : IsOrder debian_part_compare
debian_part_compare-IsOrder = debian_part_compare-IsOrder_of compare_round-IsOrder
