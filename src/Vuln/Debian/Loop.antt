-- ===== src/Vuln/Debian/Loop.antt =====
-- The loop of `debianPartCompare` ends: its fuel is enough.
use ct_cve.Base.{
  ℕ, zero, suc, ◌+◌, ◌-◌, ◌≤◌, ℤ, sym, Text, ◌≡◌, refl, arith, length, take_while, drop,
  length-drop, is_digit, true, false, Bool-cases, [], ◌∷◌, pos, inl, inr, ap, ◌∙◌,
}
use ct_cve.Base.Order.{first_nonzero, IsOrder}
use ct_cve.Base.Rounds.{rounds, loop_equation, loop-IsOrder}
use ct_cve.Vuln.Numeric.{take_digits, compare_numeric_strings}
use ct_cve.Vuln.Debian.{
  take_debian_non_digit, debian_lex_compare, debian_rounds, debian_part_compare,
}

-- What one round leaves of a side.
abbrev pub after_non_digits : Text → Text
after_non_digits s = drop (length (take_debian_non_digit s)) s

abbrev pub after_round : Text → Text
after_round s = drop (length (take_digits (after_non_digits s))) (after_non_digits s)

non_digits-pos :
    (c : ℕ) (s : Text) → is_digit c ≡ false → 1 ≤ length (take_debian_non_digit (c ∷ s))
unfolding take_debian_non_digit take_while
non_digits-pos c s h = ground arith

non_digits-digit : (c : ℕ) (s : Text) → is_digit c ≡ true → take_debian_non_digit (c ∷ s) ≡ []
unfolding take_debian_non_digit take_while
non_digits-digit c s h = ground arith

digits-pos : (c : ℕ) (s : Text) → is_digit c ≡ true → 1 ≤ length (take_digits (c ∷ s))
unfolding take_digits take_while
digits-pos c s h = ground arith

-- A round takes something off a side that has something.
length-after_round : (s : Text) → length (after_round s) ≤ length s - 1
length-after_round [] = unfold take_debian_non_digit take_digits take_while in omega arith
length-after_round (c ∷ s) = elim (Bool-cases (is_digit c)) [
  | inl digit ↦
      rw (non_digits-digit c s digit) (rw length-drop (omega (arith, digits-pos c s digit)))
  | inr other ↦ rw (length-drop, length-drop) (omega (arith, non_digits-pos c s other))
]

-- What one round finds.
abbrev pub compare_round : Text → Text → ℤ
compare_round a b =
    first_nonzero (debian_lex_compare (take_debian_non_digit a) (take_debian_non_digit b)) (
      compare_numeric_strings (take_digits (after_non_digits a)) (take_digits (after_non_digits b)))

compare_round-tie : (a b : Text) → length a + length b ≡ 0 → compare_round a b ≡ pos 0
compare_round-tie [] [] h = unfold debian_rounds take_while in refl
compare_round-tie [] (_ ∷ _) h = absurd (omega arith)
compare_round-tie (_ ∷ _) b h = absurd (omega arith)

debian_rounds-nil : (n : ℕ) → debian_rounds n [] [] ≡ pos 0
unfolding debian_rounds
debian_rounds-nil zero = refl
debian_rounds-nil (suc n) = refl

after_round-nil : after_round [] ≡ []
unfolding take_debian_non_digit take_digits take_while
after_round-nil = refl

-- The test for two empty sides only saves the rounds that would find nothing.
debian_rounds-suc :
    (n : ℕ) (a b : Text)
    → debian_rounds (suc n) a b
      ≡ first_nonzero (compare_round a b) (debian_rounds n (after_round a) (after_round b))
debian_rounds-suc n [] [] =
    rw (debian_rounds-nil (suc n), compare_round-tie [] [] (omega arith), after_round-nil)
      (sym (debian_rounds-nil n))
debian_rounds-suc n [] (y ∷ ys) = unfold debian_rounds in ground arith
debian_rounds-suc n (x ∷ xs) b = unfold debian_rounds in ground arith

debian_rounds-rounds :
    (n : ℕ) (a b : Text) → debian_rounds n a b ≡ rounds compare_round after_round n a b
unfolding rounds
debian_rounds-rounds zero a b = unfold debian_rounds in refl
debian_rounds-rounds (suc n) a b =
    debian_rounds-suc n a b
    ∙ ap (first_nonzero (compare_round a b))
        (debian_rounds-rounds n (after_round a) (after_round b))

debian_part_compare-rounds :
    (a b : Text)
    → debian_part_compare a b ≡ rounds compare_round after_round (length a + length b) a b
debian_part_compare-rounds a b =
    unfold debian_part_compare in debian_rounds-rounds (length a + length b) a b

-- The loop as the source writes it, with no fuel: a round on what the sides hold, and, where it
-- finds a tie, the loop on what it leaves of them.
debian_part_compare_lem :
    (a b : Text)
    → debian_part_compare a b
      ≡ first_nonzero (compare_round a b) (debian_part_compare (after_round a) (after_round b))
debian_part_compare_lem =
    loop_equation length compare_round-tie length-after_round debian_part_compare-rounds

pub debian_part_compare-IsOrder_of : IsOrder compare_round → IsOrder debian_part_compare
debian_part_compare-IsOrder_of =
    loop-IsOrder length compare_round-tie length-after_round debian_part_compare-rounds
