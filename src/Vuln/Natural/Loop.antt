-- ===== src/Vuln/Natural/Loop.antt =====
-- The loop of `compareNaturalVersion` ends: its fuel is enough.
use ct_cve.Base.{
  ℕ, zero, suc, ◌+◌, ◌-◌, ◌≤◌, Text, ℤ, pos, sub_ℕ, ◌≡◌, refl, sym, ap, ◌∙◌, arith, length,
  length-drop, is_digit, is_empty, [], ◌∷◌, if◌then◌else◌, ◌||◌,
}
use ct_cve.Base.Order.{first_nonzero, IsOrder}
use ct_cve.Base.Rounds.{rounds, loop_equation, loop-IsOrder}
use ct_cve.Vuln.Natural.{
  take_natural_part, compare_parts, behind_part, natural_rounds, compare_natural_version,
}

part-pos : (c : ℕ) (s : Text) → 1 ≤ length (take_natural_part (c ∷ s) (is_digit c))
unfolding take_natural_part
part-pos c s = ground arith

length-behind_part : (s : Text) → length (behind_part s) ≤ length s - 1
length-behind_part [] = unfold behind_part in omega arith
length-behind_part (c ∷ s) = unfold behind_part in rw length-drop (omega (arith, part-pos c s))

-- The first thing that one round looks at: where a side is empty, the lengths.
abbrev pub by_emptiness : Text → Text → ℤ
by_emptiness a b = if is_empty a || is_empty b then sub_ℕ (length a) (length b) else pos 0

abbrev pub compare_round : Text → Text → ℤ
compare_round a b = first_nonzero (by_emptiness a b) (compare_parts a b)

compare_round-tie : (a b : Text) → length a + length b ≡ 0 → compare_round a b ≡ pos 0
compare_round-tie [] [] h = unfold compare_parts in refl
compare_round-tie [] (_ ∷ _) h = absurd (omega arith)
compare_round-tie (_ ∷ _) b h = absurd (omega arith)

natural_rounds-nil : (n : ℕ) → natural_rounds n [] [] ≡ pos 0
unfolding natural_rounds
natural_rounds-nil zero = refl
natural_rounds-nil (suc n) = refl

behind_part-nil : behind_part [] ≡ []
unfolding behind_part
behind_part-nil = refl

natural_rounds-suc :
    (n : ℕ) (a b : Text)
    → natural_rounds (suc n) a b
      ≡ first_nonzero (compare_round a b) (natural_rounds n (behind_part a) (behind_part b))
natural_rounds-suc n [] [] =
    rw (natural_rounds-nil (suc n), compare_round-tie [] [] (omega arith), behind_part-nil)
      (sym (natural_rounds-nil n))
natural_rounds-suc n [] (y ∷ ys) = unfold natural_rounds in ground arith
natural_rounds-suc n (x ∷ xs) [] = unfold natural_rounds in ground arith
natural_rounds-suc n (x ∷ xs) (y ∷ ys) = unfold natural_rounds in ground arith

natural_rounds-rounds :
    (n : ℕ) (a b : Text) → natural_rounds n a b ≡ rounds compare_round behind_part n a b
unfolding rounds
natural_rounds-rounds zero a b = unfold natural_rounds in refl
natural_rounds-rounds (suc n) a b =
    natural_rounds-suc n a b
    ∙ ap (first_nonzero (compare_round a b))
        (natural_rounds-rounds n (behind_part a) (behind_part b))

compare_natural_version-rounds :
    (a b : Text)
    → compare_natural_version a b ≡ rounds compare_round behind_part (length a + length b) a b
compare_natural_version-rounds a b =
    unfold compare_natural_version in natural_rounds-rounds (length a + length b) a b

-- The loop as the source writes it, with no fuel: where a side is empty the lengths decide, then
-- the first parts, and where these tie the loop on what is behind them.
compare_natural_version_lem :
    (a b : Text)
    → compare_natural_version a b
      ≡ first_nonzero (compare_round a b) (compare_natural_version (behind_part a) (behind_part b))
compare_natural_version_lem =
    loop_equation length compare_round-tie length-behind_part compare_natural_version-rounds

pub compare_natural_version-IsOrder_of : IsOrder compare_round → IsOrder compare_natural_version
compare_natural_version-IsOrder_of =
    loop-IsOrder length compare_round-tie length-behind_part compare_natural_version-rounds
