-- ===== src/Vuln/Rpm.antt =====
-- The comparison of RPM versions: `compareRPMVersion`, `rpmvercmp` and the functions that they
-- call, of internal/vuln/version.go. `none` stands for a loop that has run out of fuel.
pub mod Loop
pub mod Order
pub mod Endless
use ct_cve.Base.{
  ℕ, zero, suc, ◌+◌, Text, ℤ, pos, negsuc, sub_ℕ, ◌-ℤ◌, wrap64, text_compare, is_digit, is_zero,
  is_empty, length, take_while, drop, nat_eq, not, if◌then◌else◌, Bool, true, false, ◌&&◌, ◌||◌,
  Option, some, none, [], ◌∷◌,
}
use ct_cve.Base.Utf8.{Unicode, is_digit_rune, is_letter_rune, trim_left_func}
use ct_cve.Vuln.Numeric.{compare_numeric_strings}
use ct_cve.Vuln.Debian.{split_epoch}

module _ (u : Unicode) where
  abbrev pub rpm_separator : ℕ → Bool
  rpm_separator r = not (is_digit_rune u r || is_letter_rune u r || nat_eq r b'~')

  pub trim : Text → Text
  unfolding trim_left_func
  trim s = trim_left_func s rpm_separator

  -- The bytes up to the first that is a separator, or a digit where digits are not taken.
  unfoldable pub take_rpm_part : Text → Bool → Text
  unfolding take_while
  take_rpm_part s numeric =
      take_while (λ c. (if numeric then is_digit c else not (is_digit c)) && not (rpm_separator c))
        s

  -- Two texts that are trimmed and not empty.
  pub compare_parts : ℕ → Text → ℕ → Text → ℤ
  unfolding take_rpm_part compare_numeric_strings text_compare
  compare_parts x xs y ys =
      let anum = is_digit x in
      let bnum = is_digit y in
      let as_ = take_rpm_part (x ∷ xs) anum in
      let bs = take_rpm_part (y ∷ ys) bnum in
      if anum && not bnum
      then pos 1
      else if not anum && bnum
      then negsuc 0
      else if anum
      then compare_numeric_strings as_ bs
      else text_compare as_ bs

  pub behind_part : ℕ → Text → Text
  unfolding take_rpm_part
  behind_part x xs = drop (length (take_rpm_part (x ∷ xs) (is_digit x))) (x ∷ xs)

  -- One round on trimmed texts; `again` is the rest of the loop.
  pub round : (Text → Text → Option ℤ) → Text → Text → Option ℤ
  unfolding compare_parts behind_part
  round again [] b = some (sub_ℕ 0 (length b))
  round again (x ∷ xs) [] = some (sub_ℕ (length (x ∷ xs)) 0)
  round again (x ∷ xs) (y ∷ ys) =
      let c = compare_parts x xs y ys in
      if is_zero c then again (behind_part x xs) (behind_part y ys) else some c

  pub rpm_rounds : ℕ → Text → Text → Option ℤ
  unfolding round trim
  rpm_rounds zero a b = none
  rpm_rounds (suc fuel) a b =
      let next = round (rpm_rounds fuel) (trim a) (trim b) in
      if is_empty a && is_empty b then some (pos 0) else next

  unfoldable pub rpmvercmp : Text → Text → Option ℤ
  unfolding rpm_rounds
  rpmvercmp a b = rpm_rounds (suc (length a + length b)) a b

  unfoldable pub compare_rpm_version : Text → Text → Option ℤ
  unfolding rpmvercmp split_epoch wrap64 ◌-ℤ◌
  compare_rpm_version a b =
      let (ae, av) = split_epoch a in
      let (be, bv) = split_epoch b in
      let e = ae -ℤ be in let rest = rpmvercmp av bv in if is_zero e then rest else some (wrap64 e)
