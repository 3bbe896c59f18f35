-- ===== src/Vuln/Rpm/Endless.antt =====
-- Two versions on which `rpmvercmp` does not end.
use ct_cve.Base.{ℕ, zero, suc, ◌+◌, ◌-◌, ◌≤◌, Text, ◌≡◌, refl, arith, true, none, ◌∷◌, Option, ℤ}
use ct_cve.Base.Utf8.{Unicode}
use ct_cve.Vuln.Rpm.{trim, round, rpm_rounds}
use ct_cve.Vuln.Rpm.Loop.{rpm_rounds-suc}

module _ (u : Unicode) (c d : ℕ) (low : 0x80 ≤ c) (high : c ≤ 0xbf) (low' : 0x80 ≤ d)
    (high' : d ≤ 0xbf) (letter : u.wide_letter (0x5c0 + (c - 0x80)) ≡ true)
    (letter' : u.wide_letter (0x5c0 + (d - 0x80)) ≡ true) (s t : Text) where
  kept : trim u (0xd7 ∷ c ∷ s) ≡ 0xd7 ∷ c ∷ s
  unfolding trim
  kept = ground arith

  kept' : trim u (0xd7 ∷ d ∷ t) ≡ 0xd7 ∷ d ∷ t
  unfolding trim
  kept' = ground arith

  same_again :
      (again : Text → Text → Option ℤ)
      → round u again (0xd7 ∷ c ∷ s) (0xd7 ∷ d ∷ t) ≡ again (0xd7 ∷ c ∷ s) (0xd7 ∷ d ∷ t)
  unfolding round
  same_again again = refl

  -- Whatever the fuel, it runs out on two versions that both begin with a letter of two bytes, of
  -- which the first is 0xd7 and the second is from 0x80 to 0xbf: the first byte is no letter of
  -- Latin-1, so that each round takes an empty part off both sides.
  pub rpm_rounds-endless : (n : ℕ) → rpm_rounds u n (0xd7 ∷ c ∷ s) (0xd7 ∷ d ∷ t) ≡ none
  rpm_rounds-endless zero = unfold rpm_rounds in refl
  rpm_rounds-endless (suc n) =
      rw (rpm_rounds-suc u n, kept, kept', same_again) (rpm_rounds-endless n)
