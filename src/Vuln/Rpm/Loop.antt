-- ===== src/Vuln/Rpm/Loop.antt =====
-- On ASCII text the loop of `rpmvercmp` ends, and computes the order of its rounds.
use ct_cve.Base.{
  ℕ, zero, suc, ◌+◌, ◌-◌, ◌≤◌, ◌<◌, Text, ℤ, pos, ◌≡◌, refl, ◌∙◌, arith, length, length-drop, drop,
  is_digit, Bool, if◌then◌else◌, false, Bool-cases, IsAscii, some, [], ◌∷◌, inl, inr,
}
use ct_cve.Base.Order.{IsOrder, first_nonzero}
use ct_cve.Base.Rounds.{rounds, rounds-IsOrder}
use ct_cve.Base.Utf8.{Unicode, trim_from}
use ct_cve.Vuln.Rpm.{rpm_separator, trim, take_rpm_part, behind_part, round, rpm_rounds, rpmvercmp}
use ct_cve.Vuln.Rpm.Order.{trimmed_round, compare_round, compare_round-IsOrder}

IsAscii-drop : (n : ℕ) (s : Text) → IsAscii s → IsAscii (drop n s)
IsAscii-drop zero s h = h
IsAscii-drop (suc n) [] h = h
IsAscii-drop (suc n) (c ∷ s) (_, h) = IsAscii-drop n s h

trim_from-ascii :
    (f : ℕ → Bool) (c : ℕ) (s : Text)
    → c < 0x80
    → trim_from f 0 (c ∷ s) ≡ (if f c then trim_from f 0 s else c ∷ s)
unfolding trim_from
trim_from-ascii f c s h = ground arith

module _ (u : Unicode) where
  pub rpm_rounds-suc :
      (n : ℕ) (x : ℕ) (xs b : Text)
      → rpm_rounds u (suc n) (x ∷ xs) b ≡ round u (rpm_rounds u n) (trim u (x ∷ xs)) (trim u b)
  unfolding rpm_rounds
  rpm_rounds-suc n x xs b = refl

  rpm_rounds-suc' :
      (n : ℕ) (y : ℕ) (ys : Text)
      → rpm_rounds u (suc n) [] (y ∷ ys) ≡ round u (rpm_rounds u n) (trim u []) (trim u (y ∷ ys))
  unfolding rpm_rounds
  rpm_rounds-suc' n y ys = refl

  part-pos :
      (x : ℕ) (xs : Text)
      → rpm_separator u x ≡ false
      → 1 ≤ length (take_rpm_part u (x ∷ xs) (is_digit x))
  unfolding take_rpm_part
  part-pos x xs h = ground arith

  -- A trimmed text is empty, or begins with what is no separator.
  abbrev StartsPlain : Text → Type 0
  StartsPlain [] = Unit
  StartsPlain (x ∷ _) = rpm_separator u x ≡ false

  record IsTrimmed (s t : Text) : Type 0 where
    plain : StartsPlain t
    ascii : IsAscii t
    shorter : length t ≤ length s

  trim-IsTrimmed : (s : Text) → IsAscii s → IsTrimmed s (trim_from (rpm_separator u) 0 s)
  trim-IsTrimmed [] h = unfold trim_from in record { plain = tt; ascii = tt; shorter = omega arith }
  trim-IsTrimmed (c ∷ s) (p, h) =
      let ih = trim-IsTrimmed s h in
      rw (trim_from-ascii (rpm_separator u) c s p) (elim (Bool-cases (rpm_separator u c)) [
        | inl e ↦ rw e (record { plain = ih.plain; ascii = ih.ascii; shorter = omega arith })
        | inr e ↦ rw e (record { plain = e; ascii = (p, h); shorter = omega arith })
      ])

  trimmed : (s : Text) → IsAscii s → IsTrimmed s (trim u s)
  trimmed s h = unfold trim in trim-IsTrimmed s h

  length-behind_part :
      (x : ℕ) (xs : Text) → rpm_separator u x ≡ false → length (behind_part u x xs) ≤ length xs
  length-behind_part x xs h = unfold behind_part in rw length-drop (omega (arith, part-pos x xs h))

  IsAscii-behind_part : (x : ℕ) (xs : Text) → IsAscii (x ∷ xs) → IsAscii (behind_part u x xs)
  IsAscii-behind_part x xs h = unfold behind_part in IsAscii-drop _ (x ∷ xs) h

  -- What one round leaves of a text.
  behind : Text → Text
  behind [] = []
  behind (x ∷ xs) = behind_part u x xs

  after_round : Text → Text
  after_round s = behind (trim u s)

  trim-nil : trim u [] ≡ []
  unfolding trim
  trim-nil = refl

  rounds-nil : (m : ℕ) → rounds (compare_round u) after_round m [] [] ≡ pos 0
  rounds-nil zero = unfold rounds in refl
  rounds-nil (suc m) = go (rounds-nil m)
    where
      go :
          rounds (compare_round u) after_round m [] [] ≡ pos 0
          → rounds (compare_round u) after_round (suc m) [] [] ≡ pos 0
      go ih = unfold rounds compare_round after_round trimmed_round behind trim in ih

  -- A round on trimmed texts, if the rest of the loop computes the rounds.
  round-rounds :
      (n m : ℕ) (a b : Text)
      → rpm_rounds u n (behind a) (behind b)
        ≡ some (rounds (compare_round u) after_round m (behind a) (behind b))
      → round u (rpm_rounds u n) a b
        ≡ some (
            first_nonzero
              (trimmed_round u a b)
              (rounds (compare_round u) after_round m (behind a) (behind b)))
  unfolding round trimmed_round behind
  round-rounds n m [] [] h = rw rounds-nil
  round-rounds n m [] (y ∷ ys) h = ground arith
  round-rounds n m (x ∷ xs) [] h = ground arith
  round-rounds n m (x ∷ xs) (y ∷ ys) h = ground arith

  round-trim :
      (n m : ℕ) (a b : Text)
      → rpm_rounds u n (after_round a) (after_round b)
        ≡ some (rounds (compare_round u) after_round m (after_round a) (after_round b))
      → round u (rpm_rounds u n) (trim u a) (trim u b)
        ≡ some (rounds (compare_round u) after_round (suc m) a b)
  unfolding rounds compare_round after_round
  round-trim n m a b ih = round-rounds n m (trim u a) (trim u b) ih

  shrinks : (s : Text) → IsAscii s → length (after_round s) ≤ length s - 1
  shrinks s h = unfold after_round in go (trim u s) (trimmed s h)
    where
      go : (t : Text) → IsTrimmed s t → length (behind t) ≤ length s - 1
      go [] t = unfold behind in omega arith
      go (x ∷ xs) t = unfold behind in omega (arith, length-behind_part x xs t.plain)

  after_round-IsAscii : (s : Text) → IsAscii s → IsAscii (after_round s)
  after_round-IsAscii s h = unfold after_round in go (trim u s) (trimmed s h)
    where
      go : (t : Text) → IsTrimmed s t → IsAscii (behind t)
      go [] t = unfold behind in tt
      go (x ∷ xs) t = unfold behind in IsAscii-behind_part x xs t.ascii

  -- Enough fuel: a round for each byte, and one to see that nothing is left.
  rpm_rounds-rounds :
      (n m : ℕ) (a b : Text)
      → IsAscii a
      → IsAscii b
      → length a + length b < n
      → length a + length b ≤ m
      → rpm_rounds u n a b ≡ some (rounds (compare_round u) after_round m a b)
  rpm_rounds-rounds zero m a b _ _ h _ = absurd (omega arith)
  rpm_rounds-rounds (suc n) m [] [] _ _ h k = rw rounds-nil (unfold rpm_rounds in refl)
  rpm_rounds-rounds (suc n) zero [] (y ∷ ys) _ _ h k = absurd (omega arith)
  rpm_rounds-rounds (suc n) zero (x ∷ xs) b _ _ h k = absurd (omega arith)
  rpm_rounds-rounds (suc n) (suc m) [] (y ∷ ys) p q h k =
      rpm_rounds-suc' n y ys
      ∙ round-trim n m [] (y ∷ ys) (
          rpm_rounds-rounds n m (after_round []) (after_round (y ∷ ys)) (after_round-IsAscii [] p)
            (after_round-IsAscii (y ∷ ys) q) (omega (arith, shrinks [] p, shrinks (y ∷ ys) q))
            (omega (arith, shrinks [] p, shrinks (y ∷ ys) q)))
  rpm_rounds-rounds (suc n) (suc m) (x ∷ xs) b p q h k =
      rpm_rounds-suc n x xs b
      ∙ round-trim n m (x ∷ xs) b (
          rpm_rounds-rounds n m (after_round (x ∷ xs)) (after_round b)
            (after_round-IsAscii (x ∷ xs) p) (after_round-IsAscii b q)
            (omega (arith, shrinks (x ∷ xs) p, shrinks b q))
            (omega (arith, shrinks (x ∷ xs) p, shrinks b q)))

  rpmvercmp-rounds :
      (m : ℕ) (a b : Text)
      → IsAscii a
      → IsAscii b
      → length a + length b ≤ m
      → rpmvercmp u a b ≡ some (rounds (compare_round u) after_round m a b)
  rpmvercmp-rounds m a b p q h =
      unfold rpmvercmp in rpm_rounds-rounds (suc (length a + length b)) m a b p q (omega arith) h

  -- On ASCII text the loop returns a result, and more fuel does not change it.
  pub rpm_rounds-rpmvercmp :
      (n : ℕ) (a b : Text)
      → IsAscii a
      → IsAscii b
      → length a + length b < n
      → (c : ℤ) × (rpmvercmp u a b ≡ some c) × (rpm_rounds u n a b ≡ some c)
  rpm_rounds-rpmvercmp n a b p q h =
      let m = length a + length b in
      (
        rounds (compare_round u) after_round m a b,
        rpmvercmp-rounds m a b p q (omega arith),
        rpm_rounds-rounds n m a b p q h (omega arith),
      )

  -- A comparison in which every result is one of these is a total order up to ties.
  pub rpm_order : ℕ → Text → Text → ℤ
  rpm_order m = rounds (compare_round u) after_round m

  pub rpm_order-IsOrder : (m : ℕ) → IsOrder (rpm_order m)
  rpm_order-IsOrder m =
      unfold rpm_order in rounds-IsOrder (compare_round u) after_round (compare_round-IsOrder u) m

  pub rpmvercmp-rpm_order :
      (m : ℕ) (a b : Text)
      → IsAscii a
      → IsAscii b
      → length a + length b ≤ m
      → rpmvercmp u a b ≡ some (rpm_order m a b)
  rpmvercmp-rpm_order m a b p q h = unfold rpm_order in rpmvercmp-rounds m a b p q h
