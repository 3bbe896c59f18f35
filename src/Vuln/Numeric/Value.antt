-- ===== src/Vuln/Numeric/Value.antt =====
-- `compareNumericStrings` compares the numbers that two runs of digits spell. The runs may be of
-- any length: nothing overflows.
use native.Mathlib.Nat.{pow-suc, pow-le-pow_right, mul-le-mul_right}
use ct_cve.Base.{
  ℕ, suc, ◌+◌, ◌-◌, ◌*◌, ◌^◌, ◌≤◌, ◌<◌, Text, ℤ, ◌≡◌, refl, arith, text_compare, length, All,
  is_empty, nat_eq, drop_while, is_negative, is_zero, is_positive, neg, ◌↔◌, true, Bool-cases, inl,
  inr, [], ◌∷◌, if◌then◌else◌,
}
use ct_cve.Vuln.Numeric.Order.{compare_numeric_strings-IsOrder}
use ct_cve.Vuln.Numeric.{compare_numeric_strings, without_zeros}

-- The number that a run of digits spells.
abbrev pub value : Text → ℕ
value [] = 0
value (c ∷ s) = (c - b'0') * 10 ^ length s + value s

abbrev pub IsDigit : ℕ → Type 0
IsDigit c = (b'0' ≤ c) × (c ≤ b'9')

value-lt : (s : Text) → All IsDigit s → value s < 10 ^ length s
value-lt [] h = omega arith
value-lt (c ∷ s) (d, h) =
    let ih = value-lt s h in
    let top = mul-le-mul_right {m = c - b'0'} {n = 9} (10 ^ length s) (omega arith) in
    rw pow-suc (omega arith)

smaller_digit : (x y v w P : ℕ) → b'0' ≤ x → x < y → v < P → (x - b'0') * P + v < (y - b'0') * P + w
smaller_digit x y v w P h k l =
    let step = mul-le-mul_right {m = x - b'0' + 1} {n = y - b'0'} P (omega arith) in omega arith

same_digit : (x y P : ℕ) → x ≡ y → (x - b'0') * P ≡ (y - b'0') * P
same_digit x y P e = rw e

abbrev Decides : Text → Text → Type 0
Decides a b =
    (is_negative (text_compare a b) ≡ true → value a < value b)
    × (is_zero (text_compare a b) ≡ true → value a ≡ value b)

same_length :
    (x : ℕ) (xs : Text) (y : ℕ) (ys : Text)
    → b'0' ≤ x
    → length xs ≡ length ys
    → value xs < 10 ^ length xs
    → Decides xs ys
    → Decides (x ∷ xs) (y ∷ ys)
unfolding text_compare
same_length x xs y ys h e l ih =
    let P = 10 ^ length ys in
    let l' : value xs < P = rw e at l in
    rw e (
      ground (
        arith,
        λ (k : x < y). smaller_digit x y (value xs) (value ys) P h k l',
        λ (k : x ≡ y). same_digit x y P k,
      ))

-- Digits of one length compare as texts compare.
text_compare-value :
    (a b : Text) → All IsDigit a → All IsDigit b → length a ≡ length b → Decides a b
unfolding text_compare
text_compare-value [] [] _ _ _ = ground arith
text_compare-value [] (_ ∷ _) _ _ e = absurd (omega arith)
text_compare-value (_ ∷ _) [] _ _ e = absurd (omega arith)
text_compare-value (x ∷ xs) (y ∷ ys) (p, h) (q, k) e =
    let e' : length xs ≡ length ys = omega arith in
    let ih = text_compare-value xs ys h k e' in same_length x xs y ys p.0 e' (value-lt xs h) ih

abbrev StartsHigh : Text → Type 0
StartsHigh [] = Unit
StartsHigh (c ∷ _) = b'1' ≤ c

record IsStripped (s t : Text) : Type 0 where
  same : value t ≡ value s
  digits : All IsDigit t
  high : StartsHigh t

drop_zeros : (s : Text) → All IsDigit s → IsStripped s (drop_while (λ c. nat_eq c b'0') s)
drop_zeros [] h = unfold drop_while in record { same = refl; digits = tt; high = tt }
drop_zeros (c ∷ s) (d, h) = go (drop_zeros s h)
  where
    go :
        IsStripped s (drop_while (λ c. nat_eq c b'0') s)
        → IsStripped (c ∷ s) (drop_while (λ c. nat_eq c b'0') (c ∷ s))
    go ih =
        unfold drop_while in
        elim (Bool-cases (nat_eq c b'0')) [
          | inl e ↦
              let zero_digit : c ≡ b'0' = ground arith in
              rw e (record {
                same = rw (zero_digit, ih.same) (omega arith);
                digits = ih.digits;
                high = ih.high;
              })
          | inr e ↦ rw e (record { same = refl; digits = (d, h); high = ground arith })
        ]

-- A canonical run: "0", or digits of which the first is not 0.
record IsCanonical (s t : Text) : Type 0 where
  same : value t ≡ value s
  digits : All IsDigit t
  some_digit : 1 ≤ length t
  large : 2 ≤ length t → 10 ^ (length t - 1) ≤ value t

stripped-IsCanonical :
    (s t : Text) → IsStripped s t → IsCanonical s (if is_empty t then b'0' ∷ [] else t)
stripped-IsCanonical s [] h = record {
  same = omega (arith, h.same);
  digits = omega arith;
  some_digit = omega arith;
  large = omega arith;
}
stripped-IsCanonical s (c ∷ t) h = record {
  same = h.same;
  digits = h.digits;
  some_digit = omega arith;
  large = λ k. first_digit c t h.high;
}
  where
    first_digit : (c : ℕ) (t : Text) → b'1' ≤ c → 10 ^ (suc (length t) - 1) ≤ value (c ∷ t)
    first_digit c t k =
        let e : suc (length t) - 1 ≡ length t = omega arith in
        let step = mul-le-mul_right {m = 1} {n = c - b'0'} (10 ^ length t) (omega arith) in
        rw e (omega arith)

without_zeros-IsCanonical : (s : Text) → All IsDigit s → IsCanonical s (without_zeros s)
without_zeros-IsCanonical s h =
    unfold without_zeros in
    stripped-IsCanonical s (drop_while (λ c. nat_eq c b'0') s) (drop_zeros s h)

shorter-lt :
    (a b a' b' : Text)
    → IsCanonical a a'
    → IsCanonical b b'
    → length a' < length b'
    → value a < value b
shorter-lt a b a' b' p q h =
    let below = value-lt a' p.digits in
    let above = q.large (omega (arith, p.some_digit)) in
    let grows =
      pow-le-pow_right {n = 10} (omega arith) {i = length a'} {j = length b' - 1} (omega arith) in
    omega (arith, p.same, q.same)

module _ (a b : Text) (h : All IsDigit a) (k : All IsDigit b) where
  numeric_sound :
      (is_negative (compare_numeric_strings a b) ≡ true → value a < value b)
      × (is_zero (compare_numeric_strings a b) ≡ true → value a ≡ value b)
  numeric_sound =
      let p = without_zeros-IsCanonical a h in
      let q = without_zeros-IsCanonical b k in
      let a' = without_zeros a in
      let b' = without_zeros b in
      let same = p.same in
      let same' = q.same in
      unfold compare_numeric_strings in
      ground (arith, text_compare-value a' b' p.digits q.digits, shorter-lt a b a' b' p q)

-- On two runs of digits the result is negative, zero or positive exactly as the first number is
-- below, equal to or above the second.
pub compare_numeric_strings-value :
    (a b : Text)
    → All IsDigit a
    → All IsDigit b
    → ((is_negative (compare_numeric_strings a b) ≡ true) ↔ (value a < value b))
      × ((is_zero (compare_numeric_strings a b) ≡ true) ↔ (value a ≡ value b))
      × ((is_positive (compare_numeric_strings a b) ≡ true) ↔ (value b < value a))
compare_numeric_strings-value a b h k =
    let there = numeric_sound a b h k in
    let back = numeric_sound b a k h in
    let flip = compare_numeric_strings-IsOrder.flip a b in
    signs (compare_numeric_strings a b) (value a) (value b) there (rw flip at back)
  where
    signs :
        (z : ℤ) (m n : ℕ)
        → (is_negative z ≡ true → m < n) × (is_zero z ≡ true → m ≡ n)
        → (is_negative (neg z) ≡ true → n < m) × (is_zero (neg z) ≡ true → n ≡ m)
        → ((is_negative z ≡ true) ↔ (m < n))
          × ((is_zero z ≡ true) ↔ (m ≡ n))
          × ((is_positive z ≡ true) ↔ (n < m))
    signs z m n p q = ground arith
