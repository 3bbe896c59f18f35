-- ===== src/Base/Order.antt =====
-- Three-way comparisons: the laws that make one a total order up to ties, stated at values, so
-- that a comparison that is built piece by piece inherits them.
use mathlib.Core.Path.{◌≡◌}
use Prim.Native.Nat.{ℕ}
use native.Mathlib.Omega.{arith}
use ct_cve.Base.Tests.{if◌then◌else◌}
use ct_cve.Base.Int.{ℤ, pos, neg, NonPos, is_zero, sub_ℕ, ◌-ℤ◌}

-- For x, y and z comparing (a, b), (b, c) and (a, c): at most twice is at most, and it is a tie
-- only where both are ties.
abbrev pub Triangle : ℤ → ℤ → ℤ → Type 0
Triangle x y z = NonPos x → NonPos y → NonPos z × (z ≡ pos 0 → (x ≡ pos 0) × (y ≡ pos 0))

-- `if c := x; c != 0 { return c }; return y`
abbrev pub first_nonzero : ℤ → ℤ → ℤ
first_nonzero x y = if is_zero x then y else x

pub first_nonzero-neg : (x y : ℤ) → first_nonzero (neg x) (neg y) ≡ neg (first_nonzero x y)
first_nonzero-neg x y = ground arith

pub first_nonzero-Triangle :
    (x y z x' y' z' : ℤ)
    → Triangle x y z
    → Triangle x' y' z'
    → Triangle (first_nonzero x x') (first_nonzero y y') (first_nonzero z z')
first_nonzero-Triangle x y z x' y' z' t t' h k = ground arith

pub record IsOrder {ℓ} {A : Type ℓ} (cmp : A → A → ℤ) : Type ℓ where
  pub flip : (a b : A) → cmp b a ≡ neg (cmp a b)
  pub trans : (a b c : A) → Triangle (cmp a b) (cmp b c) (cmp a c)

-ℤ_flip : (a b : ℤ) → b -ℤ a ≡ neg (a -ℤ b)
unfolding ◌-ℤ◌
-ℤ_flip a b = ground arith

-ℤ-Triangle : (a b c : ℤ) → Triangle (a -ℤ b) (b -ℤ c) (a -ℤ c)
unfolding ◌-ℤ◌
-ℤ-Triangle a b c h k = ground arith

pub -ℤ-IsOrder : IsOrder ◌-ℤ◌
-ℤ-IsOrder = record { flip = -ℤ_flip; trans = -ℤ-Triangle }

sub_ℕ_flip : (a b : ℕ) → sub_ℕ b a ≡ neg (sub_ℕ a b)
sub_ℕ_flip a b = ground arith

sub_ℕ-Triangle : (a b c : ℕ) → Triangle (sub_ℕ a b) (sub_ℕ b c) (sub_ℕ a c)
sub_ℕ-Triangle a b c h k = ground arith

pub sub_ℕ-IsOrder : IsOrder sub_ℕ
sub_ℕ-IsOrder = record { flip = sub_ℕ_flip; trans = sub_ℕ-Triangle }

module _ {ℓ} {A : Type ℓ} where
  -- Comparing by a first criterion, and by a second where the first finds a tie.
  pub then-IsOrder :
      {c d : A → A → ℤ} → IsOrder c → IsOrder d → IsOrder (λ a b. first_nonzero (c a b) (d a b))
  then-IsOrder {c} {d} o p = record {
    flip = λ x y. rw (o.flip x y, p.flip x y) (first_nonzero-neg (c x y) (d x y));
    trans = λ x y z.
        first_nonzero-Triangle (c x y) (c y z) (c x z) (d x y) (d y z) (d x z) (o.trans x y z)
          (p.trans x y z);
  }

  -- Comparing by a key.
  pub on-IsOrder {κ} :
      {B : Type κ} {c : B → B → ℤ} (key : A → B) → IsOrder c → IsOrder (λ a b. c (key a) (key b))
  on-IsOrder key o = record {
    flip = λ x y. o.flip (key x) (key y);
    trans = λ x y z. o.trans (key x) (key y) (key z);
  }

  pub same-IsOrder : {c d : A → A → ℤ} → ((a b : A) → c a b ≡ d a b) → IsOrder d → IsOrder c
  same-IsOrder same o = record {
    flip = λ x y. rw (same y x, same x y) (o.flip x y);
    trans = λ x y z. rw (same x y, same y z, same x z) (o.trans x y z);
  }
