-- ===== src/Base/Rounds.antt =====
-- Loops that compare two values piece by piece: a round compares the heads, and where it finds a
-- tie the loop goes on with the tails.
use mathlib.Core.Path.{◌≡◌, refl, sym, ap, ◌∙◌}
use Prim.Native.Nat.{ℕ, zero, suc, ◌+◌, ◌-◌, ◌≤◌}
use native.Mathlib.Omega.{arith}
use ct_cve.Base.Int.{ℤ, pos}
use ct_cve.Base.Order.{IsOrder, first_nonzero, then-IsOrder, on-IsOrder}

module _ {ℓ} {A : Type ℓ} (heads : A → A → ℤ) (tails : A → A) where
  unfoldable pub rounds : ℕ → A → A → ℤ
  rounds zero a b = pos 0
  rounds (suc n) a b = let rest = rounds n (tails a) (tails b) in first_nonzero (heads a b) rest

  tie-IsOrder : IsOrder (λ (a b : A). pos 0)
  tie-IsOrder = record { flip = λ a b. refl; trans = λ a b c h k. (h, λ e. (refl, refl)) }

  pub rounds-IsOrder : IsOrder heads → (n : ℕ) → IsOrder (rounds n)
  unfolding rounds
  rounds-IsOrder o zero = tie-IsOrder
  rounds-IsOrder o (suc n) = then-IsOrder o (on-IsOrder tails (rounds-IsOrder o n))

-- A loop that shortens its values in each round, and finds a tie when nothing is left of them.
module _ {ℓ} {A : Type ℓ} {heads : A → A → ℤ} {tails : A → A} (size : A → ℕ)
    (tie : (a b : A) → size a + size b ≡ 0 → heads a b ≡ pos 0)
    (shrinks : (a : A) → size (tails a) ≤ size a - 1) where
  pub rounds_ended : (n : ℕ) (a b : A) → size a + size b ≡ 0 → rounds heads tails n a b ≡ pos 0
  unfolding rounds
  rounds_ended zero a b e = refl
  rounds_ended (suc n) a b e =
      rw (tie a b e) (rounds_ended n (tails a) (tails b) (omega (arith, shrinks a, shrinks b)))

  -- More fuel than the values are long changes nothing.
  rounds-eq :
      (n m : ℕ) (a b : A)
      → size a + size b ≤ n
      → size a + size b ≤ m
      → rounds heads tails n a b ≡ rounds heads tails m a b
  unfolding rounds
  rounds-eq zero m a b h k = sym (rounds_ended m a b (omega arith))
  rounds-eq (suc n) zero a b h k = rounds_ended (suc n) a b (omega arith)
  rounds-eq (suc n) (suc m) a b h k = ap (first_nonzero (heads a b)) (
      rounds-eq n m (tails a) (tails b) (omega (arith, shrinks a, shrinks b))
        (omega (arith, shrinks a, shrinks b)))

  -- `cmp` runs the loop with fuel for the two values.
  module _ {cmp : A → A → ℤ}
      (same : (a b : A) → cmp a b ≡ rounds heads tails (size a + size b) a b) where
    enough : (n : ℕ) (a b : A) → size a + size b ≤ n → cmp a b ≡ rounds heads tails n a b
    enough n a b h = same a b ∙ rounds-eq (size a + size b) n a b (omega arith) h

    -- The loop without fuel.
    pub loop_equation : (a b : A) → cmp a b ≡ first_nonzero (heads a b) (cmp (tails a) (tails b))
    loop_equation a b =
        let n = size a + size b in
        enough (suc n) a b (omega arith)
        ∙ (unfold rounds in
            ap (first_nonzero (heads a b))
              (sym (enough n (tails a) (tails b) (omega (arith, shrinks a, shrinks b)))))

    pub loop-IsOrder : IsOrder heads → IsOrder cmp
    loop-IsOrder o = record {
      flip = λ a b.
          let n = size a + size b in
          rw (enough n a b (omega arith), enough n b a (omega arith))
            ((rounds-IsOrder heads tails o n).flip a b);
      trans = λ a b c.
          let n = size a + size b + size c in
          rw (enough n a b (omega arith), enough n b c (omega arith), enough n a c (omega arith))
            ((rounds-IsOrder heads tails o n).trans a b c);
    }
