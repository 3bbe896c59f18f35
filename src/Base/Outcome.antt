-- ===== src/Base/Outcome.antt =====
-- A result or the message of an error, and the decimals that messages hold.
use Prim.Native.Nat.{ℕ, zero, suc, ◌+◌, ◌/◌, ◌%◌}
use mathlib.Core.Path.{◌≡◌, refl}
use mathlib.Core.Bool.{Bool, true, false}
use mathlib.Core.List.{[], ◌∷◌, ◌++◌}
use native.Mathlib.Omega.{arith}
use ct_cve.Base.Tests.{ltb, if◌then◌else◌}
use ct_cve.Base.Strings.{Text}

pub data Outcome (A : Type 0) : Type 0 where
  done : A → Outcome A
  failed_with : Text → Outcome A

infixl 5 ◌>>=◌
abbrev pub ◌>>=◌ : {A B : Type 0} → Outcome A → (A → Outcome B) → Outcome B
done value >>= next = next value
failed_with message >>= next = failed_with message

-- strconv.Itoa of a number that is not negative; the fuel is a bound of the number of digits.
unfoldable pub decimal : ℕ → ℕ → Text
decimal zero n = []
decimal (suc fuel) n =
    let before = decimal fuel (n / 10) in
    let digit = b'0' + n % 10 in if ltb n 10 then digit ∷ [] else before ++ digit ∷ []

unfoldable pub itoa : ℕ → Text
unfolding decimal
itoa n = decimal (suc n) n

pub done_parts : {A : Type 0} {a b : A} → ◌≡◌ {A = Outcome A} (done a) (done b) → a ≡ b
done_parts h = ground arith

-- A chain is done where both of its parts are.
pub bind-done :
    {A B : Type 0} (o : Outcome A) (next : A → Outcome B) (b : B)
    → (o >>= next) ≡ done b
    → (a : A) × (o ≡ done a) × (next a ≡ done b)
bind-done (done a) next b h = (a, refl, h)
bind-done (failed_with e) next b h = ground arith

pub unless_failed :
    {A : Type 0} (test : Bool) (message : Text) (o : Outcome A) (a : A)
    → (if test then failed_with message else o) ≡ done a
    → (test ≡ false) × (o ≡ done a)
unless_failed true message o a h = ground arith
unless_failed false message o a h = (refl, h)

pub if_done :
    {A : Type 0} (test : Bool) (message : Text) (o : Outcome A) (a : A)
    → (if test then o else failed_with message) ≡ done a
    → (test ≡ true) × (o ≡ done a)
if_done true message o a h = (refl, h)
if_done false message o a h = ground arith
