-- ===== src/Base/Cut.antt =====
-- Where strings.LastIndex cuts.
use ct_cve.Base.{
  ℕ, Text, cut_last, contains, nat_eq, ◌≡◌, refl, ap, subst, arith, Bool, true, false, Option, some,
  none, [], ◌∷◌, ◌++◌, if◌then◌else◌,
}

-- The text is cut at the byte, behind which there is no other.
abbrev pub IsLastCut : Text → ℕ → Text × Text → Type 0
IsLastCut s sep (before, after) = (s ≡ before ++ sep ∷ after) × (contains after sep ≡ false)

cut_last-none : (s : Text) (sep : ℕ) → contains s sep ≡ false → cut_last s sep ≡ none
unfolding cut_last contains
cut_last-none [] sep h = refl
cut_last-none (c ∷ s) sep h = ground (arith, cut_last-none s sep)

pub cut_last-append :
    (before after : Text) (sep : ℕ)
    → contains after sep ≡ false
    → cut_last (before ++ sep ∷ after) sep ≡ some (before, after)
unfolding cut_last
cut_last-append [] after sep h = rw (cut_last-none after sep h) (ground arith)
cut_last-append (c ∷ before) after sep h = rw (cut_last-append before after sep h)

abbrev Outcome : Text → ℕ → Option (Text × Text) → Type 0
Outcome s sep none = contains s sep ≡ false
Outcome s sep (some p) = IsLastCut s sep p

-- What the first byte adds.
abbrev with_first : ℕ → Text → ℕ → Option (Text × Text) → Option (Text × Text)
with_first c s sep r = elim r [
  | some (before, after) ↦ some (c ∷ before, after)
  | none ↦ if nat_eq c sep then some ([], s) else none
]

if-Outcome :
    (c : ℕ) (s : Text) (sep : ℕ) (b : Bool)
    → b ≡ nat_eq c sep
    → contains s sep ≡ false
    → Outcome (c ∷ s) sep (if b then some ([], s) else none)
unfolding contains
if-Outcome c s sep true e h = let same : c ≡ sep = ground arith in (ap (λ x. x ∷ s) same, h)
if-Outcome c s sep false e h = ground arith

with_first-Outcome :
    (c : ℕ) (s : Text) (sep : ℕ) (r : Option (Text × Text))
    → Outcome s sep r
    → Outcome (c ∷ s) sep (with_first c s sep r)
with_first-Outcome c s sep none h = if-Outcome c s sep (nat_eq c sep) refl h
with_first-Outcome c s sep (some (before, after)) (e, h) = (ap (λ x. c ∷ x) e, h)

cut_last-Outcome : (s : Text) (sep : ℕ) → Outcome s sep (cut_last s sep)
unfolding cut_last contains
cut_last-Outcome [] sep = refl
cut_last-Outcome (c ∷ s) sep = with_first-Outcome c s sep (cut_last s sep) (cut_last-Outcome s sep)

pub cut_last-IsLastCut :
    (s : Text) (sep : ℕ) (p : Text × Text) → cut_last s sep ≡ some p → IsLastCut s sep p
cut_last-IsLastCut s sep p h = subst (Outcome s sep) h (cut_last-Outcome s sep)
