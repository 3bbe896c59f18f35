-- ===== src/Base/Trim.antt =====
-- What strings.TrimSpace leaves as it is: a text whose first and last bytes are no spaces.
use mathlib.Core.List.{reverse, reverse-append, reverse-reverse}
use ct_cve.Base.{
  ℕ, Text, trim_space, drop_while, is_space, false, ◌≡◌, refl, sym, ap, ◌∙◌, [], ◌∷◌, ◌++◌, All,
}

-- The byte is no space.
abbrev pub IsSolid : ℕ → Type 0
IsSolid c = is_space c ≡ false

-- A text of one byte at least, without spaces.
abbrev pub IsWord : Text → Type 0
IsWord [] = ⊥
IsWord (c ∷ s) = IsSolid c × All IsSolid s

drop_while-solid : (c : ℕ) (s : Text) → IsSolid c → drop_while is_space (c ∷ s) ≡ c ∷ s
unfolding drop_while
drop_while-solid c s h = rw h

-- The last byte of a text, and what is before it.
abbrev pub EndsIn : Text → Text → ℕ → Type 0
EndsIn s before d = (s ≡ before ++ d ∷ []) × IsSolid d

pub IsWord-EndsIn : (s : Text) → IsWord s → (before : Text) × (d : ℕ) × EndsIn s before d
IsWord-EndsIn [] h = elim h [ ]
IsWord-EndsIn (c ∷ []) (h, _) = ([], c, (refl, h))
IsWord-EndsIn (c ∷ d ∷ s) (h, k) =
    let (before, last, (e, f)) = IsWord-EndsIn (d ∷ s) k in
    (c ∷ before, last, (ap (λ x. c ∷ x) e, f))

pub trim_space-same :
    (c : ℕ) (s before : Text) (d : ℕ)
    → IsSolid c
    → EndsIn (c ∷ s) before d
    → trim_space (c ∷ s) ≡ c ∷ s
unfolding trim_space
trim_space-same c s before d h (e, k) =
    let swap = reverse-append before (d ∷ []) in
    ap (λ x. reverse (drop_while is_space (reverse x))) (drop_while-solid c s h)
    ∙ (ap (λ x. reverse (drop_while is_space (reverse x))) e
        ∙ (ap (λ x. reverse (drop_while is_space x)) swap
            ∙ (ap reverse (drop_while-solid d (reverse before) k)
                ∙ (ap reverse (sym swap) ∙ (reverse-reverse (before ++ d ∷ []) ∙ sym e)))))

pub trim_space-IsWord : (s : Text) → IsWord s → trim_space s ≡ s
trim_space-IsWord [] h = elim h [ ]
trim_space-IsWord (c ∷ s) h =
    let (before, d, ends) = IsWord-EndsIn (c ∷ s) h in trim_space-same c s before d h.0 ends
