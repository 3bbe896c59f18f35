-- ===== src/Vuln/Version/Epoch.antt =====
-- What `splitEpoch` leaves of a version.
use ct_cve.Base.{
  ℕ, ◌≤◌, Text, arith, length, cut, prepend, ℤ, atoi, nat_eq, IsAscii, Option, some, none,
  Bool-cases, inl, inr, [], ◌∷◌,
}
use ct_cve.Vuln.Debian.{split_epoch, with_epoch, after_cut}

-- A later part of an ASCII text.
pub record IsPart (t s : Text) : Type 0 where
  pub ascii : IsAscii s → IsAscii t
  pub shorter : length t ≤ length s

IsPart-refl : (s : Text) → IsPart s s
IsPart-refl s = record { ascii = λ h. h; shorter = omega arith }

IsPart-cons : {t s : Text} (c : ℕ) → IsPart t s → IsPart t (c ∷ s)
IsPart-cons c p = record { ascii = λ h. p.ascii h.1; shorter = omega (arith, p.shorter) }

abbrev AfterIsPart : Text → Option (Text × Text) → Type 0
AfterIsPart s none = Unit
AfterIsPart s (some (_, after)) = IsPart after s

prepend-AfterIsPart :
    (x : ℕ) (s : Text) (o : Option (Text × Text))
    → AfterIsPart s o
    → AfterIsPart (x ∷ s) (prepend x o)
prepend-AfterIsPart x s none h = tt
prepend-AfterIsPart x s (some (b, a)) h = IsPart-cons x h

cut-AfterIsPart : (s : Text) (c : ℕ) → AfterIsPart s (cut s c)
unfolding cut
cut-AfterIsPart [] c = tt
cut-AfterIsPart (x ∷ s) c = elim (Bool-cases (nat_eq x c)) [
  | inl e ↦ rw e (IsPart-cons x (IsPart-refl s))
  | inr e ↦ rw e (prepend-AfterIsPart x s (cut s c) (cut-AfterIsPart s c))
]

with_epoch-IsPart :
    (v after : Text) (o : Option ℤ) → IsPart after v → IsPart (with_epoch v after o).1 v
unfolding with_epoch
with_epoch-IsPart v after none h = IsPart-refl v
with_epoch-IsPart v after (some e) h = h

after_cut-IsPart :
    (v : Text) (o : Option (Text × Text)) → AfterIsPart v o → IsPart (after_cut v o).1 v
unfolding after_cut
after_cut-IsPart v none h = IsPart-refl v
after_cut-IsPart v (some (before, after)) h = with_epoch-IsPart v after (atoi before) h

pub split_epoch-IsPart : (v : Text) → IsPart (split_epoch v).1 v
split_epoch-IsPart v =
    unfold split_epoch in after_cut-IsPart v (cut v b':') (cut-AfterIsPart v b':')
