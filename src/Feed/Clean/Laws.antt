-- ===== src/Feed/Clean/Laws.antt =====
-- The lists of CVE ids, and the names of packages of Red Hat.
use ct_cve.Base.{
  Text, ◌==◌, eq_sound, eq_sym_false, ◌≡◌, refl, ap, sym, ◌∙◌, subst, arith, trim_space, is_empty,
  contains, cut_last, Bool, true, false, ◌||◌, All, All-weaken, if◌then◌else◌, Option, some, none,
  some_parts, List, [], ◌∷◌, ◌++◌, map,
}
use ct_cve.Base.Trim.{IsWord, trim_space-IsWord}
use ct_cve.Base.Cut.{IsLastCut, cut_last-append, cut_last-IsLastCut}
use ct_cve.Feed.Clean.{
  one_of, unique_from, unique_non_empty_strings, package_file_stem, both_parts, at_dash,
  name_and_version, split_stem, split_red_hat_fixed_package,
}

-- No text comes twice.
abbrev pub IsDistinct : List Text → Type 0
IsDistinct [] = Unit
IsDistinct (t ∷ texts) = (one_of t texts ≡ false) × IsDistinct texts

-- New to what was seen, and not empty.
abbrev Fresh : List Text → Text → Type 0
Fresh seen t = (one_of t seen ≡ false) × (is_empty t ≡ false)

abbrev Good : List Text → List Text → Type 0
Good seen out = All (Fresh seen) out × IsDistinct out

Fresh-tail : (v t : Text) (seen : List Text) → Fresh (v ∷ seen) t → Fresh seen t
unfolding one_of
Fresh-tail v t seen (h, k) = (ground arith, k)

Fresh-one_of : (v : Text) (seen out : List Text) → All (Fresh (v ∷ seen)) out → one_of v out ≡ false
unfolding one_of
Fresh-one_of v seen [] h = refl
Fresh-one_of v seen (t ∷ out) ((h, _), k) =
    let later = Fresh-one_of v seen out k in let flip = eq_sym_false v t in ground arith

unique_step-Good :
    (value : Text) (seen values : List Text) (b : Bool)
    → b ≡ (is_empty value || one_of value seen)
    → ((s : List Text) → Good s (unique_from s values))
    → let rest = unique_from (if b then seen else value ∷ seen) values in
      Good seen (if b then rest else value ∷ rest)
unique_step-Good value seen values true e h = h seen
unique_step-Good value seen values false e h =
    let (all, distinct) = h (value ∷ seen) in
    (
      ((ground arith, ground arith), All-weaken (λ t. Fresh-tail value t seen) _ all),
      (Fresh-one_of value seen _ all, distinct),
    )

unique_from-Good : (values seen : List Text) → Good seen (unique_from seen values)
unfolding unique_from
unique_from-Good [] seen = (tt, tt)
unique_from-Good (raw ∷ values) seen =
    let value = trim_space raw in
    unique_step-Good value seen values (is_empty value || one_of value seen) refl
      (λ s. unique_from-Good values s)

one_of-nil : (v : Text) → one_of v [] ≡ false
unfolding one_of
one_of-nil v = refl

one_of-cons : (v t : Text) (texts : List Text) → one_of v (t ∷ texts) ≡ (t == v || one_of v texts)
unfolding one_of
one_of-cons v t texts = refl

unique_step-one_of :
    (v value : Text) (rest seen values : List Text) (b same : Bool)
    → same ≡ (value == v)
    → b ≡ (is_empty value || one_of value seen)
    → is_empty v ≡ false
    → one_of v (value ∷ rest) ≡ true
    → ((s : List Text)
        → one_of v rest ≡ true
        → (one_of v s || one_of v (unique_from s values)) ≡ true)
    → (one_of v seen
        || one_of v (
            if b
            then unique_from (if b then seen else value ∷ seen) values
            else value ∷ unique_from (if b then seen else value ∷ seen) values))
      ≡ true
unique_step-one_of v value rest seen values true true e f n m h =
    let i = eq_sound value v (sym e) in
    let k : one_of value seen ≡ one_of v seen = ap (λ x. one_of x seen) i in
    let l : is_empty value ≡ is_empty v = ap (λ (x : Text). is_empty x) i in ground arith
unique_step-one_of v value rest seen values true false e f n m h =
    let m' = one_of-cons v value rest in let k = h seen in ground arith
unique_step-one_of v value rest seen values false true e f n m h =
    let o = one_of-cons v value (unique_from (value ∷ seen) values) in ground arith
unique_step-one_of v value rest seen values false false e f n m h =
    let m' = one_of-cons v value rest in
    let k = h (value ∷ seen) in
    let o = one_of-cons v value (unique_from (value ∷ seen) values) in
    let w = one_of-cons v value seen in ground arith

-- Nothing is lost.
unique_from-one_of :
    (v : Text) (values seen : List Text)
    → is_empty v ≡ false
    → one_of v (map trim_space values) ≡ true
    → (one_of v seen || one_of v (unique_from seen values)) ≡ true
unfolding unique_from
unique_from-one_of v [] seen n h = ground arith
unique_from-one_of v (raw ∷ values) seen n h =
    let value = trim_space raw in
    unique_step-one_of v value (map trim_space values) seen values
      (is_empty value || one_of value seen) (value == v) refl refl n h
      (λ s m. unique_from-one_of v values s n m)

-- The ids of a row: none is empty, none comes twice, and each text of the row that is not blank is
-- among them, without the spaces around it.
pub unique_non_empty_strings-IsDistinct :
    (values : List Text)
    → IsDistinct (unique_non_empty_strings values)
      × All (λ t. is_empty t ≡ false) (unique_non_empty_strings values)
      × ((v : Text)
          → is_empty v ≡ false
          → one_of v (map trim_space values) ≡ true
          → one_of v (unique_non_empty_strings values) ≡ true)
unfolding unique_non_empty_strings
unique_non_empty_strings-IsDistinct values =
    let (all, distinct) = unique_from-Good values [] in
    (
      distinct,
      All-weaken (λ t (f : Fresh [] t). f.1) _ all,
      λ v n h. let k = unique_from-one_of v values [] n h in let e = one_of-nil v in ground arith,
    )

guarded :
    (b : Bool) (p q : Text × Text)
    → ◌≡◌ {A = Option (Text × Text)} (if b then none else some p) (some q)
    → ◌≡◌ {A = Option (Text × Text)} (some p) (some q)
guarded true p q h = ground arith
guarded false p q h = h

pair_parts :
    (name fixed a b : Text)
    → ◌≡◌ {A = Option (Text × Text)} (some (a, b)) (some (name, fixed))
    → (name ≡ a) × (fixed ≡ b)
pair_parts name fixed a b h =
    let e = sym (some_parts h) in (ap (λ (x : Text × Text). x.0) e, ap (λ (x : Text × Text). x.1) e)

is_empty-IsWord : (s : Text) → IsWord s → is_empty s ≡ false
is_empty-IsWord [] h = elim h [ ]
is_empty-IsWord (_ ∷ _) h = refl

is_empty-append : (s t : Text) → is_empty (s ++ b'-' ∷ t) ≡ false
is_empty-append [] t = refl
is_empty-append (_ ∷ _) t = refl

-- The stem is the name, the version and the release, joined by dashes; the spaces around the name
-- and the version are dropped.
abbrev pub IsSplit : Text → Text → Text → Type 0
IsSplit stem name fixed =
    (raw_name : Text) × (raw_version : Text) × (release : Text) × (stem
      ≡ (raw_name ++ b'-' ∷ raw_version) ++ b'-' ∷ release)
    × (contains raw_version b'-' ≡ false)
    × (contains release b'-' ≡ false)
    × (name ≡ trim_space raw_name)
    × (fixed ≡ trim_space raw_version ++ b'-' ∷ release)

both_parts-IsLastCut :
    (s : Text) (p : Text × Text) (r : Option (Text × Text))
    → r ≡ cut_last s b'-'
    → both_parts r ≡ some p
    → IsLastCut s b'-' p
both_parts-IsLastCut s p none e h = ground arith
both_parts-IsLastCut s p (some q) e h =
    subst (IsLastCut s b'-') (some_parts (guarded _ _ _ h)) (cut_last-IsLastCut s b'-' q (sym e))

at_dash-IsLastCut : (s : Text) (p : Text × Text) → at_dash s ≡ some p → IsLastCut s b'-' p
unfolding at_dash
at_dash-IsLastCut s p h = both_parts-IsLastCut s p (cut_last s b'-') refl h

name_and_version-IsSplit :
    (stem before release name fixed : Text) (r : Option (Text × Text))
    → IsLastCut stem b'-' (before, release)
    → r ≡ at_dash before
    → name_and_version release r ≡ some (name, fixed)
    → IsSplit stem name fixed
unfolding name_and_version
name_and_version-IsSplit stem before release name fixed none (e, n) q h = ground arith
name_and_version-IsSplit stem before release name fixed (some (raw_name, raw_version)) (e, n) q h =
    let (f, m) = at_dash-IsLastCut before (raw_name, raw_version) (sym q) in
    let (a, b) = pair_parts name fixed (trim_space raw_name) _ (guarded _ _ _ h) in
    (raw_name, raw_version, release, e ∙ ap (λ x. x ++ b'-' ∷ release) f, m, n, a, b)

split_stem-IsSplit :
    (stem name fixed : Text) (r : Option (Text × Text))
    → r ≡ at_dash stem
    → split_stem r ≡ some (name, fixed)
    → IsSplit stem name fixed
unfolding split_stem
split_stem-IsSplit stem name fixed none e h = ground arith
split_stem-IsSplit stem name fixed (some (before, release)) e h =
    name_and_version-IsSplit stem before release name fixed (at_dash before)
      (at_dash-IsLastCut stem (before, release) (sym e)) refl h

-- What is split off a package of Red Hat is its name, its version and its release: the stem of the
-- file name is these three, joined by dashes, but for spaces around the name and around the version,
-- which are dropped; and neither the version nor the release has a dash.
pub split_red_hat_fixed_package-IsSplit :
    (value name fixed : Text)
    → split_red_hat_fixed_package value ≡ some (name, fixed)
    → IsSplit (package_file_stem value) name fixed
unfolding split_red_hat_fixed_package
split_red_hat_fixed_package-IsSplit value name fixed h =
    split_stem-IsSplit (package_file_stem value) name fixed _ refl h

-- A name, a version and a release are split again from a package whose file name they are, joined
-- by dashes, once the spaces around it, the endings of a package file and an architecture are taken off as the code
-- does: the name and the version are words without spaces, the release is not empty, and neither it
-- nor the version has a dash.
pub split_red_hat_fixed_package_joined :
    (value name version release : Text)
    → package_file_stem value ≡ (name ++ b'-' ∷ version) ++ b'-' ∷ release
    → IsWord name
    → IsWord version
    → is_empty release ≡ false
    → contains version b'-' ≡ false
    → contains release b'-' ≡ false
    → split_red_hat_fixed_package value ≡ some (name, version ++ b'-' ∷ release)
unfolding split_red_hat_fixed_package split_stem name_and_version at_dash
split_red_hat_fixed_package_joined value name version release e n v r d d' =
    rw
      (
        e,
        cut_last-append (name ++ b'-' ∷ version) release b'-' d',
        r,
        is_empty-append name version,
        cut_last-append name version b'-' d,
        is_empty-IsWord name n,
        is_empty-IsWord version v,
        trim_space-IsWord name n,
        trim_space-IsWord version v,
      )
      (rw (is_empty-IsWord name n, is_empty-IsWord version v))
