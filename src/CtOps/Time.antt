-- ===== src/CtOps/Time.antt =====
-- Instants and durations of package time, in nanoseconds.
use ct_cve.Base.{
  ℕ, ◌+◌, ◌-◌, ◌*◌, ◌/◌, ◌^◌, ◌≤◌, ◌<◌, ℤ, pos, negsuc, neg, wrap64, is_negative, ltb, leb, leb→le,
  Bool-cases, inl, inr, ◌⊎◌, nat_eq, Bool, false, ◌≡◌, arith, if◌then◌else◌,
}

-- Nanoseconds since the beginning of the year 0, the first that a timestamp can name.
abbrev pub Time : Type 0
Time = ℕ

-- The zero `time.Time`: the beginning of the year 1.
abbrev pub zero_time : Time
zero_time = 31_622_400_000_000_000

abbrev pub is_zero_time : Time → Bool
is_zero_time t = nat_eq t zero_time

abbrev pub minutes : ℕ → ℕ
minutes n = n * 60_000_000_000

-- What a timestamptz column or parameter makes of an instant: the driver cuts it to microseconds.
unfoldable pub timestamptz : Time → Time
timestamptz t = t / 1000 * 1000

pub timestamptz-le : (t : Time) → timestamptz t ≤ t
unfolding timestamptz
timestamptz-le t = omega arith

pub timestamptz_mono : (t u : Time) → t ≤ u → timestamptz t ≤ timestamptz u
unfolding timestamptz
timestamptz_mono t u h = omega arith

pub timestamptz_twice : (t : Time) → timestamptz (timestamptz t) ≡ timestamptz t
unfolding timestamptz
timestamptz_twice t = omega arith

-- Time.Sub: a difference that is no int64 gives the nearest int64.
unfoldable pub sub_time : Time → Time → ℤ
sub_time t u =
    if leb u t
    then pos (if ltb (t - u) (2 ^ 63) then t - u else 2 ^ 63 - 1)
    else negsuc (if leb (u - t) (2 ^ 63) then u - t - 1 else 2 ^ 63 - 1)

-- `absDuration` of internal/ctops/service_token.go; the negation is of an int64.
unfoldable pub abs_duration : ℤ → ℤ
unfolding wrap64
abs_duration value = if is_negative value then wrap64 (neg value) else value

-- `value > limit`
abbrev pub exceeds : ℤ → ℕ → Bool
exceeds (pos n) limit = ltb limit n
exceeds (negsuc _) _ = false

-- Instants less than 292 years apart are measured exactly.
pub exceeds-abs_duration :
    (t u limit : ℕ)
    → t < u + 2 ^ 63
    → u < t + 2 ^ 63
    → exceeds (abs_duration (sub_time t u)) limit ≡ false
    → (t ≤ u + limit) × (u ≤ t + limit)
unfolding abs_duration sub_time
exceeds-abs_duration t u limit h k e = ground arith

not_behind :
    (t u limit : ℕ)
    → limit < 2 ^ 63 - 1
    → exceeds (abs_duration (sub_time t u)) limit ≡ false
    → t < u + 2 ^ 63
unfolding abs_duration sub_time
not_behind t u limit small e = ground arith

-- The instants are within a limit of each other, or the second is 2^63 nanoseconds or more ahead.
pub exceeds_cases :
    (t u limit : ℕ)
    → limit < 2 ^ 63 - 1
    → exceeds (abs_duration (sub_time t u)) limit ≡ false
    → ((t ≤ u + limit) × (u ≤ t + limit)) ⊎ (t + 2 ^ 63 ≤ u)
exceeds_cases t u limit small e = elim (Bool-cases (leb (t + 2 ^ 63) u)) [
  | inl far ↦ inr (leb→le (t + 2 ^ 63) u far)
  | inr near ↦ inl (exceeds-abs_duration t u limit (not_behind t u limit small e) (ground arith) e)
]

-- An instant more than 2^63 nanoseconds ahead is within every limit: the absolute value of the
-- least int64 is itself, which is negative.
pub far_future-exceeds :
    (t u limit : ℕ) → t + 2 ^ 63 ≤ u → exceeds (abs_duration (sub_time t u)) limit ≡ false
unfolding abs_duration sub_time
far_future-exceeds t u limit h = ground arith
