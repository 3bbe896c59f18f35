-- ===== src/Config/Check.antt =====
-- The validators of internal/config/config.go.
use mathlib.Core.List.{reverse}
use ct_cve.Base.{
  ℕ, nat_eq, ltb, ℤ, pos, Text, codes, ◌==◌, ◌++◌, is_empty, length, drop_while, trim_space, Bool,
  true, false, not, ◌&&◌, any, if◌then◌else◌, Option, some, none, [], ◌∷◌,
}
use ct_cve.Base.Outcome.{Outcome, done, failed_with, ◌>>=◌}
use ct_cve.Config.{is_positive}
use ct_cve.CtOps.Time.{exceeds}

-- What the code takes of a URL, and the rest of it.
pub record Url : Type 0 where
  pub scheme : Text
  pub host : Text
  pub path : Text
  pub raw_query : Text
  pub fragment : Text
  pub rest : Text

-- net/url, time.ParseDuration and the printing of a duration.
pub record GoLibrary : Type 0 where
  pub parse_url : Text → Option Url
  pub url_string : Url → Text
  pub parse_duration : Text → Option ℤ
  pub duration_string : ℤ → Text

-- strconv.ParseBool
unfoldable pub parse_bool : Text → Option Bool
unfolding ◌==◌
parse_bool value =
    if any (λ t. value == t)
      (codes "1" ∷ codes "t" ∷ codes "T" ∷ codes "true" ∷ codes "TRUE" ∷ codes "True" ∷ [])
    then some true
    else if any (λ t. value == t)
        (codes "0" ∷ codes "f" ∷ codes "F" ∷ codes "false" ∷ codes "FALSE" ∷ codes "False" ∷ [])
    then some false
    else none

unfoldable pub value_or_default : Text → Text → Text
unfolding trim_space
value_or_default value fallback =
    let trimmed = trim_space value in if is_empty trimmed then fallback else trimmed

unfoldable pub trim_right_slash : Text → Text
unfolding drop_while
trim_right_slash s = reverse (drop_while (nat_eq b'/') (reverse s))

module _ (lib : GoLibrary) where
  unfoldable pub checked_url : Text → Text → Option Url → Outcome Text
  unfolding ◌==◌
  checked_url name raw none = failed_with (name ++ codes " must be a valid URL")
  checked_url name raw (some url) =
      if not (url.scheme == codes "http") && not (url.scheme == codes "https")
      then failed_with (name ++ codes " must use http or https")
      else if is_empty url.host
      then failed_with (name ++ codes " must include a host")
      else done raw

  -- `validateHTTPURL`
  unfoldable pub check_http_url : Text → Text → Outcome Text
  unfolding checked_url
  check_http_url name raw = checked_url name raw (lib.parse_url raw)

  -- `ValidateHTTPURL`
  unfoldable pub validate_http_url : Text → Outcome Text
  unfolding trim_space check_http_url
  validate_http_url value =
      let trimmed = trim_space value in
      if ltb 2048 (length trimmed)
      then failed_with (codes "source URL must be 2048 characters or fewer")
      else check_http_url (codes "source URL") trimmed

  -- url.Parse is called once more, of the same text.
  unfoldable pub normalized : Text → Option Url → Outcome Text
  unfolding trim_right_slash
  normalized text none = failed_with (codes "parse")
  normalized text (some url) = done (
      trim_right_slash (
        lib.url_string
          (record url { path = trim_right_slash url.path; raw_query = []; fragment = [] })))

  unfoldable pub normalize_base_url : Text → Text → Outcome Text
  unfolding trim_space check_http_url normalized
  normalize_base_url value name =
      check_http_url name (trim_space value) >>= λ text. normalized text (lib.parse_url text)

  -- `max` of 0 is no maximum.
  unfoldable pub bounded_duration : ℕ → Option ℤ → Outcome ℤ
  bounded_duration max none = failed_with (codes "duration must be valid")
  bounded_duration max (some parsed) =
      if not (is_positive parsed)
      then failed_with (codes "duration must be greater than zero")
      else if ltb 0 max && exceeds parsed max
      then failed_with (codes "duration must be no greater than " ++ lib.duration_string (pos max))
      else done parsed

  unfoldable pub validate_positive_duration : Text → ℕ → Outcome ℤ
  unfolding trim_space bounded_duration
  validate_positive_duration value max =
      bounded_duration max (lib.parse_duration (trim_space value))

  unfoldable pub bool_or : Text → Option Bool → Outcome Bool
  bool_or name none = failed_with (name ++ codes " must be a boolean")
  bool_or name (some parsed) = done parsed

  unfoldable pub positive_duration : Text → Option ℤ → Outcome ℤ
  positive_duration name none = failed_with (name ++ codes " must be a valid duration")
  positive_duration name (some parsed) =
      if is_positive parsed
      then done parsed
      else failed_with (name ++ codes " must be greater than zero")

  module _ (getenv : Text → Text) where
    unfoldable pub bool_from_env : Text → Bool → Outcome Bool
    unfolding trim_space bool_or parse_bool
    bool_from_env name fallback =
        let value = trim_space (getenv name) in
        if is_empty value then done fallback else bool_or name (parse_bool value)

    unfoldable pub duration_from_env : Text → ℕ → Outcome ℤ
    unfolding trim_space positive_duration
    duration_from_env name fallback =
        let value = trim_space (getenv name) in
        if is_empty value
        then done (pos fallback)
        else positive_duration name (lib.parse_duration value)

    unfoldable pub http_url_from_env : Text → Text → Outcome Text
    unfolding value_or_default check_http_url
    http_url_from_env name fallback = check_http_url name (value_or_default (getenv name) fallback)
