-- ===== src/Auth.antt =====
-- Users and sessions: internal/auth/auth.go. bcrypt, SHA-256 and the random numbers are parameters.
use ct_cve.Base.{
  ℕ, nat_eq, ltb, leb, Text, codes, is_digit, to_lower, trim_space, length, Bool, ◌&&◌, ◌||◌, all,
  if◌then◌else◌, Option, some, none,
}
use ct_cve.Base.Outcome.{Outcome, failed_with}
use ct_cve.CtOps.Time.{Time}

pub record User : Type 0 where
  pub id : ℕ
  pub username : Text
  pub password_hash : Text
  pub role : Text
  pub created_at : Time

pub record NewUser : Type 0 where
  pub username : Text
  pub password_hash : Text
  pub role : Text

pub record Session : Type 0 where
  pub token_hash : Text
  pub user_id : ℕ
  pub csrf_token : Text
  pub expires_at : Time

abbrev pub role_admin : Text
role_admin = codes "admin"

abbrev pub min_password_size : ℕ
min_password_size = 12

-- bcrypt, and the hash that a session is kept under.
pub record AuthLibrary : Type 0 where
  pub generate_from_password : Text → Outcome Text
  pub compare_hash_and_password : Text → Text → Bool
  pub sha256_hex : Text → Text

unfoldable pub normalize_username : Text → Text
unfolding to_lower trim_space
normalize_username value = to_lower (trim_space value)

-- A byte of a rune that is not ASCII passes no test of a character.
unfoldable pub is_username_char : ℕ → Bool
is_username_char c =
    (leb b'a' c && leb c b'z') || is_digit c || nat_eq c b'-' || nat_eq c b'_' || nat_eq c b'.'

unfoldable pub validate_username : Text → Option Text
unfolding is_username_char
validate_username value =
    if ltb (length value) 3 || ltb 64 (length value)
    then some (codes "username must be between 3 and 64 characters")
    else if all is_username_char value
    then none
    else some (
        codes
          "username may only contain lowercase letters, numbers, hyphens, underscores, and periods")

unfoldable pub validate_password : Text → Option Text
validate_password value =
    if ltb (length value) min_password_size
    then some (codes "password must be at least 12 characters")
    else if ltb 1024 (length value)
    then some (codes "password must be 1024 characters or fewer")
    else none

unfoldable pub hash_valid : AuthLibrary → Text → Option Text → Outcome Text
hash_valid lib password none = lib.generate_from_password password
hash_valid lib password (some error) = failed_with error

unfoldable pub hash_password : AuthLibrary → Text → Outcome Text
unfolding hash_valid validate_password
hash_password lib password = hash_valid lib password (validate_password password)

unfoldable pub check_password : AuthLibrary → Text → Text → Bool
check_password lib password_hash password = lib.compare_hash_and_password password_hash password

unfoldable pub hash_session_token : AuthLibrary → Text → Text
hash_session_token lib token = lib.sha256_hex token
