-- ===== src/Store/Accounts.antt =====
-- The users and the sessions of the web pages: the statements of internal/store/postgres.go on
-- gui_users and gui_sessions. The errors are those of the constraints on the tables.
pub mod Laws
mod Tests
use ct_cve.Base.{
  ℕ, suc, ltb, nat_eq, Text, codes, ◌==◌, length, is_empty, Bool, true, false, not, ◌&&◌, any, all,
  leb, if◌then◌else◌, Option, some, none, List, [], ◌∷◌, ◌++◌,
}
use ct_cve.CtOps.Time.{Time, timestamptz}
use ct_cve.Auth.{User, NewUser, Session, role_admin, is_username_char}

-- The next id is that of the sequence of gui_users.
pub record Accounts : Type 0 where
  pub users : List User
  pub sessions : List Session
  pub next_user_id : ℕ

unfoldable pub count_users : Accounts → ℕ
count_users a = length a.users

-- The CHECKs on the columns of gui_users.
unfoldable pub user_columns : NewUser → Bool
unfolding ◌==◌ is_username_char
user_columns new =
    leb 3 (length new.username)
    && leb (length new.username) 64
    && all is_username_char new.username
    && leb 20 (length new.password_hash)
    && leb (length new.password_hash) 255
    && (new.role == role_admin)

pub data Creation : Type 0 where
  created : User → Creation
  user_exists : Creation
  user_refused : Creation

-- The statement inserts only into a table without rows.
unfoldable pub create_user : Time → NewUser → Accounts → Creation × Accounts
unfolding user_columns
create_user now new a =
    let user : User = record {
      id = a.next_user_id;
      username = new.username;
      password_hash = new.password_hash;
      role = new.role;
      created_at = now;
    } in
    let inserted : Accounts = record {
      users = a.users ++ user ∷ [];
      sessions = a.sessions;
      next_user_id = suc a.next_user_id;
    } in
    if not (is_empty a.users)
    then (user_exists, a)
    else if user_columns new
    then (created user, inserted)
    else (user_refused, a)

-- `none` is ErrUserNotFound.
unfoldable pub find_user : Text → List User → Option User
unfolding ◌==◌
find_user username [] = none
find_user username (user ∷ users) =
    let rest = find_user username users in if user.username == username then some user else rest

unfoldable pub find_user_by_username : Text → Accounts → Option User
unfolding find_user
find_user_by_username username a = find_user username a.users

-- The constraints of gui_sessions: the CHECKs, the key and the reference to the user.
unfoldable pub session_accepted : Session → Accounts → Bool
unfolding ◌==◌
session_accepted new a =
    nat_eq (length new.token_hash) 64
    && leb 32 (length new.csrf_token)
    && leb (length new.csrf_token) 128
    && not (any (λ (s : Session). s.token_hash == new.token_hash) a.sessions)
    && any (λ (u : User). nat_eq u.id new.user_id) a.users

-- The row of a session: expires_at is timestamptz.
unfoldable pub session_row : Session → Session
unfolding timestamptz
session_row new = record new { expires_at = timestamptz new.expires_at }

unfoldable pub create_session : Session → Accounts → Bool × Accounts
unfolding session_accepted session_row
create_session new a =
    if session_accepted new a
    then (
      true,
      record {
        users = a.users;
        sessions = a.sessions ++ session_row new ∷ [];
        next_user_id = a.next_user_id;
      },
    )
    else (false, a)

unfoldable pub find_unexpired : Text → Time → List Session → Option Session
unfolding ◌==◌ timestamptz
find_unexpired token_hash now [] = none
find_unexpired token_hash now (s ∷ sessions) =
    let rest = find_unexpired token_hash now sessions in
    if (s.token_hash == token_hash) && ltb (timestamptz now) s.expires_at then some s else rest

-- `none` is ErrSessionNotFound.
unfoldable pub find_session : Text → Time → Accounts → Option Session
unfolding find_unexpired
find_session token_hash now a = find_unexpired token_hash now a.sessions

unfoldable pub without : Text → List Session → List Session
unfolding ◌==◌
without token_hash [] = []
without token_hash (s ∷ sessions) =
    let rest = without token_hash sessions in if s.token_hash == token_hash then rest else s ∷ rest

unfoldable pub delete_session : Text → Accounts → Accounts
unfolding without
delete_session token_hash a = record {
  users = a.users;
  sessions = without token_hash a.sessions;
  next_user_id = a.next_user_id;
}
