-- ===== src/Store/Accounts/Tests.antt =====
-- The theorems on sessions and on migrations, at small tables.
use ct_cve.Base.{
  ltb, ◌≡◌, refl, Text, codes, true, false, if◌then◌else◌, Option, none, some, List, [], ◌∷◌, ◌++◌,
}
use ct_cve.CtOps.Time.{timestamptz}
use ct_cve.Auth.{User, Session, role_admin}
use ct_cve.Store.Accounts.{
  Accounts, create_session, session_accepted, session_row, find_session, delete_session,
}
use ct_cve.Store.Accounts.Laws.{find_session-delete_session, find_session-create_session}
use ct_cve.Store.Migrations.{MigrationFs, migration_names, apply_migrations, migrate, migrate_twice}

abbrev hash : Text
hash = codes "0123456789012345678901234567890123456789012345678901234567890123"

abbrev admin : User
admin = record {
  id = 1;
  username = codes "admin";
  password_hash = codes "$2a$12$abcdefghijklmnop";
  role = role_admin;
  created_at = 1;
}

abbrev tables : Accounts
tables = record { users = admin ∷ []; sessions = []; next_user_id = 2 }

abbrev session : Session
session = record { token_hash = hash; user_id = 1; csrf_token = hash; expires_at = 10_500 }

find_session-create_session_example :
    find_session hash 9_999 (create_session session tables).1
    ≡ (if ltb (timestamptz 9_999) (timestamptz 10_500) then some (session_row session) else none)
unfolding create_session session_accepted
find_session-create_session_example = find_session-create_session session 9_999 tables refl

find_session-delete_session_example :
    find_session hash 9 (delete_session hash (create_session session tables).1) ≡ none
find_session-delete_session_example =
    find_session-delete_session hash 9 (create_session session tables).1

abbrev fs : MigrationFs
fs = record {
  entries =
      record { name = codes "b.sql"; is_dir = false }
      ∷ record { name = codes "a.sql"; is_dir = false }
      ∷ [];
  read_file = λ name. some name;
}

-- A script adds its own text to the database.
abbrev exec : Text → List Text → Option (List Text)
exec sql s = some (s ++ sql ∷ [])

migrate_twice_example :
    migrate exec fs (migrate exec fs ([], [])).1 ≡ (true, (migrate exec fs ([], [])).1)
unfolding migrate migration_names apply_migrations
migrate_twice_example = migrate_twice exec fs ([], []) refl
