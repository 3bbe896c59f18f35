-- ===== src/Store/Migrations.antt =====
-- The migrations of the database: `Migrate` of internal/store/postgres.go. What a script does to the
-- rest of the database is a parameter; a transaction that fails leaves no trace.
use ct_cve.Base.{
  Text, codes, ◌==◌, eq_refl, cut_last, ◌≡◌, refl, arith, Bool, true, false, not, ◌||◌, any, All,
  if◌then◌else◌, Option, some, none, List, [], ◌∷◌, ◌++◌, Bool-cases, inl, inr,
}
use ct_cve.Base.Sort.{sort_by}
use ct_cve.Store.Sources.{text_less}
use ct_cve.Store.Upsert.{any-end}

pub record DirEntry : Type 0 where
  pub name : Text
  pub is_dir : Bool

pub record MigrationFs : Type 0 where
  pub entries : List DirEntry
  pub read_file : Text → Option Text

unfoldable pub is_sql : Option (Text × Text) → Bool
unfolding ◌==◌
is_sql none = false
is_sql (some (_, extension)) = extension == codes "sql"

unfoldable pub migration_names : List DirEntry → List Text
unfolding cut_last is_sql
migration_names [] = []
migration_names (entry ∷ entries) =
    let rest = migration_names entries in
    if entry.is_dir || not (is_sql (cut_last entry.name b'.')) then rest else entry.name ∷ rest

module _ {S : Type 0} (exec : Text → S → Option S) (fs : MigrationFs) where
  -- The rest of the database, and schema_migrations.
  abbrev pub Migrated : Type 0
  Migrated = S × List Text

  unfoldable pub applied : Text → List Text → Bool
  unfolding ◌==◌
  applied name = any (λ version. version == name)

  unfoldable pub after_script : Text → Option S → Migrated → Bool × Migrated
  after_script name none m = (false, m)
  after_script name (some s) (_, versions) = (true, (s, versions ++ name ∷ []))

  unfoldable pub run_script : Text → Option Text → Migrated → Bool × Migrated
  unfolding after_script
  run_script name none m = (false, m)
  run_script name (some sql) m = after_script name (exec sql m.0) m

  -- Whether there was no error.
  unfoldable pub apply_migration : Text → Migrated → Bool × Migrated
  unfolding applied run_script
  apply_migration name m =
      if applied name m.1 then (true, m) else run_script name (fs.read_file name) m

  unfoldable pub then_next : (Migrated → Bool × Migrated) → Bool × Migrated → Bool × Migrated
  then_next next (true, m) = next m
  then_next next (false, m) = (false, m)

  unfoldable pub apply_migrations : List Text → Migrated → Bool × Migrated
  unfolding then_next apply_migration
  apply_migrations [] m = (true, m)
  apply_migrations (name ∷ names) m = then_next (apply_migrations names) (apply_migration name m)

  unfoldable pub migrate : Migrated → Bool × Migrated
  unfolding apply_migrations migration_names sort_by text_less
  migrate = apply_migrations (sort_by text_less (migration_names fs.entries))

  abbrev IsApplied : Migrated → Text → Type 0
  IsApplied m name = applied name m.1 ≡ true

  script-IsApplied :
      (name : Text) (r : Option S) (m : Migrated)
      → (after_script name r m).0 ≡ true
      → IsApplied (after_script name r m).1 name
        × ((other : Text) → IsApplied m other → IsApplied (after_script name r m).1 other)
  unfolding after_script applied
  script-IsApplied name none m h = ground arith
  script-IsApplied name (some s) (_, versions) h = (
    let e = any-end (λ (v : Text). v == name) versions name in let k = eq_refl name in ground arith,
    λ other p. let e = any-end (λ (v : Text). v == other) versions name in ground arith,
  )

  run-IsApplied :
      (name : Text) (sql : Option Text) (m : Migrated)
      → (run_script name sql m).0 ≡ true
      → IsApplied (run_script name sql m).1 name
        × ((other : Text) → IsApplied m other → IsApplied (run_script name sql m).1 other)
  unfolding run_script
  run-IsApplied name none m h = ground arith
  run-IsApplied name (some sql) m h = script-IsApplied name (exec sql m.0) m h

  migration-IsApplied :
      (name : Text) (m : Migrated)
      → (apply_migration name m).0 ≡ true
      → IsApplied (apply_migration name m).1 name
        × ((other : Text) → IsApplied m other → IsApplied (apply_migration name m).1 other)
  unfolding apply_migration
  migration-IsApplied name m = elim (Bool-cases (applied name m.1)) [
    | inl e ↦ rw e (λ h. (e, λ other p. p))
    | inr e ↦ rw e (run-IsApplied name (fs.read_file name) m)
  ]

  next-IsApplied :
      (name : Text) (names : List Text) (m : Migrated) (r : Bool × Migrated)
      → (r.0 ≡ true
          → IsApplied r.1 name × ((other : Text) → IsApplied m other → IsApplied r.1 other))
      → ((m' : Migrated)
          → (apply_migrations names m').0 ≡ true
          → All (IsApplied (apply_migrations names m').1) names
            × ((other : Text) → IsApplied m' other → IsApplied (apply_migrations names m').1 other))
      → (then_next (apply_migrations names) r).0 ≡ true
      → All (IsApplied (then_next (apply_migrations names) r).1) (name ∷ names)
        × ((other : Text)
            → IsApplied m other
            → IsApplied (then_next (apply_migrations names) r).1 other)
  unfolding then_next
  next-IsApplied name names m (true, m') first later h =
      let (a, kept) = first refl in
      let (b, kept_later) = later m' h in
      ((kept_later name a, b), λ other p. kept_later other (kept other p))
  next-IsApplied name names m (false, m') first later h = ground arith

  migrations-IsApplied :
      (names : List Text) (m : Migrated)
      → (apply_migrations names m).0 ≡ true
      → All (IsApplied (apply_migrations names m).1) names
        × ((other : Text) → IsApplied m other → IsApplied (apply_migrations names m).1 other)
  unfolding apply_migrations
  migrations-IsApplied [] m h = (tt, λ other p. p)
  migrations-IsApplied (name ∷ names) m h =
      next-IsApplied name names m (apply_migration name m) (migration-IsApplied name m)
        (migrations-IsApplied names) h

  nothing_left :
      (names : List Text) (m : Migrated)
      → All (IsApplied m) names
      → apply_migrations names m ≡ (true, m)
  unfolding apply_migrations apply_migration then_next
  nothing_left [] m h = refl
  nothing_left (name ∷ names) m (a, h) = rw a (nothing_left names m h)

  -- After a migration without an error, a migration runs no script and changes nothing.
  pub migrate_twice :
      (m : Migrated) → (migrate m).0 ≡ true → migrate (migrate m).1 ≡ (true, (migrate m).1)
  unfolding migrate
  migrate_twice m h =
      let names = sort_by text_less (migration_names fs.entries) in
      nothing_left names (apply_migrations names m).1 (migrations-IsApplied names m h).0
