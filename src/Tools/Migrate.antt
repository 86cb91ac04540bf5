-- ===== src/Tools/Migrate.antt =====
-- cmd/migrate/main.go: the migrations. The files and the database are parameters; a file name is an
-- argument of the error that names it.
pub mod Again
use go_message_dispatcher.Base.{
  ℕ, Bool, if◌then◌else◌, List, [], ◌∷◌, Text, bytes, Result, ok, err, is_ok, Action, pure, ◌>>=◌,
  ◌>>◌, lift, wrapping,
}
use go_message_dispatcher.Config.{Environment}
use go_message_dispatcher.Tools.{Pool, Run, on_database}

pub record Shell (W : Type 0) : Type 0 where
  pub read_file : Text → Action W Text
  pub pool : Pool W

abbrev pub migration_files : List Text
migration_files = bytes "migrations/001_initial_schema.sql" ∷ []

module _ {W : Type 0} (sh : Shell W) where
  unfoldable pub run_migration_file : Text → Action W (Unit {0})
  run_migration_file filename = do
    content ← wrapping "failed to read migration file" [] (sh.read_file filename)
    wrapping "failed to execute migration SQL" [] (sh.pool.exec content)

  -- The loop of `runMigrations`, over any list of files.
  unfoldable pub run_files : List Text → Action W (Unit {0})
  run_files [] = pure tt
  run_files (f ∷ fs) = do
    wrapping "failed to run migration %s" f (run_migration_file f)
    run_files fs

  unfoldable pub run_migrations : Action W (Unit {0})
  run_migrations = run_files migration_files

  -- Behind the opening of the database: a ping or a migration that fails is logged, and ends the
  -- program with status 0 as well.
  unfoldable pub ping_and_run : Run W
  ping_and_run w = let r = (sh.pool.ping >> run_migrations) w in (0, r.1)

  -- `main` behind the flag.
  unfoldable pub migrate : Environment → Run W
  migrate env = on_database sh.pool env ping_and_run

  -- With the flag for the version, `main` prints it and does no more.
  unfoldable pub migrate_main : Bool → Environment → Run W
  migrate_main show_version env w = if show_version then (0, w) else migrate env w
