-- ===== src/Tools.antt =====
-- The command line tools of cmd/. Each `main` loads the settings, opens the database, does its work and
-- closes it: here with the exit status as a value, where `log.Fatalf` exits with 1. What the tools
-- print is left out.
pub mod Migrate
pub mod TestMessages
pub mod Queue
pub mod Exit
use go_message_dispatcher.Base.{ℕ, Text, Result, ok, err, Action}
use go_message_dispatcher.Config.{Config, Environment, load, database_dsn}

-- `sql.Open`, `Ping`, `Close`, and `Exec` of a statement with its arguments.
pub record Pool (W : Type 0) : Type 0 where
  pub open_db : Text → Action W (Unit {0})
  pub ping : Action W (Unit {0})
  pub exec : Text → Action W (Unit {0})
  pub close_db : W → W

-- The exit status of a program.
abbrev pub Run : Type 0 → Type 0
Run W = W → ℕ × W

abbrev pub status_of : Result (Unit {0}) → ℕ
status_of (ok _) = 0
status_of (err _) = 1

module _ {W : Type 0} (pool : Pool W) where
  -- What all tools do around their work.
  unfoldable pub on_database : Environment → Run W → Run W
  on_database env work w = elim (load env) [
    | err _ ↦ (1, w)
    | ok cfg ↦
        let opened = pool.open_db (database_dsn cfg) w in
        elim opened.0 [
          | err _ ↦ (1, opened.1)
          | ok _ ↦ let r = work opened.1 in (r.0, pool.close_db r.1)
        ]
  ]
