-- ===== src/Tests/ToolRuns.antt =====
-- The theorems on the tools, at concrete inputs.
use go_message_dispatcher.Base.{
  ◌≤◌, ◌≡◌, refl, ◌↔◌, ◌⊎◌, true, false, some, List, [], ◌∷◌, ◌++◌, arith, Text, bytes, pos, ok,
  is_ok, Action, All, length,
}
use go_message_dispatcher.Config.{Config, database_dsn}
use go_message_dispatcher.Tools.Migrate.{
  Shell, run_migration_file, run_files, run_migrations, migrate_main,
}
use go_message_dispatcher.Tools.Migrate.Again.{IsShell}
use go_message_dispatcher.Tools.Queue.{truncate_statement, clear_messages}
use go_message_dispatcher.Tools.Exit.{Opens, exit_status}
use go_message_dispatcher.Tools.TestMessages.{Dice, random_phone, add_messages}
use go_message_dispatcher.Tools.TestMessages.Form.{IsFair, IsSendable}
use go_message_dispatcher.Tools.TestMessages.Loop.{IsHanding, add_messages_lem}
use go_message_dispatcher.Tests.ServerRuns.{environment}

-- All files have one text, and the database keeps what it has executed.
abbrev shell : Shell (List Text)
shell = record {
  read_file = λ f w. (ok (bytes "CREATE TABLE"), w);
  pool = record {
    open_db = λ dsn w. (ok tt, w);
    ping = λ w. (ok tt, w);
    exec = λ c w. (ok tt, w ++ c ∷ []);
    close_db = λ w. w;
  };
}

unfoldable shell-IsShell : IsShell shell
shell-IsShell = record {
  contents = λ f. some (bytes "CREATE TABLE");
  executed = λ w. w;
  read-ok = λ f c w h. cc;
  executed-read = λ f w. refl;
  executed-ok = λ c w h. refl;
}

migrates : (w : List Text) → (run_migrations shell w).0 ≡ ok tt
unfolding run_migrations run_files run_migration_file
migrates w = refl

exit_status_example :
    (((migrate_main shell false environment []).0 ≡ 0)
      ↔ ((false ≡ true) ⊎ ((cfg : Config) × Opens (shell.pool) environment [] cfg)))
    × (((clear_messages (shell.pool) environment []).0 ≡ 0) ↔ (
        (cfg : Config) × Opens (shell.pool) environment [] cfg
        × (is_ok (shell.pool.exec truncate_statement (shell.pool.open_db (database_dsn cfg) []).1).0
            ≡ true)))
exit_status_example = exit_status shell false environment []

-- Dice that always show the lowest number, and a table that keeps all rows.
abbrev dice : Dice (List (Text × Text))
dice = record { intn = λ n w. (0, w); int63n = λ n w. (0, w) }

abbrev insert : Text → Text → Action (List (Text × Text)) (Unit {0})
insert p c w = (ok tt, w ++ (p, c) ∷ [])

dice-IsFair : IsFair dice
dice-IsFair n w h = (h, h)

unfoldable dice-IsHanding : IsHanding dice insert
unfolding random_phone
dice-IsHanding = record {
  handed = λ w. w;
  handed-insert = λ p c w. refl;
  handed-random_phone = λ w. refl;
}

add_messages_lem_example :
    (rows : List (Text × Text)) × ((add_messages dice insert (pos 7) 3 0 []).1 ≡ [] ++ rows)
    × All IsSendable rows
    × (length rows ≤ 3)
    × (is_ok (add_messages dice insert (pos 7) 3 0 []).0 ≡ true → length rows ≡ 3)
unfolding dice-IsHanding
add_messages_lem_example =
    add_messages_lem dice insert dice-IsHanding (pos 7) dice-IsFair (omega arith) 3 0 []
      (omega arith)
