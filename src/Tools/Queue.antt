-- ===== src/Tools/Queue.antt =====
-- cmd/clear-messages/main.go and cmd/add-single-message/main.go: the table of the messages from the
-- command line. The statements are texts for the database, which is a parameter.
use go_message_dispatcher.Base.{ℕ, Text, bytes, Action}
use go_message_dispatcher.Config.{Environment}
use go_message_dispatcher.Tools.{Pool, Run, status_of, on_database}

abbrev pub truncate_statement : Text
truncate_statement = bytes "TRUNCATE TABLE messages RESTART IDENTITY"

abbrev pub single_phone : Text
single_phone = bytes "+905554444444"

abbrev pub single_content : Text
single_content = bytes "Test message 5 - retry test"

module _ {W : Type 0} (pool : Pool W) where
  unfoldable pub clear_messages : Environment → Run W
  clear_messages env =
      on_database pool env (λ w. let r = pool.exec truncate_statement w in (status_of r.0, r.1))

  -- The INSERT of a number and a content, and the count of the unsent rows, are parameters. Their
  -- errors are logged.
  unfoldable pub add_single_message :
      (Text → Text → Action W (Unit {0})) → Action W ℕ → Environment → Run W
  add_single_message insert count_unsent env =
      on_database pool env (λ w. (0, (count_unsent (insert single_phone single_content w).1).1))
