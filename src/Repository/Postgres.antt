-- ===== src/Repository/Postgres.antt =====
-- internal/repository/postgres.go: the repository over database/sql, which is a parameter. The SQL
-- of the source is a value: its WHERE clause as a test of a row, its ORDER BY as a test of two.
-- By migrations/001_initial_schema.sql `phone_number` and `content` are never NULL.
pub mod Server
pub mod Queue
pub mod Marking
pub mod Creation
pub mod Fresh
pub mod Keys
pub mod Order
pub mod Backlog
use go_message_dispatcher.Base.{
  ℕ, zero, suc, Bool, true, false, not, ◌&&◌, ◌||◌, Option, none, some, List, [], ◌∷◌, ◌++◌, ltb,
  leb, ◌==◌, if◌then◌else◌, Text, length, is_empty, Error, message, Result, ok, err, wrap, wrap_err,
  Action, pure, fail, ◌>>=◌, ◌>>◌, lift, wrapping,
}
use go_message_dispatcher.Domain.{Message, MessageRepository, HealthChecker}

-- `SELECT id, phone_number, content, sent, created_at FROM messages WHERE … ORDER BY … LIMIT …`
pub record Select : Type 0 where
  pub where_clause : Message → Bool
  pub before : Message → Message → Bool
  pub limit : Option ℕ
  pub skip_locked : Bool

-- `UPDATE messages SET … WHERE …`
pub record Update : Type 0 where
  pub where_clause : Message → Bool
  pub set_clause : Message → Message

-- What `rows.Next` and `rows.Scan` give, a row at a time, and what `rows.Err` says at the end.
pub record Rows : Type 0 where
  pub scans : List (Result Message)
  pub error : Option Error

pub record Db (W : Type 0) : Type 0 where
  pub query : Select → Action W Rows
  -- the result of `RowsAffected`
  pub exec : Update → Action W (Result ℕ)
  -- phone number and content of the new row, which is returned
  pub insert : Text → Text → Action W Message
  pub ping : Action W (Unit {0})

-- `LENGTH(…)` counts the characters of UTF-8: the bytes that do not continue one.
abbrev pub char_length : Text → ℕ
char_length [] = 0
char_length (c ∷ cs) = if leb 128 c && ltb c 192 then char_length cs else suc (char_length cs)

unfoldable pub eligible : Message → Bool
eligible m =
    not m.sent
    && not (is_empty m.phone_number)
    && not (is_empty m.content)
    && leb 10 (char_length m.phone_number)
    && leb (char_length m.phone_number) 20
    && leb (char_length m.content) 160

-- `ORDER BY created_at ASC, id ASC`
unfoldable pub fifo : Message → Message → Bool
fifo a b = ltb a.created_at b.created_at || (a.created_at == b.created_at && leb a.id b.id)

abbrev pub unsent_query : ℕ → Select
unsent_query limit = record {
  where_clause = eligible;
  before = fifo;
  limit = some limit;
  skip_locked = true;
}

abbrev pub sent_query : Select
sent_query = record {
  where_clause = λ m. m.sent;
  before = λ a b. leb a.created_at b.created_at;
  limit = none;
  skip_locked = false;
}

abbrev pub mark_update : ℕ → Update
mark_update message_id = record {
  where_clause = λ m. m.id == message_id && not m.sent;
  set_clause = λ m. record m { sent = true };
}

-- The loop over the rows, with the messages that it has appended.
unfoldable pub scan_rows : List (Result Message) → List Message → Result (List Message)
scan_rows [] messages = ok messages
scan_rows (ok m ∷ rs) messages = scan_rows rs (messages ++ m ∷ [])
scan_rows (err e ∷ rs) messages = err (wrap "failed to scan message row" [] e)

-- The test of `rows.Err` behind the loop.
abbrev pub checked : Option Error → List Message → Result (List Message)
checked none messages = ok messages
checked (some e) messages = err (wrap "error during row iteration" [] e)

abbrev pub require_row : ℕ → ℕ → Result (Unit {0})
require_row message_id zero =
    err (message "message %d was not found or already sent" (message_id ∷ []))
require_row message_id (suc _) = ok tt

module _ {W : Type 0} (db : Db W) where
  -- What the two queries do with their rows.
  unfoldable pub collect : Rows → Action W (List Message)
  unfolding scan_rows
  collect rows = do messages ← lift (scan_rows rows.scans []); lift (checked rows.error messages)

  unfoldable pub get_unsent_messages : ℕ → Action W (List Message)
  get_unsent_messages limit = do
    rows ← wrapping "failed to query unsent messages" [] (db.query (unsent_query limit))
    collect rows

  unfoldable pub mark_as_sent : ℕ → Action W (Unit {0})
  mark_as_sent message_id = do
    result ← wrapping "failed to mark message as sent" [] (db.exec (mark_update message_id))
    rows_affected ← wrapping "failed to get affected rows" [] (lift result)
    lift (require_row message_id rows_affected)

  unfoldable pub get_sent_messages : Action W (List Message)
  get_sent_messages = do
    rows ← wrapping "failed to query sent messages" [] (db.query sent_query)
    collect rows

  unfoldable pub create_message : Text → Text → Action W Message
  create_message phone_number content =
      if ltb 160 (length content)
      then fail (
          message "content exceeds maximum length of 160 characters (got %d)" (length content ∷ []))
      else if is_empty content
      then fail (message "content cannot be empty" [])
      else wrapping "failed to create message" [] (db.insert phone_number content)

  abbrev pub message_repository : MessageRepository W
  message_repository = record {
    get_unsent_messages = get_unsent_messages;
    mark_as_sent = mark_as_sent;
    get_sent_messages = get_sent_messages;
    create_message = create_message;
  }

  abbrev pub check_connection : Action W (Unit {0})
  check_connection = db.ping

  abbrev pub db_health : HealthChecker W
  db_health = record { check_health = db.ping }
