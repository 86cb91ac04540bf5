-- ===== src/Tests/TableRuns.antt =====
-- The theorems on the repository at a concrete table.
use mathlib.Core.List.{Permᴰ}
use go_message_dispatcher.Base.{
  All, ◌≢◌, ℕ, zero, suc, ◌≤◌, ◌<◌, ◌≡◌, refl, ◌⊎◌, Bool, true, false, List, [], ◌∷◌, ◌++◌, arith,
  Text, bytes, length, is_ok, message, ok, err, ◌==◌,
}
use go_message_dispatcher.Domain.{Message}
use go_message_dispatcher.Domain.Validation.{is_valid}
use go_message_dispatcher.Repository.Postgres.{
  eligible, fifo, scan_rows, collect, get_unsent_messages, mark_as_sent, create_message,
}
use go_message_dispatcher.Repository.Postgres.Server.{Sorted}
use go_message_dispatcher.Repository.Postgres.Queue.{
  Ahead, waiting, get_unsent_messages_lem, eligible_multibyte,
}
use go_message_dispatcher.Repository.Postgres.Marking.{row_sent, unsent_rows, mark_as_sent_ok}
use go_message_dispatcher.Repository.Postgres.Creation.{created_stranded}
use go_message_dispatcher.Service.Ledger.{set_sent}
use go_message_dispatcher.Tests.MemoryTable.{Table, table, table-IsPostgres, new_row}

abbrev pub row : ℕ → ℕ → Bool → Message
row n at sent = record {
  id = n;
  phone_number = bytes "+1234567890";
  content = bytes "Hi";
  sent = sent;
  created_at = at;
}

-- Five rows: the second is sent, the fourth is locked by another transaction.
abbrev pub five : Table
five = record {
  rows = row 1 9 false ∷ row 2 1 true ∷ row 3 4 false ∷ row 4 2 false ∷ row 5 4 false ∷ [];
  locked = λ m. m.id == 4;
  next_id = 6;
}

abbrev oldest : List Message
oldest = row 3 4 false ∷ row 5 4 false ∷ []

five_unsent : (get_unsent_messages table 2 five).0 ≡ ok oldest
unfolding get_unsent_messages collect scan_rows eligible fifo
five_unsent = refl

get_unsent_messages_lem_example :
    ((get_unsent_messages table 2 five).1.rows ≡ five.rows)
    × ((rest : List Message) × Permᴰ (oldest ++ rest) (waiting table table-IsPostgres 2 five)
        × Sorted fifo oldest
        × Ahead oldest rest
        × ((length oldest ≡ 2) ⊎ ((length oldest ≤ 2) × (rest ≡ []))))
unfolding table-IsPostgres
get_unsent_messages_lem_example =
    get_unsent_messages_lem table table-IsPostgres 2 five oldest five_unsent

abbrev repeated : ℕ → Text → Text
repeated zero t = []
repeated (suc n) t = t ++ repeated n t

-- A content of 81 characters of two bytes.
abbrev accented : Message
accented = record (row 1 9 false) { content = repeated 81 (195 ∷ 169 ∷ []) }

eligible_multibyte_example :
    (eligible accented ≡ true)
    × (is_ok (is_valid accented) ≡ false)
    × (create_message table (accented.phone_number) (accented.content) five ≡ (
      err (message "content exceeds maximum length of 160 characters (got %d)" (162 ∷ [])),
      five,
    ))
eligible_multibyte_example =
    eligible_multibyte table accented five refl (omega arith) (omega arith) (omega arith)
      (omega arith)

five_marked : (mark_as_sent table 3 five).0 ≡ ok tt
unfolding mark_as_sent
five_marked = refl

mark_as_sent_ok_example :
    (0 < length (unsent_rows 3 five.rows))
    × (row_sent (mark_as_sent table 3 five).1.rows ≡ set_sent 3 (row_sent five.rows))
    × (unsent_rows 3 (mark_as_sent table 3 five).1.rows ≡ [])
unfolding table-IsPostgres
mark_as_sent_ok_example = mark_as_sent_ok table table-IsPostgres 3 five five_marked

create_ok :
    (create_message table (bytes "+1234567890") (bytes "Hi") five).0
    ≡ ok (new_row (bytes "+1234567890") (bytes "Hi") five)
unfolding create_message
create_ok = refl

created_stranded_example :
    let m = new_row (bytes "123") (bytes "Hi") five in
    let r = create_message table (bytes "123") (bytes "Hi") five in
    (r.0 ≡ ok m)
    × (r.1.rows ≡ five.rows ++ m ∷ [])
    × ((limit : ℕ) (v : Table) (ms : List Message)
        → (get_unsent_messages table limit v).0 ≡ ok ms
        → All (λ n. n.phone_number ≢ bytes "123") ms)
unfolding table-IsPostgres
created_stranded_example =
    created_stranded table (bytes "123") (bytes "Hi") five table-IsPostgres
      (new_row (bytes "123") (bytes "Hi") five) (omega arith) (omega arith) (omega arith) refl
