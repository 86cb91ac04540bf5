-- ===== src/Tests/PlainTable.antt =====
-- A table in memory that no one else locks, and that answers every query: its sort by the order of
-- the queue succeeds.
use go_message_dispatcher.Base.{
  ℕ, ◌≡◌, refl, true, false, none, List, [], ◌∷◌, map, arith, ok, Bool-cases, inl, inr,
}
use go_message_dispatcher.Domain.{Message}
use go_message_dispatcher.Repository.Postgres.{Db, fifo, unsent_query}
use go_message_dispatcher.Repository.Postgres.Server.{IsPostgres, limited}
use go_message_dispatcher.Tests.MemoryTable.{
  Table, insert_by, sort_by, all_after, is_sorted, matching, query, exec, insert, table-IsPostgres,
}

abbrev pub plain : List Message → Table
plain rows = record { rows = rows; locked = λ _. false; next_id = 0 }

abbrev pub plain_table : Db (List Message)
plain_table = record {
  query = λ q w. ((query q (plain w)).0, w);
  exec = λ u w. ((exec u (plain w)).0, (exec u (plain w)).1.rows);
  insert = λ p c w. ((insert p c (plain w)).0, (insert p c (plain w)).1.rows);
  ping = λ w. (ok tt, w);
}

unfoldable pub plain_table-IsPostgres : IsPostgres plain_table
unfolding table-IsPostgres
plain_table-IsPostgres = record {
  table = λ w. w;
  free = λ w m. true;
  table-query = λ q w. refl;
  query-rows = λ q w. table-IsPostgres.query-rows q (plain w);
  exec-ok = λ u w. table-IsPostgres.exec-ok u (plain w);
  exec-affected = λ u w. table-IsPostgres.exec-affected u (plain w);
  exec-err = λ u w. table-IsPostgres.exec-err u (plain w);
  insert-ok = λ p c w. table-IsPostgres.insert-ok p c (plain w);
}

fifo_total : (a b : Message) → fifo a b ≡ false → fifo b a ≡ true
unfolding fifo
fifo_total a b h = ground arith

fifo_trans : (a b c : Message) → fifo a b ≡ true → fifo b c ≡ true → fifo a c ≡ true
unfolding fifo
fifo_trans a b c h g = ground arith

all_after_trans :
    (a b : Message) (ms : List Message)
    → fifo a b ≡ true
    → all_after fifo b ms ≡ true
    → all_after fifo a ms ≡ true
all_after_trans a b [] h g = refl
all_after_trans a b (m ∷ ms) h g = ground (arith, fifo_trans a b m h, all_after_trans a b ms h)

all_after-insert :
    (a m : Message) (ms : List Message)
    → fifo a m ≡ true
    → all_after fifo a ms ≡ true
    → all_after fifo a (insert_by fifo m ms) ≡ true
all_after-insert a m [] h g = ground arith
all_after-insert a m (n ∷ ns) h g = ground (arith, all_after-insert a m ns h)

is_sorted-insert :
    (m : Message) (ms : List Message)
    → is_sorted fifo ms ≡ true
    → is_sorted fifo (insert_by fifo m ms) ≡ true
is_sorted-insert m [] h = refl
is_sorted-insert m (n ∷ ns) h = elim (Bool-cases (fifo m n)) [
  | inl before ↦ ground (arith, before, all_after_trans m n ns before)
  | inr after ↦
      ground (arith, after, all_after-insert n m ns (fifo_total m n after), is_sorted-insert m ns)
]

pub is_sorted-sort_by : (ms : List Message) → is_sorted fifo (sort_by fifo ms) ≡ true
is_sorted-sort_by [] = refl
is_sorted-sort_by (m ∷ ms) = is_sorted-insert m (sort_by fifo ms) (is_sorted-sort_by ms)

-- The query for unsent messages is answered with the first rows of the sorted list.
pub answered :
    (limit : ℕ) (w : List Message)
    → let q = unsent_query limit in
      (plain_table.query q w).0
      ≡ ok (record { scans = map ok (limited q.limit (matching q (plain w))); error = none })
answered limit w = rw (is_sorted-sort_by _) refl
