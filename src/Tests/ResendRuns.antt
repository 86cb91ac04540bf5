-- ===== src/Tests/ResendRuns.antt =====
-- A run in which PostgreSQL fails an update and answers again at the next tick.
use go_message_dispatcher.Base.{
  ℕ, ◌≡◌, refl, inl, Bool, true, false, List, [], ◌∷◌, ◌++◌, map, take, drop, arith, external,
  is_ok, ok, err, if◌then◌else◌, Bool-cases, inr,
}
use go_message_dispatcher.Domain.{Message}
use go_message_dispatcher.Repository.Cache.{cache_repository}
use go_message_dispatcher.Repository.Postgres.{Db, mark_as_sent, eligible, fifo}
use go_message_dispatcher.Repository.Postgres.Server.{IsPostgres}
use go_message_dispatcher.Repository.Postgres.Backlog.{IsBacklog}
use go_message_dispatcher.Service.{Service, process_single_message, process_messages}
use go_message_dispatcher.Service.Ledger.{Outgoing}
use go_message_dispatcher.Service.Batch.{outgoing}
use go_message_dispatcher.Server.Assembly.{Outside, message_service}
use go_message_dispatcher.Server.Assembly.EndToEnd.{program}
use go_message_dispatcher.Server.Assembly.Drain.{IsReliable}
use go_message_dispatcher.Server.Assembly.Resend.{resent_after_failed_mark}
use go_message_dispatcher.Tests.CacheRuns.{cache, in_order, empty_cache}
use go_message_dispatcher.Tests.DrainRuns.{backlog, backlog-IsBacklog, plain_table-IsReliable}
use go_message_dispatcher.Tests.MemoryRedis.{Memory}
use go_message_dispatcher.Tests.PlainTable.{plain_table, plain_table-IsPostgres, answered}
use go_message_dispatcher.Tests.ServerRuns.{accepting, accepting-IsProvider, tick_clock}
use go_message_dispatcher.Tests.TableRuns.{row, five}

-- While it is broken, an update fails and changes nothing.
record Failing : Type 0 where
  rows : List Message
  broken : Bool

abbrev failing_table : Db Failing
failing_table = record {
  query = λ q w. ((plain_table.query q w.rows).0, w);
  exec = λ u w. (
    if w.broken then err (external 2) else (plain_table.exec u w.rows).0,
    record w { rows = if w.broken then w.rows else (plain_table.exec u w.rows).1 },
  );
  insert = λ p c w.
      ((plain_table.insert p c w.rows).0, record w { rows = (plain_table.insert p c w.rows).1 });
  ping = λ w. (ok tt, w);
}

failing_table-IsPostgres : IsPostgres failing_table
unfolding plain_table-IsPostgres
failing_table-IsPostgres = record {
  table = λ w. w.rows;
  free = λ w m. true;
  table-query = λ q w. refl;
  query-rows = λ q w. plain_table-IsPostgres.query-rows q w.rows;
  exec-ok = λ u w r e. elim (Bool-cases w.broken) [
    | inl on ↦ ground arith
    | inr off ↦ rw off (plain_table-IsPostgres.exec-ok u w.rows r (rw off at e))
  ];
  exec-affected = λ u w n e. elim (Bool-cases w.broken) [
    | inl on ↦ ground arith
    | inr off ↦ plain_table-IsPostgres.exec-affected u w.rows n (rw off at e)
  ];
  exec-err = λ u w x e. elim (Bool-cases w.broken) [
    | inl on ↦ inl (rw on refl)
    | inr off ↦ rw off (plain_table-IsPostgres.exec-err u w.rows x (rw off at e))
  ];
  insert-ok = λ p c w. plain_table-IsPostgres.insert-ok p c w.rows;
}

failing_table-IsReliable :
    IsReliable failing_table failing_table-IsPostgres accepting (λ w. w.broken ≡ false) (λ _. Unit)
unfolding failing_table-IsPostgres
failing_table-IsReliable = record {
  unlocked = λ w calm m. refl;
  query-answered = λ w calm. (_, _, answered 2 w.rows, refl, refl);
  exec-answered = λ n w calm. rw calm (plain_table-IsReliable.exec-answered n w.rows tt);
  send-answered = λ n c w open_now. (_, refl);
  query-calm = λ w calm. calm;
  exec-calm = λ n w calm. calm;
  send-open = λ n c w open_now. tt;
}

abbrev World : Type 0
World = Outside Failing Memory (List Outgoing) ℕ

abbrev dispatcher : Service World
dispatcher =
    program failing_table failing_table-IsPostgres (cache_repository cache in_order) accepting
      accepting-IsProvider tick_clock

abbrev broken : World
broken = record {
  db = record { rows = five.rows; broken = true };
  redis = empty_cache;
  provider = [];
  clock = 0;
}

abbrev repaired : World
repaired = record broken {
  db = record { rows = five.rows; broken = false };
  provider = outgoing (row 4 2 false) ∷ [];
}

resent_after_failed_mark_example :
    (is_ok (process_single_message dispatcher (row 4 2 false) broken).0 ≡ false)
    × ((process_messages dispatcher repaired).1.provider
        ≡ []
          ++ outgoing (row 4 2 false)
            ∷ outgoing (row 4 2 false)
            ∷ map outgoing (take 1 (drop 1 (backlog five.rows))))
    × IsBacklog
        (drop 1 (drop 1 (backlog five.rows)))
        (process_messages dispatcher repaired).1.db.rows
unfolding failing_table-IsPostgres accepting-IsProvider eligible fifo process_single_message
    message_service mark_as_sent
resent_after_failed_mark_example =
    resent_after_failed_mark failing_table failing_table-IsPostgres
      (cache_repository cache in_order) accepting accepting-IsProvider tick_clock
      failing_table-IsReliable (row 4 2 false) (drop 1 (backlog five.rows)) broken repaired _
      (external 2) (backlog-IsBacklog five.rows (refl, (refl, (refl, (refl, (refl, tt)))))) refl
      refl refl refl refl refl tt
