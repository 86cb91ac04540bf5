-- ===== src/Tests/DrainRuns.antt =====
-- The theorem on the backlog at a concrete table, which no other transaction locks.
use go_message_dispatcher.Base.{
  ℕ, ◌≡◌, refl, List, [], ◌∷◌, ◌++◌, map, filter, take, drop, none, false, bytes,
}
use go_message_dispatcher.Domain.{Message}
use go_message_dispatcher.Repository.Cache.{cache_repository}
use go_message_dispatcher.Repository.Postgres.{eligible, fifo}
use go_message_dispatcher.Repository.Postgres.Fresh.{Keyed}
use go_message_dispatcher.Repository.Postgres.Order.{Sorted-Ordered}
use go_message_dispatcher.Repository.Postgres.Backlog.{IsBacklog}
use go_message_dispatcher.Service.{Service}
use go_message_dispatcher.Service.Ledger.{Outgoing}
use go_message_dispatcher.Service.Batch.{outgoing}
use go_message_dispatcher.Server.Assembly.{Outside}
use go_message_dispatcher.Server.Assembly.EndToEnd.{program}
use go_message_dispatcher.Server.Assembly.Drain.{IsReliable}
use go_message_dispatcher.Lock.{Locked, new_redis_lock}
use go_message_dispatcher.Scheduler
use go_message_dispatcher.Scheduler.{Scheduler, done, tick, extend_tick}
use go_message_dispatcher.Scheduler.Rounds.{ticks}
use go_message_dispatcher.Fleet.Batches.{instance_scheduler}
use go_message_dispatcher.Fleet.Program.{outside_client, fleet_service}
use go_message_dispatcher.Fleet.Worker.{worker_drains}
use go_message_dispatcher.Tests.FleetRuns.{lock_key, lock_key-apart}
use go_message_dispatcher.Tests.Outages.{memory-IsUp, memory-SetsOwnKey}
use go_message_dispatcher.Tests.CacheRuns.{json, cache, in_order, empty_cache}
use go_message_dispatcher.Tests.MemoryRedis.{Memory, memory, memory-IsRedis}
use go_message_dispatcher.Tests.MemoryTable.{sort_by, sort_by-perm, is_sorted-Sorted}
use go_message_dispatcher.Tests.PlainTable.{
  plain_table, plain_table-IsPostgres, is_sorted-sort_by, answered,
}
use go_message_dispatcher.Tests.ServerRuns.{accepting, accepting-IsProvider, tick_clock}
use go_message_dispatcher.Tests.TableRuns.{five}

abbrev pub backlog : List Message → List Message
backlog rows = sort_by fifo (filter eligible rows)

pub backlog-IsBacklog : (rows : List Message) → Keyed rows → IsBacklog (backlog rows) rows
backlog-IsBacklog rows keyed = record {
  listed = sort_by-perm fifo (filter eligible rows);
  ordered =
      Sorted-Ordered (backlog rows)
        (is_sorted-Sorted fifo (backlog rows) (is_sorted-sort_by (filter eligible rows)));
  keyed = keyed;
}

pub plain_table-IsReliable :
    IsReliable plain_table plain_table-IsPostgres accepting (λ _. Unit) (λ _. Unit)
unfolding plain_table-IsPostgres
plain_table-IsReliable = record {
  unlocked = λ w calm m. refl;
  query-answered = λ w calm. (_, _, answered 2 w, refl, refl);
  exec-answered = λ n w calm. (_, refl);
  send-answered = λ n c w open_now. (_, refl);
  query-calm = λ w calm. tt;
  exec-calm = λ n w calm. tt;
  send-open = λ n c w open_now. tt;
}

abbrev loaded : Outside (List Message) Memory (List Outgoing) ℕ
loaded = record { db = five.rows; redis = empty_cache; provider = []; clock = 0 }

abbrev dispatcher : Service (Outside (List Message) Memory (List Outgoing) ℕ)
dispatcher =
    program plain_table plain_table-IsPostgres (cache_repository cache in_order) accepting
      accepting-IsProvider tick_clock

-- The four eligible rows of the table, in the order of the queue.
queue_ids : map (λ m. m.id) (backlog five.rows) ≡ 4 ∷ 3 ∷ 5 ∷ 1 ∷ []
unfolding eligible fifo
queue_ids = refl

-- An instance that is about to start.
abbrev starting : Locked (Outside (List Message) Memory (List Outgoing) ℕ)
starting = record {
  lock = new_redis_lock lock_key 180_000_000_000 (bytes "a");
  world = record { db = five.rows; redis = empty_cache; provider = []; clock = 0 };
}

abbrev locked_dispatcher : Scheduler (Locked (Outside (List Message) Memory (List Outgoing) ℕ))
locked_dispatcher =
    instance_scheduler (outside_client memory)
      (fleet_service plain_table plain_table-IsPostgres memory json in_order accepting
        accepting-IsProvider tick_clock)
      120_000_000_000

-- The worker after its first batch, an extension tick, a tick and the end of its context.
abbrev stopped : Locked (Outside (List Message) Memory (List Outgoing) ℕ)
stopped =
    (Scheduler.process_messages locked_dispatcher (extend_tick ∷ tick ∷ done ∷ tick ∷ [])
      (record { processing = false; world = starting })).world

worker_drains_example :
    (stopped.world.provider ≡ [] ++ map outgoing (take 4 (backlog five.rows)))
    × IsBacklog (drop 4 (backlog five.rows)) stopped.world.db
    × (stopped.world.redis.store lock_key ≡ none)
    × (stopped.lock.acquired ≡ false)
unfolding plain_table-IsPostgres accepting-IsProvider memory-IsRedis ticks
worker_drains_example =
    worker_drains plain_table plain_table-IsPostgres memory memory-IsRedis memory-SetsOwnKey json
      in_order accepting accepting-IsProvider tick_clock lock_key lock_key-apart
      plain_table-IsReliable memory-IsUp 120_000_000_000 (extend_tick ∷ tick ∷ done ∷ tick ∷ [])
      (backlog five.rows) starting refl refl refl
      (backlog-IsBacklog five.rows (refl, (refl, (refl, (refl, (refl, tt)))))) tt tt refl
