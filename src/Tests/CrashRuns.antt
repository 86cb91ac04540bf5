-- ===== src/Tests/CrashRuns.antt =====
-- A run of a fleet in which Redis is down at first, an instance dies in the middle of a batch, and
-- others go on.
use mathlib.Core.Bool.{false≢true}
use go_message_dispatcher.Base.{
  ℕ, ◌≡◌, refl, sym, ◌∙◌, arith, Bool, true, false, none, List, [], ◌∷◌, ◌++◌, map, take, drop,
  itoa,
}
use go_message_dispatcher.Domain.{Message}
use go_message_dispatcher.Lock.{acquire, new_redis_lock}
use go_message_dispatcher.Repository.Cache.{build_cache_key, set_delivery_cache}
use go_message_dispatcher.Repository.Postgres.{
  get_unsent_messages, collect, scan_rows, eligible, fifo, mark_as_sent,
}
use go_message_dispatcher.Repository.Postgres.Backlog.{IsBacklog}
use go_message_dispatcher.Server.Assembly.{Outside, message_service}
use go_message_dispatcher.Server.Assembly.EndToEnd.{program-IsLedger}
use go_message_dispatcher.Service.{Service, process_single_message}
use go_message_dispatcher.Service.Ledger.{Outgoing, IsLedger}
use go_message_dispatcher.Service.Batch.{outgoing}
use go_message_dispatcher.Fleet.{
  Fleet, moved, taken, fetched, handled, cut_unmarked, Reach, here, next, takes, reads, sends,
  cuts_unmarked, lapses, outside,
}
use go_message_dispatcher.Fleet.Failover.{turns, fleet_drains}
use go_message_dispatcher.Fleet.Once.{IsFresh}
use go_message_dispatcher.Fleet.Program.{
  KeyedTable, fleet_service, fleet_ledger, outside_client, outside_client-IsRedis,
}
use go_message_dispatcher.Tests.CacheRuns.{json, in_order}
use go_message_dispatcher.Tests.DrainRuns.{backlog, backlog-IsBacklog, plain_table-IsReliable}
use go_message_dispatcher.Tests.FleetRuns.{lock_key, lock_key-apart}
use go_message_dispatcher.Tests.PlainTable.{plain_table, plain_table-IsPostgres}
use go_message_dispatcher.Tests.ServerRuns.{accepting, accepting-IsProvider, tick_clock}
use go_message_dispatcher.Tests.Outages.{memory-IsUp, memory-SetsOwnKey}
use go_message_dispatcher.Tests.MemoryRedis.{Memory, memory, memory-IsRedis}
use go_message_dispatcher.Tests.TableRuns.{row, five}

abbrev World : Type 0
World = Outside (List Message) Memory (List Outgoing) ℕ

abbrev dispatcher : Service World
dispatcher =
    fleet_service plain_table plain_table-IsPostgres memory json in_order accepting
      accepting-IsProvider tick_clock

abbrev dispatcher-IsLedger : IsLedger dispatcher
dispatcher-IsLedger =
    fleet_ledger plain_table plain_table-IsPostgres memory json in_order accepting
      accepting-IsProvider tick_clock

abbrev redis_at : Bool → Memory
redis_at down = record { store = λ _. none; down = down }

abbrev instances : Fleet World
instances = record {
  cluster = record {
    world = record { db = five.rows; redis = redis_at true; provider = []; clock = 0 };
    locks = λ i. new_redis_lock lock_key 180_000_000_000 (i ∷ []);
    busy = λ _. false;
  };
  todo = λ _. none;
  history = [];
}

instances-IsFresh :
    IsFresh
      (outside_client memory)
      (outside_client-IsRedis memory memory-IsRedis)
      lock_key
      dispatcher
      dispatcher-IsLedger
      (KeyedTable plain_table-IsPostgres)
      instances
unfolding plain_table-IsPostgres
instances-IsFresh = record {
  start = record { keyed = λ i. refl; distinct = λ i j e. cc; quiet = λ i. refl };
  good = (refl, (refl, (refl, (refl, (refl, tt)))));
  unused = refl;
}

-- A batch with the messages 4 and 3, which instance `i` has read.
abbrev begun : Fleet World → ℕ → Fleet World
begun f i =
    let client = outside_client memory in fetched client dispatcher (taken client dispatcher f i) i

-- Redis is down when instance 2 tries to take the lock, and comes up.
abbrev refused : Fleet World
refused = taken (outside_client memory) dispatcher instances 2

abbrev answering : World
answering = record refused.cluster.world { redis = redis_at false }

abbrev up_again : Fleet World
up_again = record refused { cluster = moved refused.cluster answering }

-- Instance 0 dies when it has handed over the first message.
abbrev dead : Fleet World
dead = cut_unmarked dispatcher (begun up_again 0) 0 (row 4 2 false)

-- Then its key lapses.
abbrev emptied : World
emptied = record dead.cluster.world { redis = redis_at false }

abbrev lapsed : Fleet World
lapsed = record dead { cluster = moved dead.cluster emptied }

-- Instance 1 begins with the same message.
abbrev repeated : Fleet World
repeated =
    handled (outside_client memory) dispatcher (begun lapsed 1) 1 (row 4 2 false)
      (row 3 4 false ∷ [])

-- The message has been handed over twice, and the first attempt does not count as one that has
-- succeeded.
handed_twice :
    map {B = ℕ × Bool} (λ e. (e.0.id, e.1)) repeated.history ≡ (4, true) ∷ (4, false) ∷ []
unfolding acquire get_unsent_messages collect scan_rows eligible fifo process_single_message
    mark_as_sent set_delivery_cache build_cache_key itoa message_service
handed_twice = refl

abbrev FromStart : Fleet World → Type 0
FromStart =
    Reach (outside_client memory) (outside_client-IsRedis memory memory-IsRedis) lock_key dispatcher
      dispatcher-IsLedger (KeyedTable plain_table-IsPostgres) instances

up_again-Reach : FromStart up_again
unfolding plain_table-IsPostgres accepting-IsProvider program-IsLedger outside_client-IsRedis
    memory-IsRedis acquire message_service
up_again-Reach = next (next here (takes 2 refl)) (
    outside answering refl
      (record { attempts = refl; accepted = λ o had. had; kept = λ k on. on; good = λ g. g }))

dead-Reach : FromStart dead
unfolding acquire get_unsent_messages collect scan_rows eligible fifo process_single_message
    mark_as_sent message_service
dead-Reach =
    next (next (next up_again-Reach (takes 0 refl)) (reads 0 refl refl))
      (cuts_unmarked 0 (row 4 2 false) (row 3 4 false ∷ []) refl refl)

none_busy : (i : ℕ) → dead.cluster.busy i ≡ false
unfolding acquire
none_busy i = ground arith

lapsed-Reach : FromStart lapsed
unfolding plain_table-IsPostgres accepting-IsProvider program-IsLedger outside_client-IsRedis
    memory-IsRedis
lapsed-Reach = next dead-Reach (
    lapses emptied refl (λ i on. absurd (false≢true (sym (none_busy i) ∙ on)))
      (record { attempts = refl; accepted = λ o had. had; kept = λ k on. on; good = λ g. g }))

repeated-Reach : FromStart repeated
unfolding acquire get_unsent_messages collect scan_rows eligible fifo process_single_message
    mark_as_sent message_service set_delivery_cache build_cache_key itoa
repeated-Reach =
    next (next (next lapsed-Reach (takes 1 refl)) (reads 1 refl refl))
      (sends 1 (row 4 2 false) (row 3 4 false ∷ []) refl refl)

-- The rows are those of the start.
lapsed-IsBacklog : IsBacklog (backlog five.rows) lapsed.cluster.world.db
unfolding get_unsent_messages message_service acquire eligible fifo collect
lapsed-IsBacklog = backlog-IsBacklog five.rows (refl, (refl, (refl, (refl, (refl, tt)))))

-- Two other instances send all four messages.
abbrev taken_over : Fleet World
taken_over = turns (outside_client memory) dispatcher (1 ∷ 2 ∷ []) lapsed

fleet_drains_example :
    FromStart taken_over
    × (taken_over.cluster.world.provider
        ≡ lapsed.cluster.world.provider ++ map outgoing (take 4 (backlog five.rows)))
    × IsBacklog (drop 4 (backlog five.rows)) taken_over.cluster.world.db
    × (taken_over.cluster.world.redis.store lock_key ≡ none)
unfolding plain_table-IsPostgres accepting-IsProvider memory-IsRedis acquire
fleet_drains_example =
    fleet_drains plain_table plain_table-IsPostgres memory memory-IsRedis memory-SetsOwnKey json
      in_order accepting accepting-IsProvider tick_clock lock_key lock_key-apart
      plain_table-IsReliable memory-IsUp instances instances-IsFresh (1 ∷ 2 ∷ []) lapsed
      (backlog five.rows) lapsed-Reach (refl, (refl, tt)) refl lapsed-IsBacklog tt tt refl
