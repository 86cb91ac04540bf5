-- ===== src/Tests/FleetRuns.antt =====
-- The theorems on the fleet at a concrete input: the rows of the table in memory, two and more
-- instances whose values are their numbers, and a provider that accepts all texts.
use go_message_dispatcher.Base.{
  ℕ, ◌≡◌, refl, ◌≢◌, Bool, true, false, none, List, [], ◌∷◌, ◌++◌, arith, ◌==◌, Text, bytes,
  text_eq, text_eq_iff, Bool-cases, inl, inr, itoa, map, All, Elem,
}
use go_message_dispatcher.Lock.{acquire, new_redis_lock}
use go_message_dispatcher.Repository.Cache.{build_cache_key, set_delivery_cache}
use go_message_dispatcher.Repository.Postgres.{
  get_unsent_messages, collect, scan_rows, eligible, fifo, mark_as_sent,
}
use go_message_dispatcher.Scheduler.{process_batch}
use go_message_dispatcher.Server.Assembly.{Outside, message_service}
use go_message_dispatcher.Fleet.{Fleet, Reach}
use go_message_dispatcher.Fleet.Invariant.{Settled, texts}
use go_message_dispatcher.Fleet.Once.{IsFresh}
use go_message_dispatcher.Fleet.Batches.{batched, batch_runs, instance_state, instance_scheduler}
use go_message_dispatcher.Fleet.Program.{
  SetsOwnKey, KeyedTable, fleet_service, fleet_ledger, outside_client, outside_client-IsRedis,
  dispatched_once,
}
use go_message_dispatcher.Repository.Postgres.Marking.{row_sent}
use go_message_dispatcher.Tests.CacheRuns.{json, in_order}
use go_message_dispatcher.Tests.MemoryRedis.{Memory, memory, memory-IsRedis}
use go_message_dispatcher.Tests.MemoryTable.{Table, table, table-IsPostgres}
use go_message_dispatcher.Tests.ServerRuns.{accepting, accepting-IsProvider, tick_clock, outside}
use go_message_dispatcher.Service.{Service, process_single_message}
use go_message_dispatcher.Service.Batch.{outgoing}
use go_message_dispatcher.Service.Ledger.{Outgoing, IsLedger}

memory-SetsOwnKey : SetsOwnKey memory memory-IsRedis
unfolding memory-IsRedis
memory-SetsOwnKey k v t w j other = elim (Bool-cases (text_eq j k)) [
  | inl same ↦ absurd (other ((text_eq_iff j k).0 same))
  | inr differ ↦ ground (arith, differ)
]

abbrev pub lock_key : Text
lock_key = bytes "L"

pub lock_key-apart : (n : ℕ) → lock_key ≢ build_cache_key n
unfolding build_cache_key
lock_key-apart n e = absurd (ground arith)

abbrev instances : Fleet (Outside Table Memory (List Outgoing) ℕ)
instances = record {
  cluster = record {
    world = outside;
    locks = λ i. new_redis_lock lock_key 180_000_000_000 (i ∷ []);
    busy = λ _. false;
  };
  todo = λ _. none;
  history = [];
}

abbrev dispatcher : Service (Outside Table Memory (List Outgoing) ℕ)
dispatcher =
    fleet_service table table-IsPostgres memory json in_order accepting accepting-IsProvider
      tick_clock

abbrev dispatcher-IsLedger : IsLedger dispatcher
dispatcher-IsLedger =
    fleet_ledger table table-IsPostgres memory json in_order accepting accepting-IsProvider
      tick_clock

instances-IsFresh :
    IsFresh
      (outside_client memory)
      (outside_client-IsRedis memory memory-IsRedis)
      lock_key
      dispatcher
      dispatcher-IsLedger
      (KeyedTable table-IsPostgres)
      instances
unfolding table-IsPostgres
instances-IsFresh = record {
  start = record { keyed = λ i. refl; distinct = λ i j e. cc; quiet = λ i. refl };
  good = (refl, (refl, (refl, (refl, (refl, tt)))));
  unused = refl;
}

-- The first batch of instance 0.
abbrev after_batch : Fleet (Outside Table Memory (List Outgoing) ℕ)
after_batch = batched (outside_client memory) dispatcher 0 instances

batch_runs_example :
    Reach
      (outside_client memory)
      (outside_client-IsRedis memory memory-IsRedis)
      lock_key
      dispatcher
      dispatcher-IsLedger
      (KeyedTable table-IsPostgres)
      instances
      after_batch
    × (process_batch
          (instance_scheduler (outside_client memory) dispatcher 120_000_000_000)
          (instance_state instances 0)
        ≡ instance_state after_batch 0)
    × (after_batch.cluster.busy 0 ≡ false)
    × ((j : ℕ) → (j == 0) ≡ false → after_batch.cluster.locks j ≡ instances.cluster.locks j)
batch_runs_example =
    batch_runs (outside_client memory) (outside_client-IsRedis memory memory-IsRedis) lock_key
      dispatcher dispatcher-IsLedger (KeyedTable table-IsPostgres) 120_000_000_000 instances 0 refl

dispatched_once_example :
    (after_batch.cluster.world.provider ≡ [] ++ texts after_batch.history)
    × Settled after_batch.history
    × All
        (λ e. e.1 ≡ true → Elem (outgoing e.0) after_batch.cluster.world.provider)
        after_batch.history
    × All
        (λ e. e.1 ≡ true → row_sent after_batch.cluster.world.db.rows e.0.id ≡ true)
        after_batch.history
unfolding table-IsPostgres accepting-IsProvider
dispatched_once_example =
    dispatched_once table table-IsPostgres memory memory-IsRedis memory-SetsOwnKey json in_order
      accepting accepting-IsProvider tick_clock lock_key lock_key-apart instances after_batch
      instances-IsFresh batch_runs_example.0

-- Two messages have been handed over, each of which succeeded.
two_handed :
    map {B = ℕ × Bool} (λ e. (e.0.id, e.1)) after_batch.history ≡ (5, true) ∷ (3, true) ∷ []
unfolding acquire get_unsent_messages collect scan_rows eligible fifo process_single_message
    mark_as_sent set_delivery_cache build_cache_key itoa message_service
two_handed = refl
