-- ===== src/Tests/OutageRuns.antt =====
-- The theorem on an outage of Redis, at a concrete input.
use go_message_dispatcher.Base.{
  ℕ, ◌≡◌, refl, false, none, List, [], ◌∷◌, bytes, external, ok, err, is_ok, if◌then◌else◌,
}
use go_message_dispatcher.Domain.{Message, MessageService}
use go_message_dispatcher.Handler.{VersionInfo}
use go_message_dispatcher.Lock.{Locked, new_redis_lock}
use go_message_dispatcher.Redis.{RedisClient}
use go_message_dispatcher.Repository.Cache.{new_redis_cache_repository}
use go_message_dispatcher.Scheduler.{tick, extend_tick}
use go_message_dispatcher.Scheduler
use go_message_dispatcher.Scheduler.Lifecycle.{idle, start}
use go_message_dispatcher.Service.{Service}
use go_message_dispatcher.Service.Ledger.{Outgoing}
use go_message_dispatcher.Server.Application.{Process}
use go_message_dispatcher.Server.Assembly.{Outside}
use go_message_dispatcher.Server.Health.{health_answer, unseen_outage}
use go_message_dispatcher.Fleet.Batches.{instance_scheduler}
use go_message_dispatcher.Fleet.Program.{outside_client, fleet_service}
use go_message_dispatcher.Tests.CacheRuns.{json, in_order}
use go_message_dispatcher.Tests.FleetRuns.{lock_key}
use go_message_dispatcher.Tests.PlainTable.{plain_table, plain_table-IsPostgres}
use go_message_dispatcher.Tests.ServerRuns.{accepting, accepting-IsProvider, tick_clock}
use go_message_dispatcher.Tests.TableRuns.{five}

-- A client that reaches no server.
abbrev unreachable : RedisClient ℕ
unreachable = record {
  set_nx = λ k v t w. (err (external 1), w);
  eval = λ s k v n w. (err (external 1), w);
  set = λ k v t w. (err (external 1), w);
  get = λ k w. (err (external 1), w);
  exec_gets = λ ks w. (record { error = none; replies = [] }, w);
  ping = λ w. (err (external 1), w);
}

abbrev World : Type 0
World = Outside (List Message) ℕ (List Outgoing) ℕ

abbrev dispatcher : Service World
dispatcher =
    fleet_service plain_table plain_table-IsPostgres unreachable json in_order accepting
      accepting-IsProvider tick_clock

abbrev starting : Locked World
starting = record {
  lock = new_redis_lock lock_key 180_000_000_000 (bytes "a");
  world = record { db = five.rows; redis = 0; provider = []; clock = 0 };
}

-- The worker after its first batch, an extension tick and a tick.
abbrev after : Locked World
after =
    (Scheduler.process_messages
      (instance_scheduler (outside_client unreachable) dispatcher 120_000_000_000)
      (extend_tick ∷ tick ∷ []) (record { processing = false; world = starting })).world

abbrev answers : MessageService World
answers = record {
  process_messages = λ w. (ok tt, w);
  get_sent_messages_with_cache = λ w. (ok [], w);
}

abbrev version : VersionInfo
version = record { version = bytes "1"; build_time = []; git_commit = [] }

abbrev process : Process World
process = record { life = start idle; outside = starting.world }

unseen_outage_example :
    (after.world.provider ≡ [])
    × (after.world.db ≡ five.rows)
    × ((health_answer plain_table
          (new_redis_cache_repository unreachable json)
          version
          answers
          process).0.code
        ≡ (if is_ok (plain_table.ping five.rows).0 then 200 else 503))
unseen_outage_example =
    unseen_outage plain_table (new_redis_cache_repository unreachable json) version answers
      (λ k v t w. (external 1, refl)) dispatcher 120_000_000_000 (extend_tick ∷ tick ∷ []) starting
      process
