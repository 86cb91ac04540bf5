-- ===== src/Tests/ServerRuns.antt =====
-- The theorems on the configuration, the routes and the start of the server, at concrete inputs.
use mathlib.Core.List.{Permᴰ}
use go_message_dispatcher.Base.{
  ℕ, ◌+◌, ◌≤◌, ◌≡◌, refl, ◌↔◌, ◌⊎◌, true, false, none, List, [], ◌∷◌, ◌++◌, map, ltb, if◌then◌else◌,
  length, All, text_eq, bytes, itoa, is_positive, external, ok, err,
}
use go_message_dispatcher.Config.{Environment, settings, load}
use go_message_dispatcher.Config.Bounds.{load_iff}
use go_message_dispatcher.Domain.{Message, SmsProvider}
use go_message_dispatcher.Handler.{MessageHandler, controlled, start_processing, stop_processing}
use go_message_dispatcher.Handler.Answers.{processing_twice}
use go_message_dispatcher.Repository.Postgres.{
  eligible, fifo, scan_rows, collect, get_unsent_messages, mark_as_sent,
}
use go_message_dispatcher.Repository.Postgres.Server.{Sorted}
use go_message_dispatcher.Repository.Postgres.Queue.{Ahead, waiting}
use go_message_dispatcher.Repository.Postgres.Marking.{row_sent}
use go_message_dispatcher.Repository.Cache.{cache_repository, set_delivery_cache, build_cache_key}
use go_message_dispatcher.Scheduler.Lifecycle.{Life, idle, controller}
use go_message_dispatcher.Scheduler.Lifecycle.Controller.{controller-IsController}
use go_message_dispatcher.Service.{Service, process_messages, process_batch, process_single_message}
use go_message_dispatcher.Service.Ledger.{Outgoing}
use go_message_dispatcher.Service.Batch.{outgoing}
use go_message_dispatcher.Server.Assembly.{Outside, message_service}
use go_message_dispatcher.Server.Assembly.EndToEnd.{IsProvider, program, front_dispatched}
use go_message_dispatcher.Server.Connection.{Connector}
use go_message_dispatcher.Tests.CacheRuns.{cache, in_order, empty_cache}
use go_message_dispatcher.Tests.MemoryRedis.{Memory}
use go_message_dispatcher.Tests.MemoryTable.{Table, table, table-IsPostgres}
use go_message_dispatcher.Tests.TableRuns.{five}

-- Only the batch size is set.
abbrev pub environment : Environment
environment = record {
  getenv = λ key. if text_eq key (bytes "BATCH_SIZE") then bytes "25" else [];
  parse_duration = λ t. none;
}

load_iff_example :
    let c = settings environment in
    (load environment ≡ ok c) ↔ (
      (is_positive c.app.batch_size ≡ true)
      × (is_positive c.app.processing_interval ≡ true)
      × (is_positive c.app.max_content_length ≡ true))
load_iff_example = load_iff environment

abbrev desk : MessageHandler Life
desk = record {
  message_service = record {
    process_messages = λ w. (ok tt, w);
    get_sent_messages_with_cache = λ w. (ok [], w);
  };
  processing_controller = controller;
  version = record { version = bytes "1"; build_time = []; git_commit = [] };
  db_health_checker = record { check_health = λ w. (ok tt, w) };
  redis_health_checker = record { check_health = λ w. (ok tt, w) };
}

processing_twice_example :
    ((start_processing desk idle).0.code ≡ 200
      → ((start_processing desk idle).1.running ≡ true)
        × (start_processing desk (start_processing desk idle).1 ≡ (
          controlled (bytes "running") (bytes "Message processing is already running"),
          (start_processing desk idle).1,
        )))
    × ((stop_processing desk idle).0.code ≡ 200
        → ((stop_processing desk idle).1.running ≡ false)
          × (stop_processing desk (stop_processing desk idle).1 ≡ (
            controlled (bytes "stopped") (bytes "Message processing is not running"),
            (stop_processing desk idle).1,
          )))
processing_twice_example = processing_twice desk controller-IsController idle

-- A server that answers from the ping number `up_from` on.
pub record Net : Type 0 where
  pub pings : ℕ
  pub slept : ℕ
  pub up_from : ℕ

abbrev pub net : Connector Net
net = record {
  ping = λ w.
      (if ltb w.pings w.up_from then err (external 1) else ok tt, record w { pings = w.pings + 1 });
  sleep = λ n w. record w { slept = w.slept + n };
}

abbrev pub net_at : ℕ → Net
net_at n = record { pings = 0; slept = 0; up_from = n }

-- A provider that accepts all texts.
abbrev pub accepting : SmsProvider (List Outgoing)
accepting = record {
  send_message = λ p c w.
      (ok (record { message = bytes "Accepted"; message_id = bytes "msg_1" }), w ++ (p, c) ∷ []);
}

unfoldable pub accepting-IsProvider : IsProvider accepting
accepting-IsProvider = record {
  attempts = λ w. w;
  accepted = λ w. w;
  attempts-send = λ n c w. refl;
  accepted-send_ok = λ n c w r e. refl;
  accepted-send_err = λ n c w e h. absurd (cc);
}

abbrev pub outside : Outside Table Memory (List Outgoing) ℕ
outside = record { db = five; redis = empty_cache; provider = []; clock = 0 }

abbrev pub tick_clock : ℕ → ℕ × ℕ
tick_clock t = (t, t + 1)

abbrev dispatcher : Service (Outside Table Memory (List Outgoing) ℕ)
dispatcher =
    program table table-IsPostgres (cache_repository cache in_order) accepting accepting-IsProvider
      tick_clock

all_dispatched : (process_messages dispatcher outside).0 ≡ ok tt
unfolding process_messages process_batch process_single_message message_service get_unsent_messages
    collect scan_rows eligible fifo mark_as_sent set_delivery_cache build_cache_key itoa
all_dispatched = refl

front_dispatched_example :
    (ms : List Message) × (rest : List Message) × Permᴰ
      (ms ++ rest)
      (waiting table table-IsPostgres 2 five)
    × Sorted fifo ms
    × Ahead ms rest
    × ((length ms ≡ 2) ⊎ ((length ms ≤ 2) × (rest ≡ [])))
    × ((process_messages dispatcher outside).1.provider ≡ [] ++ map outgoing ms)
    × All (λ m. row_sent ((process_messages dispatcher outside).1.db.rows) m.id ≡ true) ms
unfolding table-IsPostgres accepting-IsProvider
front_dispatched_example =
    front_dispatched table table-IsPostgres (cache_repository cache in_order) accepting
      accepting-IsProvider tick_clock outside all_dispatched
