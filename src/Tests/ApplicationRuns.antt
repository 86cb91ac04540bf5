-- ===== src/Tests/ApplicationRuns.antt =====
-- The theorems on the start and the routes of the server, at concrete inputs.
use go_message_dispatcher.Base.{
  atoi, ◌<◌, ◌≡◌, refl, ◌⊎◌, true, false, none, some, [], Text, bytes, ℤ, if◌then◌else◌, Error, ok,
  err, is_positive,
}
use go_message_dispatcher.Config.{load, settings, validate, get_env, get_env_int, get_env_duration}
use go_message_dispatcher.Domain.{MessageService, HealthChecker}
use go_message_dispatcher.Handler.{VersionInfo, Reply, version_of}
use go_message_dispatcher.Lock.{DistributedLock}
use go_message_dispatcher.Scheduler.{active_lock}
use go_message_dispatcher.Scheduler.Lifecycle.{idle, start, stop}
use go_message_dispatcher.Server.Application.{
  Platform, Process, Application, message_scheduler, prepare, init_database, init_redis,
  new_application,
}
use go_message_dispatcher.Server.Application.Startup.{new_application_lem}
use go_message_dispatcher.Server.Connection.{connect, tries}
use go_message_dispatcher.Server.Routes.{Request, route}
use go_message_dispatcher.Server.Routes.Control.{handler, route_control}
use go_message_dispatcher.Tests.ServerRuns.{environment, Net, net, net_at}

-- Both servers answer the second ping.
abbrev platform : Platform Net
platform = record {
  build_logger = λ level w. (ok tt, w);
  open_db = λ dsn w. (ok tt, w);
  db = net;
  close_db = λ w. (ok tt, w);
  redis = λ addr password n. net;
  close_redis = λ w. (ok tt, w);
  shutdown_http = λ w. (ok tt, w);
}

abbrev service : MessageService Net
service = record {
  process_messages = λ w. (ok tt, w);
  get_sent_messages_with_cache = λ w. (ok [], w);
}

abbrev always : Text → ℤ → DistributedLock Net
always key ttl = record {
  acquire = λ w. (ok tt, w);
  release = λ w. (ok tt, w);
  extend = λ w. (ok tt, w);
  is_held = λ w. false;
}

abbrev fresh : Process Net
fresh = record { life = idle; outside = net_at 1 }

abbrev app : Application Net
app = record {
  config = settings environment;
  scheduler = message_scheduler (settings environment) service always;
}

launches : (new_application platform environment service always fresh).0 ≡ ok app
unfolding new_application prepare init_database init_redis connect tries load validate get_env
    get_env_int atoi get_env_duration
launches = refl

new_application_lem_example :
    let launched = new_application platform environment service always fresh in
    ((a : Application Net)
      → launched.0 ≡ ok a
      → (load environment ≡ ok a.config)
        × (is_positive a.config.app.batch_size ≡ true)
        × (is_positive a.config.app.max_content_length ≡ true)
        × (0 < a.scheduler.interval)
        × (active_lock a.scheduler ≡ (
            if a.config.app.distributed_lock_enabled
            then some (always a.config.app.distributed_lock_key a.config.app.distributed_lock_ttl)
            else none))
        × (launched.1.life ≡ start idle))
    × ((e : Error) → launched.0 ≡ err e → launched.1.life ≡ idle)
new_application_lem_example = new_application_lem service always platform environment fresh

abbrev stop_request : Request
stop_request = record { method = bytes "POST"; path = bytes "/api/messaging/stop" }

abbrev checker : HealthChecker Net
checker = record { check_health = λ w. (ok tt, w) }

abbrev version : VersionInfo
version = record { version = bytes "1"; build_time = []; git_commit = [] }

abbrev running : Process Net
running = record fresh { life = start idle }

-- Nothing is served elsewhere but a version.
abbrev elsewhere : Request → Process Net → Reply × Process Net
elsewhere r p = (version_of (handler service version checker checker), p)

route_control_example :
    let q = (route (handler service version checker checker) elsewhere stop_request running).1 in
    (q.life ≡ running.life)
    ⊎ ((stop_request.method ≡ bytes "POST")
        × (stop_request.path ≡ bytes "/api/messaging/start")
        × (running.life.running ≡ false)
        × (q.life ≡ start running.life))
    ⊎ ((stop_request.method ≡ bytes "POST")
        × (stop_request.path ≡ bytes "/api/messaging/stop")
        × (running.life.running ≡ true)
        × (q.life ≡ stop running.life))
route_control_example =
    route_control service version checker checker elsewhere (λ r p. refl) stop_request running
