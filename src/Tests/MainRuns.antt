-- ===== src/Tests/MainRuns.antt =====
-- The end of the server, over a world that is the list of what has been closed.
use go_message_dispatcher.Base.{
  ℕ, atoi, ◌<◌, ◌≡◌, ◌≢◌, refl, ◌⊎◌, true, false, List, [], ◌∷◌, ◌++◌, Text, bytes, ℤ, ok, is_ok,
}
use go_message_dispatcher.Config.{load, validate, get_env, get_env_int, get_env_duration}
use go_message_dispatcher.Domain.{MessageService, HealthChecker}
use go_message_dispatcher.Handler.{VersionInfo, Reply, version_of}
use go_message_dispatcher.Lock.{DistributedLock}
use go_message_dispatcher.Scheduler.Lifecycle.{idle}
use go_message_dispatcher.Scheduler.Lifecycle.Sequential.{PoliteReach}
use go_message_dispatcher.Server.Application.{
  Platform, Process, Application, prepare, init_database, init_redis, new_application, close_all,
}
use go_message_dispatcher.Server.Connection.{Connector, connect, tries}
use go_message_dispatcher.Server.Routes.{Request}
use go_message_dispatcher.Server.Routes.Control.{handler}
use go_message_dispatcher.Server.Main.{CommandLine, with_flag, refused, Serves, ShutsDown, Exits}
use go_message_dispatcher.Server.Main.Late.{start_request, NoStart}
use go_message_dispatcher.Server.Main.Ends.{
  Closing, http_server, postgres, redis_client, IsClosing, main_lem,
}
use go_message_dispatcher.Tests.ServerRuns.{environment}

abbrev World : Type 0
World = List Closing

abbrev answering : Connector World
answering = record { ping = λ w. (ok tt, w); sleep = λ n w. w }

abbrev logged : Platform World
logged = record {
  build_logger = λ level w. (ok tt, w);
  open_db = λ dsn w. (ok tt, w);
  db = answering;
  close_db = λ w. (ok tt, w ++ postgres ∷ []);
  redis = λ addr password n. answering;
  close_redis = λ w. (ok tt, w ++ redis_client ∷ []);
  shutdown_http = λ w. (ok tt, w ++ http_server ∷ []);
}

abbrev logged-IsClosing : IsClosing logged
logged-IsClosing = record {
  closings = λ w. w;
  closings-http = λ w. refl;
  closings-db = λ w. refl;
  closings-redis = λ w. refl;
}

abbrev service : MessageService World
service = record {
  process_messages = λ w. (ok tt, w);
  get_sent_messages_with_cache = λ w. (ok [], w);
}

abbrev always : Text → ℤ → DistributedLock World
always key ttl = record {
  acquire = λ w. (ok tt, w);
  release = λ w. (ok tt, w);
  extend = λ w. (ok tt, w);
  is_held = λ w. false;
}

abbrev checker : HealthChecker World
checker = record { check_health = λ w. (ok tt, w) }

abbrev version : VersionInfo
version = record { version = bytes "1"; build_time = []; git_commit = [] }

abbrev elsewhere : Request → Process World → Reply × Process World
elsewhere r p = (version_of (handler service version checker checker), p)

abbrev fresh : Process World
fresh = record { life = idle; outside = [] }

launches : is_ok (new_application logged environment service always fresh).0 ≡ true
unfolding new_application prepare init_database init_redis connect tries load validate get_env
    get_env_int atoi get_env_duration
launches = refl

closes : (close_all logged fresh).outside ≡ http_server ∷ postgres ∷ redis_client ∷ []
unfolding close_all
closes = refl

abbrev Serving : Process World → List Request → Process World → Type 0
Serving = Serves logged (λ t w. w) environment service always version checker checker elsewhere

abbrev Stopping : Process World → List Request → Process World → Type 0
Stopping = ShutsDown logged (λ t w. w) environment service always version checker checker elsewhere

abbrev Exiting : CommandLine → Process World → ℕ → List Request → Process World → Type 0
Exiting = Exits logged (λ t w. w) environment service always version checker checker elsewhere

main_lem_example :
    let launched = new_application logged environment service always fresh in
    ((line : CommandLine) (code : ℕ) (late : List Request) (t : Process World)
      → Exiting line fresh code late t
      → ((code ≡ 0)
          × (NoStart late → (t.life.workers ≡ []) ⊎ (0 < t.life.waiting))
          × (line ≡ with_flag false
              → (cs : List Closing) × (t.outside
                  ≡ cs ++ http_server ∷ postgres ∷ redis_client ∷ [])))
        ⊎ ((code ≡ 1)
            × (line ≡ with_flag false)
            × ((t.life.workers ≡ []) ⊎ ((a : Application World) × (launched.0 ≡ ok a))))
        ⊎ ((code ≡ 2) × (((line ≡ refused) × (t ≡ fresh)) ⊎ (line ≡ with_flag false))))
    × ((a : Application World) (rs : List Request) (q : Process World)
        → launched.0 ≡ ok a
        → Serving launched.1 rs q
        → PoliteReach idle q.life
        → ((t : Process World) × Stopping q [] t × Exiting (with_flag false) fresh 0 [] t)
          × ((t : Process World) × Exiting (with_flag false) fresh 0 (start_request ∷ []) t
              × (t.life.workers ≢ [])))
main_lem_example =
    main_lem logged (λ t w. w) environment service always version checker checker elsewhere
      (λ r p. refl) logged-IsClosing fresh refl
