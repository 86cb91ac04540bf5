-- ===== src/Tests/MiddlewareRuns.antt =====
-- The theorems on the chains of handlers of the two servers, at concrete inputs: a world that is the
-- list of the logged lines, and a `Recovery` that answers a panic with 500.
use go_message_dispatcher.Base.{ℕ, false, ok, ◌≡◌, refl, ◌⊎◌, List, [], ◌∷◌, ◌++◌, bytes}
use go_message_dispatcher.Config.{settings}
use go_message_dispatcher.Gin.{Outcome, replied, panicked, Chain, IsRecovery}
use go_message_dispatcher.Handler.{Reply, VersionInfo, MessageHandler, version_info}
use go_message_dispatcher.Server.Routes.{Request, own_route}
use go_message_dispatcher.MockApi.{other}
use go_message_dispatcher.MockApi
use go_message_dispatcher.MockApi.Middleware.{
  RequestLine, with_middleware, IsOutput, with_middleware_lem,
}
use go_message_dispatcher.Server.Middleware.{Incoming, Entry, gin_logger, setup_http_server}
use go_message_dispatcher.Server.Middleware.Logged.{IsLog}
use go_message_dispatcher.Tests.ServerRuns.{environment}

abbrev rescued : {R : Type 0} → R → Outcome R → Outcome R
rescued failure (replied r) = replied r
rescued failure panicked = replied failure

abbrev recover : {W R : Type 0} → R → Chain W R → Chain W R
recover failure rest w = (rescued failure (rest w).0, (rest w).1)

recover-IsRecovery :
    {W R : Type 0} (status : R → ℕ) (failure : R)
    → status failure ≡ 500
    → IsRecovery {W = W} status (recover failure)
recover-IsRecovery status failure code = record {
  through = λ rest w r e. rw e refl;
  caught = λ rest w e. (failure, rw e refl, code);
  caught-world = λ rest w e. refl;
}

-- The clock stands still.
abbrev clock : {E : Type 0} → List E → ℕ × List E
clock w = (0, w)

abbrev log : {E : Type 0} → E → List E → List E
log e w = w ++ e ∷ []

abbrev version : VersionInfo
version = record { version = bytes "1"; build_time = []; git_commit = [] }

abbrev reply_with : ℕ → Reply
reply_with code = record { code = code; body = version_info version }

-- A handler whose collaborators leave the log alone.
abbrev desk : MessageHandler (List Entry)
desk = record {
  message_service = record {
    process_messages = λ w. (ok tt, w);
    get_sent_messages_with_cache = λ w. (ok [], w);
  };
  processing_controller = record {
    start = λ w. (ok tt, w);
    stop = λ w. (ok tt, w);
    is_running = λ w. false;
  };
  version = version;
  db_health_checker = record { check_health = λ w. (ok tt, w) };
  redis_health_checker = record { check_health = λ w. (ok tt, w) };
}

-- All that the program does not serve itself panics.
abbrev elsewhere : Request → Chain (List Entry) Reply
elsewhere r w = (panicked, w)

abbrev log-IsLog : IsLog clock log
log-IsLog = record { lines = λ w. w; lines-info = λ e w. refl; lines-clock = λ w. refl }

abbrev incoming : Incoming
incoming = record {
  method = bytes "GET";
  path = bytes "/version";
  raw_query = bytes "x=1";
  client_ip = bytes "::1";
}

abbrev served : Incoming → Chain (List Entry) Reply
served =
    (setup_http_server clock log (settings environment) desk (recover (reply_with 500))
      elsewhere).handler

-- A route of the mock that panics.
abbrev broken : Chain (List RequestLine) MockApi.Reply
broken w = (panicked, w)

abbrev mock_failure : MockApi.Reply
mock_failure = record { code = 500; body = other [] }

abbrev output : IsOutput clock log
output = record { lines = λ w. w; lines-print = λ e w. refl; lines-clock = λ w. refl }

with_middleware_lem_example :
    let out =
      with_middleware clock log (recover mock_failure) (bytes "GET") (bytes "/x") broken [] in
    (reply : MockApi.Reply) × (out.0 ≡ replied reply)
    × ((start elapsed : ℕ) × (out.1
          ≡ []
            ++ record {
              started = start;
              method = bytes "GET";
              path = bytes "/x";
              status = reply.code;
              elapsed = elapsed;
            }
              ∷ []))
    × (((broken []).0 ≡ replied reply) ⊎ (((broken []).0 ≡ panicked) × (reply.code ≡ 500)))
with_middleware_lem_example =
    with_middleware_lem clock log output (recover mock_failure)
      (recover-IsRecovery (λ r. r.code) mock_failure refl) (bytes "GET") (bytes "/x") broken
      (λ w. refl) []

-- The path of the line has the query, and a panic is answered with 500 and leaves no line.
logged_path :
    (served incoming []).1
    ≡ record {
      status = 200;
      method = bytes "GET";
      path = bytes "/version?x=1";
      ip = bytes "::1";
      latency = 0;
    }
      ∷ []
unfolding setup_http_server gin_logger own_route
logged_path = refl

unlogged : served (record incoming { path = bytes "/" }) [] ≡ (replied (reply_with 500), [])
unfolding setup_http_server gin_logger own_route
unlogged = refl
