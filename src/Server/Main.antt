-- ===== src/Server/Main.antt =====
-- cmd/server/main.go: `main`, from the command line to the status with which the process exits.
pub mod Late
pub mod Ends
use go_message_dispatcher.Base.{
  ℕ, ◌-◌, ◌<◌, List, [], ◌∷◌, ◌≡◌, Bool, true, false, Text, ◌++◌, bytes, ℤ, Error, ok, err,
}
use go_message_dispatcher.Config.{Environment}
use go_message_dispatcher.Domain.{MessageService, HealthChecker}
use go_message_dispatcher.Handler.{VersionInfo, Reply}
use go_message_dispatcher.Lock.{DistributedLock}
use go_message_dispatcher.Scheduler.Lifecycle.{Life, Runs, controller}
use go_message_dispatcher.Server.Application.{
  Platform, Process, Application, new_application, close_all,
}
use go_message_dispatcher.Server.Routes.{Request, route, message_handler}

-- What `flag.Parse` makes of the arguments: the flag for the version and its value, a call for help, or
-- arguments that it refuses. The last two end the process there.
pub data CommandLine : Type 0 where
  with_flag : Bool → CommandLine
  help refused : CommandLine

-- What `main` prints itself: a text of the source, or the error of `NewApplication` behind
-- `Failed to initialize application: `.
pub data Printed : Type 0 where
  plain : Text → Printed
  failed_to_initialize : Error → Printed

abbrev pub version_text : VersionInfo → Text
version_text v =
    bytes "Message Dispatcher Server\n"
    ++ bytes "Version: "
    ++ v.version
    ++ bytes "\n"
    ++ bytes "Build Time: "
    ++ v.build_time
    ++ bytes "\n"
    ++ bytes "Git Commit: "
    ++ v.git_commit
    ++ bytes "\n"

module _ {W : Type 0} (platform : Platform W) (print : Printed → W → W) (env : Environment)
    (service : MessageService W) (new_lock : Text → ℤ → DistributedLock W) (version : VersionInfo)
    (db redis : HealthChecker W) (elsewhere : Request → Process W → Reply × Process W) where
  abbrev pub printed : Printed → Process W → Process W
  printed t p = record p { outside = print t p.outside }

  -- A request, as the routes answer it.
  abbrev pub after_request : Request → Process W → Process W
  after_request r p = (route (message_handler service version db redis) elsewhere r p).1

  -- While the server listens: requests are answered, which are listed with the last one first, the
  -- workers move, calls of `Stop` return, and the world outside changes.
  pub data Serves (p : Process W) : List Request → Process W → Type 0 where
    listens : Serves p [] p
    answers :
        {rs : List Request} {q : Process W}
        → Serves p rs q
        → (r : Request) → Serves p (r ∷ rs) (after_request r q)
    works :
        {rs : List Request} {q : Process W} {t : Life}
        → Serves p rs q
        → Runs q.life t
        → Serves p rs (record q { life = t })
    changes :
        {rs : List Request} {q : Process W}
        → Serves p rs q
        → (w : W) → Serves p rs (record q { outside = w })

  abbrev pub launch : Process W → Process W
  launch p = (new_application platform env service new_lock p).1

  abbrev pub stop_called : Process W → Process W
  stop_called p = record p { life = (controller.stop p.life).1 }

  -- `waitForShutdown` from its test of `IsRunning`, with the requests that are still answered: the
  -- server listens until `httpServer.Shutdown`, between the test and the `Stop`, while the `Stop` waits
  -- for the wait group, and behind it. A request that `Shutdown` waits for counts as answered in front
  -- of it; one that outlives its deadline is left out, and the three systems are closed at once.
  pub data ShutsDown (p : Process W) : List Request → Process W → Type 0 where
    at_rest :
        {late : List Request} {u : Process W}
        → controller.is_running p.life ≡ false
        → Serves p late u
        → ShutsDown p late (close_all platform u)
    -- a request has stopped the scheduler in front of the `Stop`, which returns at once
    stopped_before :
        {before later : List Request} {q u : Process W}
        → controller.is_running p.life ≡ true
        → Serves p before q
        → controller.is_running q.life ≡ false
        → Serves (stop_called q) later u
        → ShutsDown p (later ++ before) (close_all platform u)
    after_stop :
        {before during later : List Request} {q r u : Process W}
        → controller.is_running p.life ≡ true
        → Serves p before q
        → controller.is_running q.life ≡ true
        → Serves (stop_called q) during r
        → 0 < r.life.waiting
        → r.life.workers ≡ []
        → Serves (record r { life = record r.life { waiting = r.life.waiting - 1 } }) later u
        → ShutsDown p (later ++ (during ++ before)) (close_all platform u)

  -- The process has exited, with that status. Of a shutdown, the requests are listed that have been
  -- answered since its test of `IsRunning`. `logger.Fatal` exits with 1, at once, also during the
  -- shutdown. A panic outside a handler, in the code of the worker or in other code, exits with 2 at
  -- any time.
  pub data Exits (line : CommandLine) (p : Process W) : ℕ → List Request → Process W → Type 0 where
    usage_shown : line ≡ help → Exits line p 0 [] p
    flags_refused : line ≡ refused → Exits line p 2 [] p
    version_shown :
        line ≡ with_flag true → Exits line p 0 [] (printed (plain (version_text version)) p)
    not_initialized :
        (e : Error)
        → line ≡ with_flag false
        → (new_application platform env service new_lock p).0 ≡ err e
        → Exits line p 1 [] (printed (failed_to_initialize e) (launch p))
    not_listening :
        (app : Application W) {rs : List Request} {q : Process W}
        → line ≡ with_flag false
        → (new_application platform env service new_lock p).0 ≡ ok app
        → Serves (launch p) rs q
        → Exits line p 1 [] q
    lost_in_shutdown :
        (app : Application W) {rs before during : List Request} {q r u : Process W}
        → line ≡ with_flag false
        → (new_application platform env service new_lock p).0 ≡ ok app
        → Serves (launch p) rs q
        → controller.is_running q.life ≡ true
        → Serves q before r
        → Serves (stop_called r) during u
        → Exits line p 1 [] u
    panicked : (q : Process W) → line ≡ with_flag false → Exits line p 2 [] q
    shut_down :
        (app : Application W) {rs late : List Request} {q t : Process W}
        → line ≡ with_flag false
        → (new_application platform env service new_lock p).0 ≡ ok app
        → Serves (launch p) rs q
        → ShutsDown q late t
        → Exits line p 0 late t
