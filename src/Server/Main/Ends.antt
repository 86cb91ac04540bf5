-- ===== src/Server/Main/Ends.antt =====
-- How `main` of the server ends.
use go_message_dispatcher.Base.{
  ℕ, ◌-◌, ◌≡◌, ◌≢◌, refl, sym, ap, ◌∙◌, ◌⊎◌, inl, inr, false, Bool-cases, List, [], ◌∷◌, ◌++◌, Text,
  ℤ, ok,
}
use mathlib.Core.List.{append_assoc}
use mathlib.Core.Path.{subst}
use go_message_dispatcher.Config.{Environment}
use go_message_dispatcher.Domain.{MessageService, HealthChecker}
use go_message_dispatcher.Handler.{VersionInfo, Reply}
use go_message_dispatcher.Lock.{DistributedLock}
use go_message_dispatcher.Scheduler.Lifecycle.{idle, start, stop}
use go_message_dispatcher.Scheduler.Lifecycle.Sequential.{PoliteReach, stops}
use go_message_dispatcher.Scheduler.Lifecycle.Return.{workers_can_return}
use go_message_dispatcher.Server.Application.{
  Platform, Process, Application, new_application, close_all,
}
use go_message_dispatcher.Server.Application.Startup.{new_application_lem}
use go_message_dispatcher.Server.Routes.{Request}
use go_message_dispatcher.Server.Main.{
  CommandLine, with_flag, refused, Printed, Serves, listens, answers, launch, ShutsDown, at_rest,
  stopped_before, after_stop, Exits, usage_shown, flags_refused, version_shown, not_initialized,
  not_listening, lost_in_shutdown, panicked, shut_down,
}
use go_message_dispatcher.Server.Main.Late.{
  start_request, start-worker, NoStart, Watched, Whole, start-Whole, stop-Settled, Stopping-Watched,
  Serves-Whole, Serves-Within,
}

-- What `waitForShutdown` closes.
pub data Closing : Type 0 where
  http_server postgres redis_client : Closing

-- `closings` are the systems that have been closed so far, in order.
pub record IsClosing {W : Type 0} (platform : Platform W) : Type 0 where
  pub closings : W → List Closing
  pub closings-http :
      (w : W) → closings (platform.shutdown_http w).1 ≡ closings w ++ http_server ∷ []
  pub closings-db : (w : W) → closings (platform.close_db w).1 ≡ closings w ++ postgres ∷ []
  pub closings-redis :
      (w : W) → closings (platform.close_redis w).1 ≡ closings w ++ redis_client ∷ []

cons_not_nil : {A : Type 0} {x : A} {xs : List A} → x ∷ xs ≢ []
cons_not_nil e = cc

module _ {W : Type 0} (platform : Platform W) (print : Printed → W → W) (env : Environment)
    (service : MessageService W) (new_lock : Text → ℤ → DistributedLock W) (version : VersionInfo)
    (db redis : HealthChecker W) (elsewhere : Request → Process W → Reply × Process W)
    (quiet : (r : Request) (p : Process W) → (elsewhere r p).1.life ≡ p.life) where
  abbrev Serving : Process W → List Request → Process W → Type 0
  Serving = Serves platform print env service new_lock version db redis elsewhere

  abbrev Stopping : Process W → List Request → Process W → Type 0
  Stopping = ShutsDown platform print env service new_lock version db redis elsewhere

  abbrev Exiting : CommandLine → Process W → ℕ → List Request → Process W → Type 0
  Exiting = Exits platform print env service new_lock version db redis elsewhere

  abbrev launched : Process W → Process W
  launched = launch platform print env service new_lock version db redis elsewhere

  module _ (k : IsClosing platform) where
    close_all-closings :
        (u : Process W)
        → k.closings (close_all platform u).outside
          ≡ k.closings u.outside ++ http_server ∷ postgres ∷ redis_client ∷ []
    unfolding close_all
    close_all-closings u =
        let served = (platform.shutdown_http u.outside).1 in
        let closed = (platform.close_db served).1 in
        k.closings-redis closed
        ∙ ap (λ l. l ++ redis_client ∷ [])
            (k.closings-db served ∙ ap (λ l. l ++ postgres ∷ []) (k.closings-http u.outside))
        ∙ ap (λ l. l ++ redis_client ∷ [])
            (append_assoc (k.closings u.outside) (http_server ∷ []) (postgres ∷ []))
        ∙ append_assoc (k.closings u.outside) (http_server ∷ postgres ∷ []) (redis_client ∷ [])

    -- The three systems have been closed last, in that order.
    abbrev Closed : Process W → Type 0
    Closed t =
        (cs : List Closing) × (k.closings t.outside
          ≡ cs ++ http_server ∷ postgres ∷ redis_client ∷ [])

    Stopping-Closed : {q t : Process W} {late : List Request} → Stopping q late t → Closed t
    Stopping-Closed (at_rest {u} _ _) = (k.closings u.outside, close_all-closings u)
    Stopping-Closed (stopped_before {u} _ _ _ _) = (k.closings u.outside, close_all-closings u)
    Stopping-Closed (after_stop {u} _ _ _ _ _ _ _) = (k.closings u.outside, close_all-closings u)

    module _ (p : Process W) (fresh : p.life ≡ idle) where
      abbrev Starts : Application W → Type 0
      Starts app = (new_application platform env service new_lock p).0 ≡ ok app

      -- What the status tells.
      abbrev IsExit : CommandLine → ℕ → List Request → Process W → Type 0
      IsExit line code late t =
          ((code ≡ 0) × (NoStart late → Watched t.life) × (line ≡ with_flag false → Closed t))
          ⊎ ((code ≡ 1)
              × (line ≡ with_flag false)
              × ((t.life.workers ≡ []) ⊎ ((app : Application W) × Starts app)))
          ⊎ ((code ≡ 2) × (((line ≡ refused) × (t ≡ p)) ⊎ (line ≡ with_flag false)))

      launched-Whole : (app : Application W) → Starts app → Whole (launched p).life
      launched-Whole app done =
          let begun : start idle ≡ (launched p).life = sym (
            ((new_application_lem service new_lock platform env p).0 app done).5
            ∙ ap start fresh) in
          subst Whole begun (start-Whole idle (λ _. inl refl))

      no_workers : p.life.workers ≡ []
      no_workers = ap (λ s. s.workers) fresh

      exit_lem :
          {line : CommandLine} {code : ℕ} {late : List Request} {t : Process W}
          → Exiting line p code late t
          → IsExit line code late t
      exit_lem (usage_shown e) = inl (refl, (λ _. inl no_workers), λ x. cc)
      exit_lem (flags_refused e) = inr (inr (refl, inl (e, refl)))
      exit_lem (version_shown e) = inl (refl, (λ _. inl no_workers), λ x. cc)
      exit_lem (not_initialized e line failed) =
          let unmoved = (new_application_lem service new_lock platform env p).1 e failed in
          inr (inl (refl, line, inl (ap (λ s. s.workers) (unmoved ∙ fresh))))
      exit_lem (not_listening app line done served) = inr (inl (refl, line, inr (app, done)))
      exit_lem (lost_in_shutdown app line done served on before within) =
          inr (inl (refl, line, inr (app, done)))
      exit_lem (panicked q line) = inr (inr (refl, inr line))
      exit_lem (shut_down app line done served ends) = inl (
        refl,
        Stopping-Watched platform print env service new_lock version db redis elsewhere quiet ends (
            Serves-Whole platform print env service new_lock version db redis elsewhere quiet served
              (launched-Whole app done)),
        λ _. Stopping-Closed ends,
      )

      -- The end of a shutdown that begins in a state of a polite caller.
      shutdown_ends : (q : Process W) → PoliteReach idle q.life → (t : Process W) × Stopping q [] t
      shutdown_ends q polite = elim (Bool-cases q.life.running) [
        | inl on ↦
            let (_, waits) = stop-Settled q.life on in
            let within = workers_can_return (stop q.life) (PoliteReach.next polite stops) waits in
            (
              _,
              after_stop on listens on
                  (Serves-Within platform print env service new_lock version db redis elsewhere
                    quiet listens within)
                  waits refl listens,
            )
        | inr off ↦ (_, at_rest off listens)
      ]

      -- The same, with a request for a start answered behind the return of the `Stop`.
      late_start :
          (q : Process W)
          → PoliteReach idle q.life
          → (t : Process W) × Stopping q (start_request ∷ []) t × (t.life.workers ≢ [])
      unfolding close_all
      late_start q polite = elim (Bool-cases q.life.running) [
        | inl on ↦
            let (off, waits) = stop-Settled q.life on in
            let within = workers_can_return (stop q.life) (PoliteReach.next polite stops) waits in
            let served =
              Serves-Within platform print env service new_lock version db redis elsewhere quiet
                listens within in
            let r : Process W = record q {
              life = record (stop q.life) { workers = []; waiting = (stop q.life).waiting - 1 };
            } in
            (
              _,
              after_stop on listens on served waits refl (answers listens start_request),
              (λ none_left. cons_not_nil (
                  sym (
                    start-worker platform print env service new_lock version db redis elsewhere
                      quiet r off)
                  ∙ none_left)),
            )
        | inr off ↦ (
          _,
          at_rest off (answers listens start_request),
          (λ none_left. cons_not_nil (
              sym (
                start-worker platform print env service new_lock version db redis elsewhere quiet q
                  off)
              ∙ none_left)),
        )
      ]

      -- From a process without workers, where the routes of others leave the scheduler alone, and the
      -- ends of the HTTP server and of the two clients are logged, as `IsClosing` says. Whatever the
      -- arguments, the requests and the moves of the workers, the server exits with 0, 1 or 2. With 0,
      -- if no request for a start has been answered since the shutdown tested `IsRunning`, then no worker
      -- is left, or the `Stop` of a request still waits for one; and if neither the version nor help was
      -- asked for, then the HTTP server, PostgreSQL and Redis have been closed last, in this order. With
      -- 1, neither was asked for, and no worker is left or the start had succeeded. With 2, the arguments
      -- were refused and nothing was done, or neither was asked for. Once the start has succeeded, from
      -- every state that the server reaches without a `Start` while a `Stop` waits, a shutdown can run to
      -- its end with status 0; but it can also do so with a request for a start answered behind its
      -- `Stop`, whose worker is left.
      pub main_lem :
          ((line : CommandLine) (code : ℕ) (late : List Request) (t : Process W)
            → Exiting line p code late t
            → IsExit line code late t)
          × ((app : Application W) (rs : List Request) (q : Process W)
              → Starts app
              → Serving (launched p) rs q
              → PoliteReach idle q.life
              → ((t : Process W) × Stopping q [] t × Exiting (with_flag false) p 0 [] t)
                × ((t : Process W) × Exiting (with_flag false) p 0 (start_request ∷ []) t
                    × (t.life.workers ≢ [])))
      main_lem = (
        (λ line code late t exits. exit_lem exits),
        (λ app rs q done served polite.
            let (t, ends) = shutdown_ends q polite in
            let (u, late, left) = late_start q polite in
            (
              (t, ends, shut_down app refl done served ends),
              (u, shut_down app refl done served late, left),
            )),
      )
