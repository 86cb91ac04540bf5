-- ===== src/Server/Main/Late.antt =====
-- cmd/server/main.go: the workers that requests and a shutdown leave behind.
use go_message_dispatcher.Base.{
  ℕ, ◌<◌, ◌≡◌, ◌≢◌, refl, sym, ◌∙◌, ◌⊎◌, inl, inr, true, false, Bool-cases, List, [], ◌∷◌, ◌++◌,
  arith, Text, ℤ, bytes, All, All-unappend,
}
use mathlib.Core.Bool.{false≢true}
use mathlib.Core.Path.{subst}
use go_message_dispatcher.Config.{Environment}
use go_message_dispatcher.Domain.{MessageService, HealthChecker}
use go_message_dispatcher.Handler.{VersionInfo, Reply, start_processing}
use go_message_dispatcher.Lock.{DistributedLock}
use go_message_dispatcher.Scheduler.Lifecycle.{
  Life, busy, start, stop, Runs, moves, waited, Within, stays, goes,
}
use go_message_dispatcher.Scheduler.Lifecycle.Sequential.{not-Moves-nil}
use go_message_dispatcher.Server.Application.{Platform, Process, close_all}
use go_message_dispatcher.Server.Routes.{Request, route, own_route}
use go_message_dispatcher.Server.Routes.Control.{handler, route_control}
use go_message_dispatcher.Server.Main.{
  CommandLine, Printed, Serves, listens, answers, works, changes, ShutsDown, at_rest,
  stopped_before, after_stop, Exits,
}

-- No worker is left, or a `Stop` waits for one.
abbrev pub Watched : Life → Type 0
Watched s = (s.workers ≡ []) ⊎ (0 < s.waiting)

-- A scheduler that does not run is watched.
abbrev pub Whole : Life → Type 0
Whole s = s.running ≡ false → Watched s

-- It does not run, and is watched.
abbrev Settled : Life → Type 0
Settled s = (s.running ≡ false) × Watched s

abbrev pub start_request : Request
start_request = record { method = bytes "POST"; path = bytes "/api/messaging/start" }

abbrev pub OtherPath : Request → Type 0
OtherPath r = r.path ≢ bytes "/api/messaging/start"

-- Nobody has asked for a start.
abbrev pub NoStart : List Request → Type 0
NoStart rs = All OtherPath rs

Runs-Watched : {s t : Life} → Runs s t → Watched s → Watched t
Runs-Watched (moves m) (inl none_left) = absurd (not-Moves-nil m none_left)
Runs-Watched (moves m) (inr waits) = inr waits
Runs-Watched (waited pos none_left) watched = inl none_left

running-Runs : {s t : Life} → Runs s t → t.running ≡ s.running
running-Runs (moves m) = refl
running-Runs (waited pos none_left) = refl

pub start-Whole : (s : Life) → Whole s → Whole (start s)
unfolding start
start-Whole s whole = elim (Bool-cases s.running) [
  | inl on ↦ simp on (λ e. cc)
  | inr off ↦ simp off (λ e. cc)
]

pub stop-Settled :
    (s : Life) → s.running ≡ true → ((stop s).running ≡ false) × (0 < (stop s).waiting)
unfolding stop
stop-Settled s on = ground arith

stop_at_rest : (s : Life) → s.running ≡ false → stop s ≡ s
unfolding stop
stop_at_rest s off = rw off refl

module _ {W : Type 0} (platform : Platform W) (print : Printed → W → W) (env : Environment)
    (service : MessageService W) (new_lock : Text → ℤ → DistributedLock W) (version : VersionInfo)
    (db redis : HealthChecker W) (elsewhere : Request → Process W → Reply × Process W)
    (quiet : (r : Request) (p : Process W) → (elsewhere r p).1.life ≡ p.life) where
  abbrev pub Serving : Process W → List Request → Process W → Type 0
  Serving = Serves platform print env service new_lock version db redis elsewhere

  abbrev pub Stopping : Process W → List Request → Process W → Type 0
  Stopping = ShutsDown platform print env service new_lock version db redis elsewhere

  abbrev pub Exiting : CommandLine → Process W → ℕ → List Request → Process W → Type 0
  Exiting = Exits platform print env service new_lock version db redis elsewhere

  abbrev answered_by : Request → Process W → Process W
  answered_by r p = (route (handler service version db redis) elsewhere r p).1

  answers-Whole : (r : Request) (p : Process W) → Whole p.life → Whole (answered_by r p).life
  answers-Whole r p whole = elim (route_control service version db redis elsewhere quiet r p) [
    | inl same ↦ subst Whole (sym same) whole
    | inr (inl (_, _, _, begun)) ↦ subst Whole (sym begun) (start-Whole p.life whole)
    | inr (inr (_, _, on, ended)) ↦ subst Whole (sym ended) (λ _. inr (stop-Settled p.life on).1)
  ]

  answers-Settled :
      (r : Request) (p : Process W)
      → r.path ≢ bytes "/api/messaging/start"
      → Settled p.life
      → Settled (answered_by r p).life
  answers-Settled r p other settled =
      elim (route_control service version db redis elsewhere quiet r p) [
        | inl same ↦ subst Settled (sym same) settled
        | inr (inl (_, path, _, _)) ↦ absurd (other path)
        | inr (inr (_, _, on, _)) ↦ absurd (false≢true (sym settled.0 ∙ on))
      ]

  pub Serves-Whole :
      {p q : Process W} {rs : List Request} → Serving p rs q → Whole p.life → Whole q.life
  Serves-Whole listens whole = whole
  Serves-Whole (answers {q} served r) whole = answers-Whole r q (Serves-Whole served whole)
  Serves-Whole (works served step) whole =
      λ off. Runs-Watched step (Serves-Whole served whole (sym (running-Runs step) ∙ off))
  Serves-Whole (changes served w) whole = Serves-Whole served whole

  Serves-Settled :
      {p q : Process W} {rs : List Request}
      → Serving p rs q
      → NoStart rs
      → Settled p.life
      → Settled q.life
  Serves-Settled listens no_start settled = settled
  Serves-Settled (answers {q} served r) (other, no_start) settled =
      answers-Settled r q other (Serves-Settled served no_start settled)
  Serves-Settled (works served step) no_start settled =
      let (off, watched) = Serves-Settled served no_start settled in
      (running-Runs step ∙ off, Runs-Watched step watched)
  Serves-Settled (changes served w) no_start settled = Serves-Settled served no_start settled

  -- Moves of the workers, while the server listens.
  pub Serves-Within :
      {p q : Process W} {rs : List Request} {n : ℕ} {t : Life}
      → Serving p rs q
      → Within n q.life t
      → Serving p rs (record q { life = t })
  Serves-Within served stays = served
  Serves-Within served (goes step more) = Serves-Within (works served step) more

  -- Without a request for a start since the test of `IsRunning`.
  pub Stopping-Watched :
      {q t : Process W} {late : List Request}
      → Stopping q late t
      → Whole q.life
      → NoStart late
      → Watched t.life
  unfolding close_all
  Stopping-Watched (at_rest off served) whole no_start =
      (Serves-Settled served no_start (off, whole off)).1
  Stopping-Watched (stopped_before {before} {later} {q} on served off after) whole no_start =
      let (later_none, _) = All-unappend OtherPath later before no_start in
      let settled : Settled q.life = (off, Serves-Whole served whole off) in
      (Serves-Settled after later_none (subst Settled (sym (stop_at_rest q.life off)) settled)).1
  Stopping-Watched
        (after_stop {before} {during} {later} {q} on served still waits_for pos none_left after)
        whole no_start =
      let (later_none, others) = All-unappend OtherPath later (during ++ before) no_start in
      let (during_none, _) = All-unappend OtherPath during before others in
      let (off, waits) = stop-Settled q.life still in
      let settled = Serves-Settled waits_for during_none (off, inr waits) in
      (Serves-Settled after later_none (settled.0, inl none_left)).1

  -- A request for a start that finds the scheduler at rest leaves a worker.
  pub start-worker :
      (p : Process W)
      → p.life.running ≡ false
      → (answered_by start_request p).life.workers ≡ busy ∷ p.life.workers
  unfolding route own_route start_processing start
  start-worker p off = rw off refl
