-- ===== src/Scheduler/Lifecycle.antt =====
-- internal/scheduler/scheduler.go: `Start` and `Stop` beside the worker goroutines. A context is
-- known by its number, and `s.ctx` is the one made last. A worker evaluates `s.ctx.Done()` each time
-- it enters its `select`, and waits on the context that it then found. The wait group counts the
-- workers that have not returned. The tickers are left out; the release of the lock at the end of
-- `Stop` is `final_release` of the module above.
pub mod Sequential
pub mod Overlap
pub mod Controller
pub mod Return
use go_message_dispatcher.Base.{
  ℕ, suc, ◌+◌, ◌-◌, ◌<◌, ◌≡◌, Bool, true, false, List, [], ◌∷◌, ◌==◌, if◌then◌else◌, ok,
}
use go_message_dispatcher.Domain.{ProcessingController}

-- Where a worker stands: inside `processBatch`, or in the `select` on the context of that number.
pub data Worker : Type 0 where
  busy : Worker
  selecting : ℕ → Worker

pub record Life : Type 0 where
  pub running : Bool
  pub made : ℕ  -- contexts made so far
  pub cancelled : ℕ → Bool
  pub workers : List Worker
  pub waiting : ℕ  -- calls of `Stop` in `s.wg.Wait()`

abbrev pub idle : Life
idle = record { running = false; made = 0; cancelled = λ _. false; workers = []; waiting = 0 }

-- A new context is not cancelled, and the new worker begins with a batch.
unfoldable pub start : Life → Life
start s = if s.running then s else record s {
  running = true;
  made = s.made + 1;
  cancelled = λ n. if n == s.made + 1 then false else s.cancelled n;
  workers = busy ∷ s.workers;
}

-- `Stop` up to its wait; if nothing runs it returns at once.
unfoldable pub stop : Life → Life
stop s =
    if s.running
    then record s {
      running = false;
      cancelled = λ n. if n == s.made then true else s.cancelled n;
      waiting = s.waiting + 1;
    }
    else s

-- One worker goes on.
pub data Moves (s : Life) : List Worker → List Worker → Type 0 where
  batch_done : {ws : List Worker} → Moves s (busy ∷ ws) (selecting s.made ∷ ws)
  ticked : {n : ℕ} {ws : List Worker} → Moves s (selecting n ∷ ws) (busy ∷ ws)
  extended : {n : ℕ} {ws : List Worker} → Moves s (selecting n ∷ ws) (selecting s.made ∷ ws)
  returned : {n : ℕ} {ws : List Worker} → s.cancelled n ≡ true → Moves s (selecting n ∷ ws) ws
  further : {p : Worker} {vs ws : List Worker} → Moves s vs ws → Moves s (p ∷ vs) (p ∷ ws)

-- What goes on without a new call: a worker moves, or a waiting `Stop` returns.
pub data Runs (s : Life) : Life → Type 0 where
  moves : {ws : List Worker} → Moves s s.workers ws → Runs s (record s { workers = ws })
  waited : 0 < s.waiting → s.workers ≡ [] → Runs s (record s { waiting = s.waiting - 1 })

-- At most that many moves of the workers and returns of waiting calls, with no new call.
pub data Within : ℕ → Life → Life → Type 0 where
  stays : {n : ℕ} {s : Life} → Within n s s
  goes : {n : ℕ} {s t u : Life} → Runs s t → Within n t u → Within (suc n) s u

-- With the calls.
pub data Step (s : Life) : Life → Type 0 where
  runs : {t : Life} → Runs s t → Step s t
  starts : Step s (start s)
  stops : Step s (stop s)

pub data Reach (s : Life) : Life → Type 0 where
  here : Reach s s
  next : {t u : Life} → Reach s t → Step t u → Reach s u

abbrev pub is_running : Life → Bool
is_running s = s.running

-- The scheduler as the handler sees it. `Start` and `Stop` never return an error; what `Stop` waits
-- for behind its call is not waited for here.
abbrev pub controller : ProcessingController Life
controller = record {
  start = λ s. (ok tt, start s);
  stop = λ s. (ok tt, stop s);
  is_running = is_running;
}
