-- ===== src/Scheduler/Lifecycle/Overlap.antt =====
-- `Start` while a `Stop` waits for a batch to end.
use mathlib.Core.Bool.{false≢true}
use mathlib.Core.Path.{subst}
use go_message_dispatcher.Base.{
  ℕ, suc, ◌+◌, ◌≡◌, refl, ◌∙◌, sym, ap, ◌≢◌, true, false, List, [], ◌∷◌, arith, length,
}
use go_message_dispatcher.Scheduler.Lifecycle.{
  Worker, busy, selecting, Life, start, stop, Moves, batch_done, ticked, extended, returned,
  further, Runs, moves, waited, starts, stops, Reach, here, next,
}

-- No worker waits on a cancelled context, nor on any that a later `Stop` does not cancel first.
abbrev OnLast : ℕ → List Worker → Type 0
OnLast made [] = Unit
OnLast made (busy ∷ ws) = OnLast made ws
OnLast made (selecting n ∷ ws) = (n ≡ made) × OnLast made ws

pub data RunsFrom (s : Life) : Life → Type 0 where
  begin : RunsFrom s s
  then_runs : {t u : Life} → RunsFrom s t → Runs t u → RunsFrom s u

Moves-OnLast :
    {s : Life} {vs ws : List Worker}
    → Moves s vs ws
    → s.cancelled s.made ≡ false
    → OnLast s.made vs
    → OnLast s.made ws × (length ws ≡ length vs)
Moves-OnLast batch_done live o = ((refl, o), refl)
Moves-OnLast ticked live (e, o) = (o, refl)
Moves-OnLast extended live (e, o) = ((refl, o), refl)
Moves-OnLast {s} (returned {n} gone) live (e, o) =
    absurd (false≢true (sym live ∙ ap s.cancelled (sym e) ∙ gone))
Moves-OnLast (further {p = busy} m) live o = let (a, b) = Moves-OnLast m live o in (a, ap suc b)
Moves-OnLast (further {p = selecting n} m) live (e, o) =
    let (a, b) = Moves-OnLast m live o in ((e, a), ap suc b)

record Held (s t : Life) : Type 0 where
  live : t.cancelled t.made ≡ false
  on_last : OnLast t.made t.workers
  counted : length t.workers ≡ length s.workers
  waits : t.waiting ≡ s.waiting

Runs-Held : {s t u : Life} → length s.workers ≢ 0 → Runs t u → Held s t → Held s u
Runs-Held some (moves m) h =
    let (a, b) = Moves-OnLast m h.live h.on_last in
    record { live = h.live; on_last = a; counted = b ∙ h.counted; waits = h.waits }
Runs-Held some (waited more gone) h =
    absurd (some (sym h.counted ∙ ap (λ (l : List Worker). length l) gone))

RunsFrom-Held : {s t : Life} → length s.workers ≢ 0 → Held s s → RunsFrom s t → Held s t
RunsFrom-Held some h begin = h
RunsFrom-Held some h (then_runs r st) = Runs-Held some st (RunsFrom-Held some h r)

-- `Stop` and then `Start`, before the worker has left its batch.
abbrev pub restarted : Life → Life
restarted s = start (stop s)

record Facts (s : Life) : Type 0 where
  workers : (restarted s).workers ≡ busy ∷ busy ∷ []
  running : (restarted s).running ≡ true
  live : (restarted s).cancelled (restarted s).made ≡ false
  waits : (restarted s).waiting ≡ s.waiting + 1

restarted_lem : (s : Life) → s.running ≡ true → s.workers ≡ busy ∷ [] → Facts s
unfolding start stop
restarted_lem s on alone = ground arith

restarted-Held : (s : Life) → Facts s → Held (restarted s) (restarted s)
restarted-Held s f = record {
  live = f.live;
  on_last = subst (OnLast (restarted s).made) (sym f.workers) tt;
  counted = refl;
  waits = refl;
}

-- If `Stop` and then `Start` are called while the only worker of a running scheduler is in a batch,
-- then a second worker begins a batch beside it. As long as `Stop` is not called again, no moves of
-- the workers end either of them, and the first `Stop` never returns.
pub overlapping_workers :
    (s : Life)
    → s.running ≡ true
    → s.workers ≡ busy ∷ []
    → Reach s (restarted s)
      × ((restarted s).workers ≡ busy ∷ busy ∷ [])
      × ((restarted s).running ≡ true)
      × ((t : Life)
          → RunsFrom (restarted s) t
          → (length t.workers ≡ 2) × (t.waiting ≡ s.waiting + 1))
overlapping_workers s on alone =
    let f = restarted_lem s on alone in
    let two : length (restarted s).workers ≡ 2 = ap (λ (l : List Worker). length l) f.workers in
    (
      next (next here stops) starts,
      f.workers,
      f.running,
      (λ t r.
          let h = RunsFrom-Held (λ e. absurd (omega arith)) (restarted-Held s f) r in
          (h.counted ∙ two, h.waits ∙ f.waits)),
    )
