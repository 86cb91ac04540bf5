-- ===== src/Scheduler/Lifecycle/Sequential.antt =====
-- A caller that does not call `Start` while a `Stop` is waiting.
use mathlib.Core.Bool.{false≢true}
use go_message_dispatcher.Base.{
  ℕ, ◌≤◌, ◌<◌, ◌≡◌, refl, ◌∙◌, sym, ap, ◌≢◌, Bool-cases, inl, inr, true, false, List, [], ◌∷◌,
  arith, length,
}
use go_message_dispatcher.Scheduler.Lifecycle.{
  Worker, busy, selecting, Life, idle, start, stop, Moves, batch_done, ticked, extended, returned,
  further, Runs, moves, waited,
}

pub data Polite (s : Life) : Life → Type 0 where
  runs : {t : Life} → Runs s t → Polite s t
  starts : s.waiting ≡ 0 → Polite s (start s)
  stops : Polite s (stop s)

pub data PoliteReach (s : Life) : Life → Type 0 where
  here : PoliteReach s s
  next : {t u : Life} → PoliteReach s t → Polite t u → PoliteReach s u

-- The only worker is in a batch or waits on the context made last.
abbrev pub Current : ℕ → List Worker → Type 0
Current made [] = Unit
Current made (busy ∷ ws) = ws ≡ []
Current made (selecting n ∷ ws) = (ws ≡ []) × (n ≡ made)

pub record Inv (s : Life) : Type 0 where
  pub current : Current s.made s.workers
  pub live :
      s.running ≡ true → (length s.workers ≡ 1) × (s.waiting ≡ 0) × (s.cancelled s.made ≡ false)
  pub ending : s.running ≡ false → 0 < s.waiting → (s.waiting ≡ 1) × (s.cancelled s.made ≡ true)
  pub ended : s.running ≡ false → s.waiting ≡ 0 → s.workers ≡ []

start-Inv : (s : Life) → s.waiting ≡ 0 → Inv s → Inv (start s)
unfolding start
start-Inv s quiet inv = elim (Bool-cases s.running) [
  | inl on ↦ simp (on, start) inv
  | inr off ↦
      rw (off, start)
        (record {
          current = inv.ended off quiet;
          live = λ _. (rw (inv.ended off quiet) refl, quiet, ground arith);
          ending = λ e. cc;
          ended = λ e. cc;
        })
]

stop-Inv : (s : Life) → Inv s → Inv (stop s)
unfolding stop
stop-Inv s inv = elim (Bool-cases s.running) [
  | inl on ↦
      rw (on, stop)
        (record {
          current = inv.current;
          live = λ e. cc;
          ending = λ _ _. (omega (arith, (inv.live on).1), ground arith);
          ended = λ _ e. absurd (omega arith);
        })
  | inr off ↦ simp (off, stop) inv
]

pub not-Moves-nil : {s : Life} {vs ws : List Worker} → Moves s vs ws → vs ≢ []
not-Moves-nil batch_done e = cc
not-Moves-nil ticked e = cc
not-Moves-nil extended e = cc
not-Moves-nil (returned c) e = cc
not-Moves-nil (further m) e = cc

pub Current-tail : (made : ℕ) (p : Worker) (ws : List Worker) → Current made (p ∷ ws) → ws ≡ []
Current-tail made busy ws c = c
Current-tail made (selecting n) ws (c, _) = c

-- A move keeps the worker on the last context, and it goes away only if that one is cancelled.
Moves-Current :
    {s : Life} {vs ws : List Worker}
    → Moves s vs ws
    → Current s.made vs
    → Current s.made ws × (s.cancelled s.made ≡ false → length ws ≡ length vs)
Moves-Current batch_done c = ((c, refl), λ _. refl)
Moves-Current ticked (c, e) = (c, λ _. refl)
Moves-Current extended (c, e) = ((c, refl), λ _. refl)
Moves-Current {s} (returned {n} gone) (c, e) =
    (rw c tt, λ live. absurd (false≢true (sym live ∙ ap s.cancelled (sym e) ∙ gone)))
Moves-Current {s} (further {p} {vs} m) c = absurd (not-Moves-nil m (Current-tail s.made p vs c))

Runs-Inv : {s t : Life} → Runs s t → Inv s → Inv t
Runs-Inv {s} (moves m) inv =
    let (current, counted) = Moves-Current m inv.current in
    record {
      current = current;
      live = λ on. let (one, quiet, alive) = inv.live on in (counted alive ∙ one, quiet, alive);
      ending = inv.ending;
      ended = λ off quiet. absurd (not-Moves-nil m (inv.ended off quiet));
    }
Runs-Inv {s} (waited some_wait gone) inv = record {
  current = inv.current;
  live = λ on. absurd (omega (arith, (inv.live on).1));
  ending = λ off more. absurd (omega (arith, (inv.ending off some_wait).0));
  ended = λ off _. gone;
}

Polite-Inv : {s t : Life} → Polite s t → Inv s → Inv t
Polite-Inv (runs r) inv = Runs-Inv r inv
Polite-Inv {s} (starts quiet) inv = start-Inv s quiet inv
Polite-Inv {s} stops inv = stop-Inv s inv

pub PoliteReach-Inv : {s t : Life} → PoliteReach s t → Inv s → Inv t
PoliteReach-Inv here inv = inv
PoliteReach-Inv (next r st) inv = Polite-Inv st (PoliteReach-Inv r inv)

pub idle-Inv : Inv idle
idle-Inv = record {
  current = tt;
  live = λ e. cc;
  ending = λ _ h. absurd (omega arith);
  ended = λ _ _. refl;
}

length_of_Current : (made : ℕ) (ws : List Worker) → Current made ws → length ws ≤ 1
length_of_Current made [] c = omega arith
length_of_Current made (p ∷ ws) c =
    omega (arith, ap (λ (l : List Worker). length l) (Current-tail made p ws c))

-- Whatever the order of the calls and of the moves of the workers, as long as `Start` is not called
-- while a `Stop` is waiting, there is never more than one worker; while the scheduler runs there is
-- exactly one, and the context made last is not cancelled; once it does not run and no `Stop` is
-- waiting there is none.
pub one_worker :
    (s : Life)
    → PoliteReach idle s
    → (length s.workers ≤ 1)
      × (s.running ≡ true → (length s.workers ≡ 1) × (s.cancelled s.made ≡ false))
      × (s.running ≡ false → s.waiting ≡ 0 → s.workers ≡ [])
one_worker s r =
    let inv = PoliteReach-Inv r idle-Inv in
    (
      length_of_Current s.made s.workers inv.current,
      (λ on. let (one, quiet, alive) = inv.live on in (one, alive)),
      inv.ended,
    )
