-- ===== src/Scheduler/Rounds.antt =====
-- Without a lock, and with one that is taken: how often the service runs.
use go_message_dispatcher.Base.{
  ℕ, zero, suc, ◌≡◌, refl, ◌∙◌, ap, false, none, some, List, [], ◌∷◌, arith, is_ok, if◌then◌else◌,
}
use go_message_dispatcher.Lock.{DistributedLock}
use go_message_dispatcher.Scheduler.{
  Scheduler, State, Event, done, tick, extend_tick, active_lock, run_service, process_batch,
  extend_lock, loop, process_messages,
}

-- The ticks that arrive before the context is done.
unfoldable pub ticks : List Event → ℕ
ticks [] = 0
ticks (done ∷ es) = 0
ticks (tick ∷ es) = suc (ticks es)
ticks (extend_tick ∷ es) = ticks es

module _ {S : Type 0} (sch : Scheduler S) where
  -- The service called `n` times in a row.
  unfoldable pub batches : ℕ → S → S
  batches zero w = w
  batches (suc n) w = batches n (sch.message_service.process_messages w).1

  process_batch_unlocked :
      active_lock sch ≡ none → (st : State S) → process_batch sch st ≡ run_service sch st
  unfolding process_batch
  process_batch_unlocked free st = rw (free, process_batch)

  extend_lock_unlocked : active_lock sch ≡ none → (st : State S) → extend_lock sch st ≡ st
  unfolding extend_lock
  extend_lock_unlocked free st = rw (free, extend_lock)

  loop_unlocked :
      active_lock sch ≡ none
      → (es : List Event) (st : State S) → (loop sch es st).world ≡ batches (ticks es) st.world
  unfolding loop run_service batches ticks
  loop_unlocked free [] st = refl
  loop_unlocked free (done ∷ es) st = refl
  loop_unlocked free (tick ∷ es) st =
      loop_unlocked free es (process_batch sch st)
      ∙ ap (λ t. batches (ticks es) t.world) (process_batch_unlocked free st)
  loop_unlocked free (extend_tick ∷ es) st =
      loop_unlocked free es (extend_lock sch st)
      ∙ ap (λ t. batches (ticks es) t.world) (extend_lock_unlocked free st)

  loop_idle :
      (es : List Event) (st : State S) → st.processing ≡ false → (loop sch es st).processing ≡ false
  unfolding loop process_batch extend_lock
  loop_idle [] st h = h
  loop_idle (done ∷ es) st h = h
  loop_idle (tick ∷ es) st h = loop_idle es (process_batch sch st) (ground arith)
  loop_idle (extend_tick ∷ es) st h = loop_idle es (extend_lock sch st) (ground arith)

  -- Without a lock the worker runs the service once at its start and once for each tick that comes
  -- before the end of its context, and changes nothing else outside the scheduler; the extension
  -- ticks do nothing.
  pub process_messages_unlocked :
      active_lock sch ≡ none
      → (es : List Event) (st : State S)
      → (process_messages sch es st).world ≡ batches (suc (ticks es)) st.world
  unfolding process_messages run_service batches
  process_messages_unlocked free es st =
      rw (process_batch_unlocked free st) (loop_unlocked free es (run_service sch st))

  -- Between two batches the flag `processing` is down, if it was down before the worker began.
  pub process_messages_idle :
      (es : List Event) (st : State S)
      → st.processing ≡ false
      → (process_messages sch es st).processing ≡ false
  unfolding process_messages process_batch
  process_messages_idle es st h = loop_idle es (process_batch sch st) (ground arith)

  module _ (l : DistributedLock S) (locked : active_lock sch ≡ some l) (st : State S) where
    -- A batch under a lock, in terms of its calls.
    pub process_batch_locked :
        st.processing ≡ false
        → ((process_batch sch st).processing ≡ false)
          × ((process_batch sch st).world ≡ (
              let a = l.acquire st.world in
              if is_ok a.0
              then (l.release (sch.message_service.process_messages a.1).1).1
              else a.1))
    unfolding process_batch
    process_batch_locked idle = rw (locked, process_batch) (ground arith)
