-- ===== src/Scheduler.antt =====
-- internal/scheduler/scheduler.go: a batch under the lock, and the loop of the worker goroutine.
-- The loop runs on the list of the events that its `select` receives. `Start` and `Stop`, which run
-- beside it, are in Scheduler/Lifecycle.antt.
pub mod Rounds
pub mod Stuck
pub mod Recovery
pub mod Lifecycle
use go_message_dispatcher.Base.{
  ℕ, ◌/◌, Bool, true, false, Option, none, some, List, [], ◌∷◌, if◌then◌else◌, is_ok, Result,
}
use go_message_dispatcher.Domain.{MessageService}
use go_message_dispatcher.Lock.{DistributedLock}

-- The fields that do not change while the scheduler runs.
pub record Scheduler (S : Type 0) : Type 0 where
  pub message_service : MessageService S
  pub interval : ℕ
  pub distributed_lock : Option (DistributedLock S)
  pub lock_enabled : Bool

abbrev pub new_message_scheduler : {S : Type 0} → MessageService S → ℕ → Scheduler S
new_message_scheduler service interval = record {
  message_service = service;
  interval = interval;
  distributed_lock = none;
  lock_enabled = false;
}

abbrev pub new_message_scheduler_with_lock :
    {S : Type 0} → MessageService S → ℕ → DistributedLock S → Scheduler S
new_message_scheduler_with_lock service interval l = record {
  message_service = service;
  interval = interval;
  distributed_lock = some l;
  lock_enabled = true;
}

-- The flag `processing`, and the state of everything outside the scheduler, its lock included.
pub record State (S : Type 0) : Type 0 where
  pub processing : Bool
  pub world : S

-- What the `select` of the worker receives.
pub data Event : Type 0 where
  done tick extend_tick : Event

module _ {S : Type 0} (sch : Scheduler S) where
  -- `s.lockEnabled && s.distributedLock != nil`
  abbrev pub active_lock : Option (DistributedLock S)
  active_lock = if sch.lock_enabled then sch.distributed_lock else none

  -- The part of `processBatch` behind the lock, with its deferred reset of the flag.
  unfoldable pub run_service : State S → State S
  run_service st =
      let started = record st { processing = true } in
      let r = sch.message_service.process_messages started.world in
      record started { processing = false; world = r.1 }

  -- The part of `processBatch` in front of it, and the deferred `Release`.
  unfoldable pub locked_batch : DistributedLock S → State S → State S
  locked_batch l st =
      let a = l.acquire st.world in
      let ran = run_service (record st { world = a.1 }) in
      if is_ok a.0
      then record ran { world = (l.release ran.world).1 }
      else record st { world = a.1 }

  unfoldable pub process_batch : State S → State S
  unfolding locked_batch run_service
  process_batch st = elim active_lock [ none ↦ run_service st | some l ↦ locked_batch l st ]

  -- The case of the extension ticker; without a lock its channel is nil and never received from.
  unfoldable pub extend_lock : State S → State S
  extend_lock st = elim active_lock [
    | none ↦ st
    | some l ↦ if l.is_held st.world then record st { world = (l.extend st.world).1 } else st
  ]

  unfoldable pub loop : List Event → State S → State S
  loop [] st = st
  loop (done ∷ es) st = st
  loop (tick ∷ es) st = loop es (process_batch st)
  loop (extend_tick ∷ es) st = loop es (extend_lock st)

  -- The body of the goroutine: a batch at once, then the loop.
  unfoldable pub process_messages : List Event → State S → State S
  process_messages es st = loop es (process_batch st)

  -- The end of `Stop`, behind its wait for the worker: a lock that counts itself as held is released.
  unfoldable pub final_release : State S → State S
  final_release st = elim active_lock [
    | none ↦ st
    | some l ↦ if l.is_held st.world then record st { world = (l.release st.world).1 } else st
  ]
