-- ===== src/Tests/SchedulerRuns.antt =====
-- The theorems on the worker and on `Start` and `Stop` at concrete inputs.
use go_message_dispatcher.Base.{ℕ, suc, ◌+◌, ◌≤◌, ◌≡◌, refl, true, false, List, [], ◌∷◌, length, ok}
use go_message_dispatcher.Domain.{MessageService}
use go_message_dispatcher.Scheduler.{
  Scheduler, Event, done, tick, extend_tick, new_message_scheduler, process_messages,
}
use go_message_dispatcher.Scheduler.Rounds.{ticks, batches, process_messages_idle}
use go_message_dispatcher.Scheduler.Lifecycle.{Life, idle, start, busy, Reach}
use go_message_dispatcher.Scheduler.Lifecycle.Sequential.{PoliteReach, Polite, one_worker}
use go_message_dispatcher.Scheduler.Lifecycle.Overlap.{RunsFrom, restarted, overlapping_workers}

-- A service that counts its calls.
abbrev counting : MessageService ℕ
counting = record {
  process_messages = λ n. (ok tt, n + 1);
  get_sent_messages_with_cache = λ n. (ok [], n);
}

abbrev alone : Scheduler ℕ
alone = new_message_scheduler counting 120_000_000_000

abbrev events : List Event
events = tick ∷ extend_tick ∷ tick ∷ done ∷ tick ∷ []

three_batches : batches alone (suc (ticks events)) 0 ≡ 3
unfolding batches ticks
three_batches = refl

process_messages_idle_example :
    (process_messages alone events (record { processing = false; world = 0 })).processing ≡ false
process_messages_idle_example =
    process_messages_idle alone events (record { processing = false; world = 0 }) refl

abbrev pub started : Life
started = start idle

one_worker_example :
    (length started.workers ≤ 1)
    × (started.running ≡ true
        → (length started.workers ≡ 1) × (started.cancelled started.made ≡ false))
    × (started.running ≡ false → started.waiting ≡ 0 → started.workers ≡ [])
one_worker_example = one_worker started (PoliteReach.next PoliteReach.here (Polite.starts refl))

started_facts : (started.running ≡ true) × (started.workers ≡ busy ∷ [])
unfolding start
started_facts = (refl, refl)

overlapping_workers_example :
    Reach started (restarted started)
    × ((restarted started).workers ≡ busy ∷ busy ∷ [])
    × ((restarted started).running ≡ true)
    × ((t : Life)
        → RunsFrom (restarted started) t
        → (length t.workers ≡ 2) × (t.waiting ≡ started.waiting + 1))
overlapping_workers_example = overlapping_workers started started_facts.0 started_facts.1
