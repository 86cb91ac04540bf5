-- ===== src/Tests/LockRuns.antt =====
-- The theorems on the lock and on the scheduler over it, at concrete inputs.
use go_message_dispatcher.Base.{
  ℕ, ◌≡◌, refl, ◌≢◌, true, false, none, some, [], ◌∷◌, arith, Text, bytes, ok, is_ok,
}
use go_message_dispatcher.Domain.{MessageService}
use go_message_dispatcher.Lock.{RedisLock, Locked, new_redis_lock, acquire, release, extend}
use go_message_dispatcher.Lock.Owner.{foreign_lock_kept, extend_below_second}
use go_message_dispatcher.Lock.Cluster.{Cluster, view, put, IsStart, here, next, begin}
use go_message_dispatcher.Lock.Cluster.Exclusion.{mutual_exclusion}
use go_message_dispatcher.Redis
use go_message_dispatcher.Redis.{run_script}
use go_message_dispatcher.Scheduler.{State}
use go_message_dispatcher.Scheduler.Stuck.{IsHolding}
use go_message_dispatcher.Tests.MemoryRedis.{Memory, memory, memory-IsRedis, write, value_at}

abbrev pub empty_redis : Memory
empty_redis = record { store = λ _. none; down = false }

abbrev pub mine : RedisLock
mine = new_redis_lock (bytes "L") 180_000_000_000 (bytes "a")

abbrev free : Locked Memory
free = record { lock = mine; world = empty_redis }

abbrev with_other : Locked Memory
with_other = record { lock = mine; world = write empty_redis (bytes "L") (some (bytes "b")) }

abbrev pub holding : Locked Memory
holding = record {
  lock = record mine { acquired = true };
  world = write empty_redis (bytes "L") (some (bytes "a"));
}

other_ne_mine : ◌≢◌ {A = Text} (bytes "b") (bytes "a")
other_ne_mine = ground arith

foreign_lock_kept_example :
    (value_at (release memory with_other).1.world (bytes "L") ≡ some (bytes "b"))
    × (value_at (extend memory with_other).1.world (bytes "L") ≡ some (bytes "b"))
unfolding memory-IsRedis
foreign_lock_kept_example =
    foreign_lock_kept memory memory-IsRedis with_other (bytes "b") refl other_ne_mine

-- A time to live of half a second.
abbrev short : Locked Memory
short = record holding { lock = record (holding.lock) { ttl = 500_000_000 } }

short_answer :
    (memory.eval (Redis.if_owner Redis.expire) (bytes "L") (bytes "a") 0 short.world).0 ≡ ok 1
unfolding run_script
short_answer = refl

extend_below_second_example :
    ((extend memory short).0 ≡ ok tt)
    × ((extend memory short).1.lock.acquired ≡ true)
    × (value_at (extend memory short).1.world (bytes "L") ≡ none)
unfolding memory-IsRedis
extend_below_second_example =
    extend_below_second memory memory-IsRedis short 1 refl (omega arith) refl short_answer

-- Instances whose values are one byte, their number.
abbrev pub fleet : Cluster Memory
fleet = record {
  world = empty_redis;
  locks = λ i. new_redis_lock (bytes "L") 180_000_000_000 (i ∷ []);
  busy = λ _. false;
}

fleet-IsStart : IsStart memory memory-IsRedis (bytes "L") fleet
fleet-IsStart = record { keyed = λ i. refl; distinct = λ i j e. cc; quiet = λ i. refl }

-- The fleet after instance 3 has begun a batch.
abbrev pub at_work : Cluster Memory
at_work = put fleet 3 (acquire memory (view fleet 3)).1 (is_ok (acquire memory (view fleet 3)).0)

mutual_exclusion_example :
    ((i j : ℕ) → at_work.busy i ≡ true → at_work.busy j ≡ true → i ≡ j)
    × ((i : ℕ)
        → at_work.busy i ≡ true
        → value_at at_work.world (bytes "L") ≡ some (at_work.locks i).value)
unfolding memory-IsRedis
mutual_exclusion_example =
    mutual_exclusion memory memory-IsRedis (bytes "L") fleet at_work fleet-IsStart
      (next here (begin 3 refl))

pub at_work_busy : at_work.busy 3 ≡ true
unfolding acquire
at_work_busy = refl

-- A service that would mark the world.
abbrev pub clearing : MessageService (Locked Memory)
clearing = record {
  process_messages = λ s. (ok tt, record s { world = empty_redis });
  get_sent_messages_with_cache = λ s. (ok [], s);
}

abbrev pub left_over : State (Locked Memory)
left_over = record { processing = false; world = holding }

pub left_over-IsHolding : IsHolding memory memory-IsRedis holding
unfolding memory-IsRedis
left_over-IsHolding = record { marked = refl; standing = refl; long = omega arith }
