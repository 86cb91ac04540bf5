-- ===== src/Tests/ClusterRuns.antt =====
-- The theorems on several instances and on the end of `Stop`, at concrete inputs.
use go_message_dispatcher.Base.{
  ℕ, zero, suc, ◌+◌, ◌≡◌, refl, ap, true, false, none, some, [], ◌∷◌, arith, Text, bytes, length,
  All, IsByte, ok, is_ok,
}
use go_message_dispatcher.Lock.{acquire, extend, new_redis_lock}
use go_message_dispatcher.Lock.Cluster.{Cluster, IsStart, view, put, here, next, begin}
use go_message_dispatcher.Lock.Cluster.Lapse.{joined, lapse_overlaps}
use go_message_dispatcher.Lock.Value.Drawn.{created, drawn_exclusion}
use go_message_dispatcher.Redis.{if_owner, del, run_script}
use go_message_dispatcher.Scheduler.{
  tick, extend_tick, loop, process_batch, extend_lock, final_release,
}
use go_message_dispatcher.Scheduler.Stuck.{scheduler}
use go_message_dispatcher.Scheduler.Recovery.{freed_by_stop}
use go_message_dispatcher.Tests.LockRuns.{empty_redis, clearing, left_over, left_over-IsHolding}
use go_message_dispatcher.Tests.Outages.{memory-IsUp}
use go_message_dispatcher.Tests.MemoryRedis.{Memory, memory, memory-IsRedis, value_at}

abbrev at_rest : Cluster Memory
at_rest = record {
  world = empty_redis;
  locks = λ i. new_redis_lock (bytes "L") 180_000_000_000 (i ∷ []);
  busy = λ _. false;
}

at_rest-IsStart : IsStart memory memory-IsRedis (bytes "L") at_rest
at_rest-IsStart = record { keyed = λ i. refl; distinct = λ i j e. cc; quiet = λ i. refl }

-- The batch of instance 3 outlives its key.
lapse_overlaps_example :
    let begun = joined memory at_rest 3 in
    let t = joined memory (record begun { world = empty_redis }) 5 in
    (value_at begun.world (bytes "L") ≡ some (3 ∷ []))
    × (t.busy 3 ≡ true)
    × (t.busy 5 ≡ true)
    × (value_at t.world (bytes "L") ≡ some (5 ∷ []))
unfolding memory-IsRedis
lapse_overlaps_example =
    lapse_overlaps memory memory-IsRedis (bytes "L") memory-IsUp at_rest 3 5 empty_redis
      at_rest-IsStart (ground arith) refl refl refl refl

-- Sixteen bytes for instance 0, and one more for each further instance.
abbrev drawn_bytes : ℕ → Text
drawn_bytes zero = bytes "0123456789abcdef"
drawn_bytes (suc i) = b'x' ∷ drawn_bytes i

drawn_bytes-IsByte : (i : ℕ) → All IsByte (drawn_bytes i)
drawn_bytes-IsByte zero = omega arith
drawn_bytes-IsByte (suc i) = (omega arith, drawn_bytes-IsByte i)

length-drawn_bytes : (i : ℕ) → length (drawn_bytes i) ≡ 16 + i
length-drawn_bytes zero = refl
length-drawn_bytes (suc i) = omega (arith, length-drawn_bytes i)

drawn_bytes_injective : (i j : ℕ) → drawn_bytes i ≡ drawn_bytes j → i ≡ j
drawn_bytes_injective i j e = omega (arith, length-drawn_bytes i, length-drawn_bytes j, ap length e)

abbrev new_fleet : Cluster Memory
new_fleet =
    created memory memory-IsRedis (bytes "L") 180_000_000_000 drawn_bytes (λ _. []) empty_redis

abbrev first_at_work : Cluster Memory
first_at_work =
    put new_fleet 0 (acquire memory (view new_fleet 0)).1
      (is_ok (acquire memory (view new_fleet 0)).0)

drawn_exclusion_example :
    ((i j : ℕ) → first_at_work.busy i ≡ true → first_at_work.busy j ≡ true → i ≡ j)
    × ((i : ℕ)
        → first_at_work.busy i ≡ true
        → value_at first_at_work.world (bytes "L") ≡ some (first_at_work.locks i).value)
unfolding memory-IsRedis
drawn_exclusion_example =
    drawn_exclusion memory memory-IsRedis (bytes "L") 180_000_000_000 drawn_bytes (λ _. [])
      empty_redis first_at_work drawn_bytes-IsByte drawn_bytes_injective (next here (begin 0 refl))

answered :
    let t =
      loop
        (scheduler memory memory-IsRedis clearing 120_000_000_000)
        (tick ∷ extend_tick ∷ [])
        left_over in
    (memory.eval (if_owner del) t.world.lock.key t.world.lock.value 0 t.world.world).0 ≡ ok 1
unfolding loop process_batch acquire run_script extend_lock extend
answered = refl

freed_by_stop_example :
    let sc = scheduler memory memory-IsRedis clearing 120_000_000_000 in
    let t = final_release sc (loop sc (tick ∷ extend_tick ∷ []) left_over) in
    (value_at t.world.world (bytes "L") ≡ none) × (t.world.lock.acquired ≡ false)
unfolding memory-IsRedis
freed_by_stop_example =
    freed_by_stop memory memory-IsRedis clearing 120_000_000_000 (tick ∷ extend_tick ∷ []) left_over
      1 left_over-IsHolding answered
