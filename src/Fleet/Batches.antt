-- ===== src/Fleet/Batches.antt =====
-- `processBatch` of an instance, over the message service and the Redis lock, as a run of the fleet.
use go_message_dispatcher.Base.{
  ℕ, ◌≡◌, refl, sym, ap, ◌∙◌, Bool, true, false, none, some, List, [], ◌∷◌, ◌==◌, ==_refl,
  Bool-cases, inl, inr, Text, is_ok, Action, if◌then◌else◌, Result-cases,
}
use go_message_dispatcher.Domain.{Message}
use go_message_dispatcher.Redis.{RedisClient, IsRedis}
use go_message_dispatcher.Lock.{Locked, acquire, release, redis_lock}
use go_message_dispatcher.Lock.Cluster.{Cluster, view, put, update}
use go_message_dispatcher.Scheduler.{Scheduler, State, new_message_scheduler_with_lock}
use go_message_dispatcher.Scheduler
use go_message_dispatcher.Service.{
  Service, Tally, batch_size, process_single_message, process_batch, process_all, process_messages,
}
use go_message_dispatcher.Service
use go_message_dispatcher.Service.Ledger.{IsLedger}
use go_message_dispatcher.Fleet.{
  Fleet, batch_of, moved, taken, fetched, handled, freed, takes, reads, sends, frees, Reach, here,
  next,
}

abbrev pub none_yet : Tally
none_yet = record { failed_count = 0; success_count = 0 }

-- A call that leaves the lock alone.
abbrev pub beside_lock : {W A : Type 0} → Action W A → Action (Locked W) A
beside_lock m t = let r = m t.world in (r.0, record t { world = r.1 })

-- The state of the scheduler of an instance that is not in a batch.
abbrev pub instance_state : {W : Type 0} → Fleet W → ℕ → State (Locked W)
instance_state f i = record { processing = false; world = view f.cluster i }

module _ {W : Type 0} (c : RedisClient W) (s : Service W) where
  -- The scheduler of an instance.
  abbrev pub instance_scheduler : ℕ → Scheduler (Locked W)
  instance_scheduler interval =
      new_message_scheduler_with_lock
        (record {
          process_messages = beside_lock (process_messages s);
          get_sent_messages_with_cache = beside_lock (Service.get_sent_messages_with_cache s);
        })
        interval (redis_lock c)

  -- The rounds of the loop over a batch.
  abbrev drained : ℕ → List Message → Fleet W → Fleet W
  drained i [] f = f
  drained i (m ∷ ms) f = drained i ms (handled c s f i m ms)

  -- The calls behind a successful `Acquire`.
  abbrev worked : ℕ → Fleet W → Fleet W
  worked i f =
      let r = s.message_repo.get_unsent_messages batch_size f.cluster.world in
      freed c s (drained i (batch_of r.0) (fetched c s f i)) i

  -- All calls of one batch.
  abbrev pub batched : ℕ → Fleet W → Fleet W
  batched i f =
      if is_ok (acquire c (view f.cluster i)).0 then worked i (taken c s f i) else taken c s f i

  cluster-drained :
      (i : ℕ) (ms : List Message) (t : Tally) (f : Fleet W)
      → (drained i ms f).cluster ≡ moved f.cluster (process_batch s ms t f.cluster.world).1
  unfolding process_batch
  cluster-drained i [] t f = refl
  cluster-drained i (m ∷ ms) t f = cluster-drained i ms _ (handled c s f i m ms)

  todo-drained :
      (i : ℕ) (ms : List Message) (f : Fleet W)
      → f.todo i ≡ some ms
      → (drained i ms f).todo i ≡ some []
  todo-drained i [] f e = e
  todo-drained i (m ∷ ms) f e = todo-drained i ms (handled c s f i m ms) (rw ==_refl refl)

  pub world-process_messages :
      (w : W)
      → let r = s.message_repo.get_unsent_messages batch_size w in
        (process_messages s w).1 ≡ (process_batch s (batch_of r.0) (none_yet) r.1).1
  unfolding process_messages process_all process_batch
  world-process_messages w =
      elim (Result-cases (s.message_repo.get_unsent_messages batch_size w).0) [
        | inl (m ∷ ms, e) ↦ rw (e, process_messages) refl
        | inl ([], e) ↦ rw (e, process_messages) refl
        | inr (x, e) ↦ rw (e, process_messages) refl
      ]

  view-put : (k : Cluster W) (i : ℕ) (t : Locked W) (b : Bool) → view (put k i t b) i ≡ t
  view-put k i t b = rw ==_refl refl

  -- The instance behind its batch: `Release` is the last call.
  cluster-worked :
      (i : ℕ) (g : Fleet W)
      → (worked i g).cluster
        ≡ put g.cluster i
            (release c (beside_lock (process_messages s) (view g.cluster i)).1).1
            false
  cluster-worked i g =
      ap (λ k. put k i (release c (view k i)).1 false)
        (cluster-drained i _ _ (fetched c s g i)
          ∙ ap (moved g.cluster) (sym (world-process_messages g.cluster.world)))

  instance_state-worked :
      (f : Fleet W) (i : ℕ)
      → instance_state (worked i (taken c s f i)) i ≡ record {
        processing = false;
        world = (release c (beside_lock (process_messages s) (acquire c (view f.cluster i)).1).1).1;
      }
  instance_state-worked f i =
      let a = acquire c (view f.cluster i) in
      ap (λ t. record { processing = false; world = t })
        (ap (λ k. view k i) (cluster-worked i (taken c s f i))
          ∙ view-put (taken c s f i).cluster i _ false
          ∙ ap (λ t. (release c (beside_lock (process_messages s) t).1).1)
              (view-put f.cluster i a.1 (is_ok a.0)))

  process_batch-batched :
      (interval : ℕ) (f : Fleet W) (i : ℕ)
      → Scheduler.process_batch (instance_scheduler interval) (instance_state f i)
        ≡ instance_state (batched i f) i
  unfolding Scheduler.process_batch Scheduler.run_service Scheduler.locked_batch
  process_batch-batched interval f i = elim (Bool-cases (is_ok (acquire c (view f.cluster i)).0)) [
    | inl on ↦ rw on (rw on at (sym (instance_state-worked f i)))
    | inr off ↦ rw off (rw ==_refl refl)
  ]

  busy-batched : (f : Fleet W) (i : ℕ) → (batched i f).cluster.busy i ≡ false
  busy-batched f i = elim (Bool-cases (is_ok (acquire c (view f.cluster i)).0)) [
    | inl on ↦ rw on (rw ==_refl refl)
    | inr off ↦ rw off (rw ==_refl refl)
  ]

  locks-batched :
      (f : Fleet W) (i j : ℕ) → (j == i) ≡ false → (batched i f).cluster.locks j ≡ f.cluster.locks j
  locks-batched f i j other = elim (Bool-cases (is_ok (acquire c (view f.cluster i)).0)) [
    | inl on ↦ rw on (ap (λ k. k.locks j) (cluster-worked i _) ∙ rw other refl)
    | inr off ↦ rw off (rw other refl)
  ]

module _ {W : Type 0} (c : RedisClient W) (h : IsRedis c) (key : Text) (s : Service W)
    (l : IsLedger s) (Good : W → Type 0) where
  abbrev Run : Fleet W → Fleet W → Type 0
  Run = Reach c h key s l Good

  Reach-drained :
      (i : ℕ) (ms : List Message) (f g : Fleet W)
      → Run f g
      → g.cluster.busy i ≡ true
      → g.todo i ≡ some ms
      → Run f (drained c s i ms g)
  Reach-drained i [] f g r on e = r
  Reach-drained i (m ∷ ms) f g r on e =
      Reach-drained i ms f (handled c s g i m ms) (next r (sends i m ms on e)) on (rw ==_refl refl)

  Reach-worked :
      (i : ℕ) (f g : Fleet W)
      → Run f g
      → g.cluster.busy i ≡ true
      → g.todo i ≡ none
      → Run f (worked c s i g)
  Reach-worked i f g r on e =
      let ms = batch_of (s.message_repo.get_unsent_messages batch_size g.cluster.world).0 in
      let busy = ap (λ k. k.busy i) (cluster-drained c s i ms none_yet (fetched c s g i)) ∙ on in
      let read : update g.todo i (some ms) i ≡ some ms = rw ==_refl refl in
      next (Reach-drained i ms f (fetched c s g i) (next r (reads i on e)) on read)
        (frees i busy (todo-drained c s i ms (fetched c s g i) read))

  Reach-batched : (f : Fleet W) (i : ℕ) → f.cluster.busy i ≡ false → Run f (batched c s i f)
  Reach-batched f i idle =
      let first : Run f (taken c s f i) = next here (takes i idle) in
      elim (Bool-cases (is_ok (acquire c (view f.cluster i)).0)) [
        | inl on ↦
            let busy : (taken c s f i).cluster.busy i ≡ true = rw ==_refl on in
            let unread : (taken c s f i).todo i ≡ none = rw ==_refl refl in
            rw on (rw on at (Reach-worked i f (taken c s f i) first busy unread))
        | inr off ↦ rw off (rw off at first)
      ]

  -- While an instance is not in a batch, `processBatch` of its scheduler is a run of the fleet. It
  -- ends with the same world and the same lock as the run, and again outside a batch, and the locks
  -- of the others stay.
  pub batch_runs :
      (interval : ℕ) (f : Fleet W) (i : ℕ)
      → f.cluster.busy i ≡ false
      → let g = batched c s i f in
        Reach c h key s l Good f g
        × (Scheduler.process_batch (instance_scheduler c s interval) (instance_state f i)
            ≡ instance_state g i)
        × (g.cluster.busy i ≡ false)
        × ((j : ℕ) → (j == i) ≡ false → g.cluster.locks j ≡ f.cluster.locks j)
  batch_runs interval f i idle = (
    Reach-batched f i idle,
    process_batch-batched c s interval f i,
    busy-batched c s f i,
    locks-batched c s f i,
  )
