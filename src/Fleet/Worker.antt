-- ===== src/Fleet/Worker.antt =====
-- The worker of one instance with distributed locking, from the events of its loop to the provider.
use mathlib.Core.List.{append-nil}
use mathlib.Core.Path.{subst}
use go_message_dispatcher.Base.{
  ℕ, suc, ◌*◌, ◌≡◌, refl, sym, ap, ◌∙◌, ◌≢◌, true, false, none, some, List, [], ◌∷◌, ◌++◌, map,
  take, drop, Text, Result, is_ok, ok,
}
use go_message_dispatcher.Domain.{Message, SmsProvider}
use go_message_dispatcher.Redis.{RedisClient, IsRedis}
use go_message_dispatcher.Lock.{Locked, acquire, release, redis_lock}
use go_message_dispatcher.Repository.Postgres.{Db}
use go_message_dispatcher.Repository.Postgres.Server.{IsPostgres}
use go_message_dispatcher.Repository.Postgres.Backlog.{IsBacklog}
use go_message_dispatcher.Repository.Cache.{
  Json, build_cache_key, new_redis_cache_repository, cache_repository,
}
use go_message_dispatcher.Scheduler.{
  State, Event, done, tick, extend_tick, loop, process_batch, extend_lock,
}
use go_message_dispatcher.Scheduler
use go_message_dispatcher.Scheduler.Rounds.{ticks, process_batch_locked}
use go_message_dispatcher.Service.{Service, process_messages}
use go_message_dispatcher.Service.Ledger.{Outgoing}
use go_message_dispatcher.Service.Batch.{outgoing}
use go_message_dispatcher.Server.Assembly.{Outside}
use go_message_dispatcher.Server.Assembly.EndToEnd.{IsProvider}
use go_message_dispatcher.Server.Assembly.Drain.{IsReliable, run_drained, take_more, drop_more}
use go_message_dispatcher.Fleet.Batches.{beside_lock, instance_scheduler}
use go_message_dispatcher.Fleet.Beside.{
  value-process_messages, process_messages-up, outside_client-IsUp, acquire_beside, release_beside,
}
use go_message_dispatcher.Fleet.Program.{
  outside_client, outside_client-IsRedis, SetsOwnKey, fleet_service,
}
use go_message_dispatcher.Lock.Answered.{IsUp, acquire_free, release_own, acquire-up, release-up}

module _ {D R P T : Type 0} (db : Db D) (h : IsPostgres db) (c : RedisClient R) (g : IsRedis c)
    (own : SetsOwnKey c g) (json : Json) (walk : List (ℕ × Result Text) → List (ℕ × Result Text))
    (provider : SmsProvider P) (p : IsProvider provider) (now : T → ℕ × T) (key : Text)
    (apart : (n : ℕ) → key ≢ build_cache_key n) {Calm : D → Type 0} {Open : P → Type 0}
    (reliable : IsReliable db h provider Calm Open) {Up : R → Type 0} (up : IsUp c Up) where
  abbrev dispatcher : Service (Outside D R P T)
  dispatcher = fleet_service db h c json walk provider p now

  -- PostgreSQL, the provider and Redis answer.
  abbrev pub Ready : Outside D R P T → Type 0
  Ready w = Calm w.db × Open w.provider × Up w.redis

  -- Nothing runs and the key is free; `sent` has been accepted, and `q` is the backlog.
  pub record IsIdle (sent : List Outgoing) (q : List Message) (t : Locked (Outside D R P T))
      : Type 0 where
    pub keyed : t.lock.key ≡ key
    pub off : t.lock.acquired ≡ false
    pub free : g.value_at t.world.redis key ≡ none
    pub accepted : p.accepted t.world.provider ≡ sent
    pub backlog : IsBacklog q (h.table t.world.db)
    pub ready : Ready t.world

  module _ (sent : List Outgoing) (q : List Message) (t : Locked (Outside D R P T))
      (idle : IsIdle sent q t) where
    abbrev begun : Locked (Outside D R P T)
    begun = (acquire (outside_client c) t).1

    abbrev served : Locked (Outside D R P T)
    served = (beside_lock (process_messages dispatcher) begun).1

    begun_lem :
        ((acquire (outside_client c) t).0 ≡ ok tt)
        × (begun.lock ≡ record (t.lock) { acquired = true })
        × (g.value_at begun.world.redis t.lock.key ≡ some t.lock.value)
    unfolding outside_client-IsRedis
    begun_lem =
        acquire_free (outside_client c) (outside_client-IsRedis c g)
          (outside_client-IsUp db h c g own json walk provider p now key apart up) t idle.ready.2
          (ap (g.value_at t.world.redis) idle.keyed ∙ idle.free)

    abbrev served_key : served.lock.key ≡ key
    served_key = ap (λ l. l.key) begun_lem.1 ∙ idle.keyed

    served-up : Up served.world.redis
    unfolding outside_client-IsRedis
    served-up = process_messages-up db h c g own json walk provider p now key apart up begun.world (
        acquire-up (outside_client c) (outside_client-IsRedis c g)
          (outside_client-IsUp db h c g own json walk provider p now key apart up) t idle.ready.2)

    served_own : g.value_at served.world.redis served.lock.key ≡ some served.lock.value
    served_own =
        ap (g.value_at served.world.redis) served_key
        ∙ value-process_messages db h c g own json walk provider p now key apart begun.world
        ∙ ap (g.value_at begun.world.redis) (sym idle.keyed)
        ∙ begun_lem.2
        ∙ ap (λ l. some l.value) (sym begun_lem.1)

    freed_lem :
        ((release (outside_client c) served).1.lock ≡ record (served.lock) { acquired = false })
        × (g.value_at (release (outside_client c) served).1.world.redis served.lock.key ≡ none)
    unfolding outside_client-IsRedis
    freed_lem =
        release_own (outside_client c) (outside_client-IsRedis c g)
          (outside_client-IsUp db h c g own json walk provider p now key apart up) served served-up
          (ap (λ l. l.acquired) begun_lem.1) served_own

    -- The calls of one batch work off the first two rows, and free the key again.
    worked-IsIdle :
        IsIdle (sent ++ map outgoing (take 2 q)) (drop 2 q) (release (outside_client c) served).1
    worked-IsIdle =
        let (same_db, same_provider) =
          acquire_beside db h c g own json walk provider p now key apart t in
        let (left_db, left_provider) =
          release_beside db h c g own json walk provider p now key apart served in
        let b : IsBacklog q (h.table begun.world.db) = rw same_db idle.backlog in
        let calm : Calm begun.world.db = rw same_db idle.ready.0 in
        let open_now : Open begun.world.provider = rw same_provider idle.ready.1 in
        let (accepted, rest, still) =
          run_drained db h (cache_repository (new_redis_cache_repository c json) walk) provider p
            now reliable q begun.world (calm, open_now) b in
        record {
          keyed = ap (λ l. l.key) freed_lem.0 ∙ served_key;
          off = ap (λ l. l.acquired) freed_lem.0;
          free =
              ap (g.value_at (release (outside_client c) served).1.world.redis) (sym served_key)
              ∙ freed_lem.1;
          accepted =
              ap p.accepted left_provider
              ∙ accepted
              ∙ ap (λ l. l ++ map outgoing (take 2 q))
                  (ap p.accepted same_provider ∙ idle.accepted);
          backlog = rw left_db rest;
          ready = (
            rw left_db still.0,
            rw left_provider still.1,
            release-up (outside_client c) (outside_client-IsRedis c g)
                (outside_client-IsUp db h c g own json walk provider p now key apart up) served
                served-up,
          );
        }

  -- One batch of the scheduler works off the first two rows, and frees the key again.
  pub batch_worked :
      (interval : ℕ) (sent : List Outgoing) (q : List Message)
      (st : State (Locked (Outside D R P T)))
      → st.processing ≡ false
      → IsIdle sent q st.world
      → let st' = process_batch (instance_scheduler (outside_client c) dispatcher interval) st in
        (st'.processing ≡ false) × IsIdle (sent ++ map outgoing (take 2 q)) (drop 2 q) st'.world
  batch_worked interval sent q st quiet idle =
      let sch = instance_scheduler (outside_client c) dispatcher interval in
      let (still, ran) = process_batch_locked sch (redis_lock (outside_client c)) refl st quiet in
      let got : is_ok (acquire (outside_client c) st.world).0 ≡ true =
        ap is_ok (begun_lem sent q st.world idle).0 in
      (still, subst (IsIdle _ _) (sym (ran ∙ rw got refl)) (worked-IsIdle sent q st.world idle))

  -- Between two batches there is nothing to extend.
  extend_lock_off :
      (interval : ℕ) (st : State (Locked (Outside D R P T)))
      → st.world.lock.acquired ≡ false
      → extend_lock (instance_scheduler (outside_client c) dispatcher interval) st ≡ st
  unfolding extend_lock
  extend_lock_off interval st off = rw off refl

  loop_worked :
      (interval : ℕ) (es : List Event) (sent : List Outgoing) (q : List Message)
      (st : State (Locked (Outside D R P T)))
      → st.processing ≡ false
      → IsIdle sent q st.world
      → IsIdle
          (sent ++ map outgoing (take (2 * ticks es) q))
          (drop (2 * ticks es) q)
          (loop (instance_scheduler (outside_client c) dispatcher interval) es st).world
  unfolding loop ticks
  loop_worked interval [] sent q st quiet idle = rw append-nil idle
  loop_worked interval (done ∷ es) sent q st quiet idle = rw append-nil idle
  loop_worked interval (tick ∷ es) sent q st quiet idle =
      let (still, next) = batch_worked interval sent q st quiet idle in
      let rest =
        loop_worked interval es _ (drop 2 q)
          (process_batch (instance_scheduler (outside_client c) dispatcher interval) st) still
          next in
      rw (← take_more sent (ticks es) q, ← drop_more (ticks es) q) rest
  loop_worked interval (extend_tick ∷ es) sent q st quiet idle =
      let sch = instance_scheduler (outside_client c) dispatcher interval in
      subst
        (λ s.
          IsIdle (sent ++ map outgoing (take (2 * ticks es) q)) (drop (2 * ticks es) q)
            (loop sch es s).world)
        (sym (extend_lock_off interval st idle.off)) (loop_worked interval es sent q st quiet idle)

  -- An instance with distributed locking, alone. From a state with `Calm`, `Open` and `Up` on,
  -- PostgreSQL, the provider and Redis answer and no other transaction locks rows; SET changes its own
  -- key alone, and the key of the lock is no key of the cache and is free at the start. On the events
  -- of its loop the worker runs one batch at its start and one for each tick that comes before the end
  -- of its context. After these `n` batches the provider has accepted the texts of the first 2 * n rows
  -- of the backlog, in the order of the queue and each once, the backlog is the rest, the key of the
  -- lock is free, and the lock does not count itself as held.
  pub worker_drains :
      (interval : ℕ) (es : List Event) (q : List Message) (t : Locked (Outside D R P T))
      → t.lock.key ≡ key
      → t.lock.acquired ≡ false
      → g.value_at t.world.redis key ≡ none
      → IsBacklog q (h.table t.world.db)
      → Calm t.world.db
      → Open t.world.provider
      → Up t.world.redis
      → let sch = instance_scheduler (outside_client c) dispatcher interval in
        let n = suc (ticks es) in
        let t' =
          (Scheduler.process_messages sch es (record { processing = false; world = t })).world in
        (p.accepted t'.world.provider
          ≡ p.accepted t.world.provider ++ map outgoing (take (2 * n) q))
        × IsBacklog (drop (2 * n) q) (h.table t'.world.db)
        × (g.value_at t'.world.redis key ≡ none)
        × (t'.lock.acquired ≡ false)
  unfolding Scheduler.process_messages loop ticks
  worker_drains interval es q t keyed off free b calm open_now still =
      let idle : IsIdle (p.accepted t.world.provider) q t = record {
        keyed = keyed;
        off = off;
        free = free;
        accepted = refl;
        backlog = b;
        ready = (calm, open_now, still);
      } in
      let end =
        loop_worked interval (tick ∷ es) _ q (record { processing = false; world = t }) refl idle in
      (end.accepted, end.backlog, end.free, end.off)
