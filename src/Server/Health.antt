-- ===== src/Server/Health.antt =====
-- What `GET /health` tells of the systems behind the program, and what it does not: an outage of Redis
-- ends the dispatch of an instance with distributed locking.
use go_message_dispatcher.Base.{
  ℕ, ◌≡◌, refl, sym, ◌∙◌, false, Bool-cases, inl, inr, List, [], ◌∷◌, Text, Error, err, is_ok,
  if◌then◌else◌,
}
use mathlib.Core.Path.{subst}
use go_message_dispatcher.Domain.{MessageService, HealthChecker}
use go_message_dispatcher.Handler.{VersionInfo, Reply, health_check}
use go_message_dispatcher.Lock.{Locked, acquire, extend, redis_lock}
use go_message_dispatcher.Redis.{RedisClient}
use go_message_dispatcher.Repository.Postgres.{Db, db_health}
use go_message_dispatcher.Repository.Cache.{RedisCache, cache_health}
use go_message_dispatcher.Scheduler.{
  Scheduler, State, Event, done, tick, extend_tick, loop, process_batch, extend_lock,
}
use go_message_dispatcher.Scheduler
use go_message_dispatcher.Scheduler.Rounds.{process_batch_locked}
use go_message_dispatcher.Service.{Service}
use go_message_dispatcher.Server.Application.{Process}
use go_message_dispatcher.Server.Assembly.{Outside, on_db, on_redis}
use go_message_dispatcher.Server.Routes.{message_handler}
use go_message_dispatcher.Fleet.Batches.{instance_scheduler}
use go_message_dispatcher.Fleet.Program.{outside_client}

-- `SetNX` is answered with an error, whatever the state of the client.
abbrev pub IsDown : {R : Type 0} → RedisClient R → Type 0
IsDown {R} c = (k v : Text) (t : ℕ) (w : R) → (e : Error) × ((c.set_nx k v t w).0 ≡ err e)

module _ {D R P T : Type 0} (c : RedisClient R) (down : IsDown c) (s : Service (Outside D R P T))
    (interval : ℕ) where
  abbrev sch : Scheduler (Locked (Outside D R P T))
  sch = instance_scheduler (outside_client c) s interval

  -- The table and the provider are as before.
  abbrev SameOutside : Locked (Outside D R P T) → Locked (Outside D R P T) → Type 0
  SameOutside t u = (u.world.db ≡ t.world.db) × (u.world.provider ≡ t.world.provider)

  SameOutside-trans :
      (t u v : Locked (Outside D R P T)) → SameOutside t u → SameOutside u v → SameOutside t v
  SameOutside-trans t u v (a, b) (x, y) = (x ∙ a, y ∙ b)

  acquire_down :
      (t : Locked (Outside D R P T))
      → (is_ok (acquire (outside_client c) t).0 ≡ false)
        × SameOutside t (acquire (outside_client c) t).1
  unfolding acquire
  acquire_down t =
      let (e, failed) = down t.lock.key t.lock.value t.lock.ttl t.world.redis in
      (rw failed refl, (refl, refl))

  extend_outside :
      (st : State (Locked (Outside D R P T)))
      → SameOutside st.world (extend_lock sch st).world
        × ((extend_lock sch st).processing ≡ st.processing)
  unfolding extend_lock extend
  extend_outside st = elim (Bool-cases st.world.lock.acquired) [
    | inl on ↦ simp on ((refl, refl), refl)
    | inr off ↦ simp off ((refl, refl), refl)
  ]

  batch_outside :
      (st : State (Locked (Outside D R P T)))
      → st.processing ≡ false
      → let st' = process_batch sch st in SameOutside st.world st'.world × (st'.processing ≡ false)
  batch_outside st idle =
      let (still, ran) = process_batch_locked sch (redis_lock (outside_client c)) refl st idle in
      let (refused, same) = acquire_down st.world in
      let end : (process_batch sch st).world ≡ (acquire (outside_client c) st.world).1 =
        ran ∙ rw refused refl in
      (subst (SameOutside st.world) (sym end) same, still)

  loop_outside :
      (es : List Event) (st : State (Locked (Outside D R P T)))
      → st.processing ≡ false
      → SameOutside st.world (loop sch es st).world
  unfolding loop
  loop_outside [] st idle = (refl, refl)
  loop_outside (done ∷ es) st idle = (refl, refl)
  loop_outside (tick ∷ es) st idle =
      let (same, still) = batch_outside st idle in
      SameOutside-trans st.world (process_batch sch st).world
        (loop sch es (process_batch sch st)).world same
        (loop_outside es (process_batch sch st) still)
  loop_outside (extend_tick ∷ es) st idle =
      let (same, still) = extend_outside st in
      SameOutside-trans st.world (extend_lock sch st).world (loop sch es (extend_lock sch st)).world
        same (loop_outside es (extend_lock sch st) (still ∙ idle))

module _ {D R P T : Type 0} (db : Db D) (cache : RedisCache R) (version : VersionInfo)
    (service : MessageService (Outside D R P T)) where
  abbrev on_database : HealthChecker (Outside D R P T)
  on_database = record { check_health = on_db (db_health db).check_health }

  abbrev on_cache : HealthChecker (Outside D R P T)
  on_cache = record { check_health = on_redis (cache_health cache).check_health }

  -- The answer to `GET /health` of the handler that `NewApplication` makes.
  abbrev pub health_answer : Process (Outside D R P T) → Reply × Process (Outside D R P T)
  health_answer = health_check (message_handler service version on_database on_cache)

  -- The status code is 200 if the ping of the database is answered and 503 if not, whatever Redis
  -- does. While `SetNX` fails, an instance with distributed locking hands nothing to the provider and
  -- leaves the table alone, on whatever events its loop receives; the code does not show this.
  pub unseen_outage :
      IsDown cache.client
      → (s : Service (Outside D R P T)) (interval : ℕ) (es : List Event)
        (t : Locked (Outside D R P T)) (p : Process (Outside D R P T))
      → let sch = instance_scheduler (outside_client cache.client) s interval in
        let u =
          (Scheduler.process_messages sch es (record { processing = false; world = t })).world in
        (u.world.provider ≡ t.world.provider)
        × (u.world.db ≡ t.world.db)
        × ((health_answer p).0.code ≡ (if is_ok (db.ping p.outside.db).0 then 200 else 503))
  unfolding health_check Scheduler.process_messages loop
  unseen_outage down s interval es t p =
      let st : State (Locked (Outside D R P T)) = record { processing = false; world = t } in
      let (same_db, same_provider) =
        loop_outside cache.client down s interval (tick ∷ es) st refl in
      (same_provider, same_db, refl)
