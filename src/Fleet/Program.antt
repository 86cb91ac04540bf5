-- ===== src/Fleet/Program.antt =====
-- The fleet of the program as `NewApplication` of cmd/server/main.go puts it together: PostgreSQL, and
-- one Redis for the cache and for the lock.
use mathlib.Core.Path.{subst}
use go_message_dispatcher.Base.{
  ℕ, ◌≡◌, refl, sym, ap, ◌∙◌, ◌≢◌, true, List, ◌++◌, Text, All, Elem, Result, Result-cases, inl,
  inr,
}
use go_message_dispatcher.Domain.{Message, CachedDelivery, SmsProvider}
use go_message_dispatcher.Redis.{RedisClient, IsRedis}
use go_message_dispatcher.Repository.Postgres.{Db}
use go_message_dispatcher.Repository.Postgres.Server.{IsPostgres}
use go_message_dispatcher.Repository.Postgres.Fresh.{Keyed, get_unsent_messages_fresh}
use go_message_dispatcher.Repository.Postgres.Keys.{
  get_unsent_messages-Keyed, mark_as_sent-Keyed, get_unsent_messages-Distinct,
}
use go_message_dispatcher.Repository.Cache.{
  Json, new_redis_cache_repository, cache_repository, build_cache_key, set_delivery_cache,
}
use go_message_dispatcher.Repository.Postgres.Marking.{row_sent}
use go_message_dispatcher.Service.{Service, batch_size, process_single_message}
use go_message_dispatcher.Service.Ledger.{IsLedger}
use go_message_dispatcher.Service.Batch.{outgoing, rejected, unmarked, delivered, single}
use go_message_dispatcher.Server.Assembly.{Outside, on_redis, message_service}
use go_message_dispatcher.Server.Assembly.EndToEnd.{IsProvider, program, program-IsLedger}
use go_message_dispatcher.Fleet.{Fleet, Reach}
use go_message_dispatcher.Fleet.Shared.{IsShared}
use go_message_dispatcher.Fleet.Invariant.{Settled, texts}
use go_message_dispatcher.Fleet.Once.{IsFresh, never_again}

-- The client of Redis in the world of all systems.
abbrev pub outside_client : {D R P T : Type 0} → RedisClient R → RedisClient (Outside D R P T)
outside_client c = record {
  set_nx = λ k v t. on_redis (c.set_nx k v t);
  eval = λ s k v n. on_redis (c.eval s k v n);
  set = λ k v t. on_redis (c.set k v t);
  get = λ k. on_redis (c.get k);
  exec_gets = λ ks w. let r = c.exec_gets ks w.redis in (r.0, record w { redis = r.1 });
  ping = on_redis c.ping;
}

unfoldable pub outside_client-IsRedis :
    {D R P T : Type 0} (c : RedisClient R)
    → IsRedis c
    → IsRedis (outside_client {D = D} {P = P} {T = T} c)
outside_client-IsRedis c h = record {
  value_at = λ w. h.value_at w.redis;
  set_nx-true = λ k v t w. h.set_nx-true k v t w.redis;
  set_nx-false = λ k v t w. h.set_nx-false k v t w.redis;
  set_nx-err = λ k v t w. h.set_nx-err k v t w.redis;
  eval-ok = λ s k v n w. h.eval-ok s k v n w.redis;
  eval-err = λ s k v n w. h.eval-err s k v n w.redis;
}

-- `SET` writes its own key alone, whatever it answers.
abbrev pub SetsOwnKey : {R : Type 0} (c : RedisClient R) → IsRedis c → Type 0
SetsOwnKey {R} c h =
    (k v : Text) (t : ℕ) (w : R) (j : Text)
    → j ≢ k
    → h.value_at (c.set k v t w).1 j ≡ h.value_at w j

-- No key comes twice in the table.
abbrev pub KeyedTable : {D R P T : Type 0} {db : Db D} → IsPostgres db → Outside D R P T → Type 0
KeyedTable h w = Keyed (h.table w.db)

module _ {D R P T : Type 0} (db : Db D) (h : IsPostgres db) (c : RedisClient R) (json : Json)
    (walk : List (ℕ × Result Text) → List (ℕ × Result Text)) (provider : SmsProvider P)
    (p : IsProvider provider) (now : T → ℕ × T) where
  abbrev pub fleet_service : Service (Outside D R P T)
  fleet_service =
      program db h (cache_repository (new_redis_cache_repository c json) walk) provider p now

  abbrev pub fleet_ledger : IsLedger fleet_service
  fleet_ledger =
      program-IsLedger db h (cache_repository (new_redis_cache_repository c json) walk) provider p
        now

module _ {D R P T : Type 0} (db : Db D) (h : IsPostgres db) (c : RedisClient R) (g : IsRedis c)
    (own : SetsOwnKey c g) (json : Json) (walk : List (ℕ × Result Text) → List (ℕ × Result Text))
    (provider : SmsProvider P) (p : IsProvider provider) (now : T → ℕ × T) (key : Text)
    (apart : (n : ℕ) → key ≢ build_cache_key n) where
  abbrev dispatcher : Service (Outside D R P T)
  dispatcher = fleet_service db h c json walk provider p now

  abbrev dispatcher-IsLedger : IsLedger dispatcher
  dispatcher-IsLedger = fleet_ledger db h c json walk provider p now

  -- A cached delivery does not touch the key of the lock.
  value-set_delivery_cache :
      (n : ℕ) (d : CachedDelivery) (w : R)
      → g.value_at (set_delivery_cache (new_redis_cache_repository c json) n d w).1 key
        ≡ g.value_at w key
  unfolding set_delivery_cache
  value-set_delivery_cache n d w = elim (Result-cases (json.marshal d)) [
    | inl (text, e) ↦ rw e (own (build_cache_key n) text _ w key (apart n))
    | inr (x, e) ↦ rw e refl
  ]

  single-Keyed :
      (m : Message) (w : Outside D R P T)
      → KeyedTable h w
      → KeyedTable h (process_single_message dispatcher m w).1
  unfolding message_service
  single-Keyed m w keyed = elim (single dispatcher m w) [
    | rejected x sent e ↦ subst (λ r. (KeyedTable h) r.1) (sym e) keyed
    | unmarked r x sent failed e ↦
        subst (λ r. (KeyedTable h) r.1) (sym e) (mark_as_sent-Keyed db h w.db keyed m.id)
    | delivered r sent done e ↦
        subst (λ r. (KeyedTable h) r.1) (sym e) (mark_as_sent-Keyed db h w.db keyed m.id)
  ]

  pub single-value :
      (m : Message) (w : Outside D R P T)
      → g.value_at (process_single_message dispatcher m w).1.redis key ≡ g.value_at w.redis key
  unfolding message_service
  single-value m w = elim (single dispatcher m w) [
    | rejected x sent e ↦ ap (λ r. g.value_at r.1.redis key) e
    | unmarked r x sent failed e ↦ ap (λ r. g.value_at r.1.redis key) e
    | delivered r sent done e ↦
        ap (λ r. g.value_at r.1.redis key) e ∙ value-set_delivery_cache m.id _ w.redis
  ]

  pub fleet-IsShared :
      IsShared
        (outside_client c)
        (outside_client-IsRedis c g)
        key
        dispatcher
        dispatcher-IsLedger
        (KeyedTable h)
  unfolding message_service program-IsLedger outside_client-IsRedis
  fleet-IsShared = record {
    set_nx-SameLedger =
        λ k v t w. record { attempts = refl; accepted = refl; sent = refl; good = λ x. x };
    eval-SameLedger =
        λ x k v n w. record { attempts = refl; accepted = refl; sent = refl; good = λ x. x };
    select-fresh = λ w ms keyed e. (
      get_unsent_messages_fresh db h batch_size w.db ms keyed e,
      get_unsent_messages-Distinct db h w.db keyed batch_size ms e,
    );
    select-good = λ w keyed. get_unsent_messages-Keyed db h w.db keyed batch_size;
    select-value = λ w. refl;
    send-good = λ m w keyed. keyed;
    send-value = λ m w. refl;
    mark-good = λ n w keyed. mark_as_sent-Keyed db h w.db keyed n;
    mark-value = λ n w. refl;
    single-good = λ m w keyed. single-Keyed m w keyed;
    single-value = λ m w. single-value m w;
  }

  -- Any number of instances of the program share PostgreSQL, the provider and Redis, with locks that
  -- differ in their values; the key of the lock is no key of the cache, and SET changes its own key
  -- alone. The rest of the world may change the table, as long as it unmarks no row and no key comes
  -- twice, hands nothing to the provider, which forgets no text, and lets the key of the lock lapse only outside the batch
  -- of its owner. Instances may die at any time: between two calls, or in the work on a message
  -- before its row is marked or before its delivery is cached. Then, from a start without a batch on
  -- which no two rows have the same key, and whatever the interleaving, the provider has been handed
  -- the messages of the history, in order. Of two attempts for one message, the older has failed: the
  -- row was not marked, or not without an error, before the instance gave up or died. A message whose
  -- row has been marked without an error behind an attempt has been accepted by the provider and is
  -- marked as sent in the table.
  pub dispatched_once :
      (s t : Fleet (Outside D R P T))
      → IsFresh
          (outside_client c)
          (outside_client-IsRedis c g)
          key
          dispatcher
          dispatcher-IsLedger
          (KeyedTable h)
          s
      → Reach
          (outside_client c)
          (outside_client-IsRedis c g)
          key
          dispatcher
          dispatcher-IsLedger
          (KeyedTable h)
          s
          t
      → (p.attempts t.cluster.world.provider
          ≡ p.attempts s.cluster.world.provider ++ texts t.history)
        × Settled t.history
        × All
            (λ e. e.1 ≡ true → Elem (outgoing e.0) (p.accepted t.cluster.world.provider))
            t.history
        × All (λ e. e.1 ≡ true → row_sent (h.table t.cluster.world.db) e.0.id ≡ true) t.history
  unfolding program-IsLedger
  dispatched_once s t fresh r =
      never_again (outside_client c) (outside_client-IsRedis c g) key dispatcher dispatcher-IsLedger
        (KeyedTable h) fleet-IsShared s fresh t r
