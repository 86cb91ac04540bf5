-- ===== src/Fleet/Beside.antt =====
-- The work on messages stays beside the key of the lock, and the calls of the lock beside the rest.
use go_message_dispatcher.Base.{
  ℕ, ◌≡◌, refl, sym, ap, ◌∙◌, ◌≢◌, Result-cases, List, [], ◌∷◌, Text, Result, Bool-cases, inl, inr,
}
use go_message_dispatcher.Domain.{Message, CachedDelivery, SmsProvider}
use go_message_dispatcher.Redis.{RedisClient, IsRedis}
use go_message_dispatcher.Lock.{Locked, acquire, release}
use go_message_dispatcher.Repository.Postgres.{Db}
use go_message_dispatcher.Repository.Postgres.Server.{IsPostgres}
use go_message_dispatcher.Repository.Cache.{
  Json, build_cache_key, new_redis_cache_repository, set_delivery_cache,
}
use go_message_dispatcher.Service.{
  Service, Tally, batch_size, process_single_message, process_messages,
}
use go_message_dispatcher.Service
use go_message_dispatcher.Service.Batch.{rejected, unmarked, delivered, single}
use mathlib.Core.Path.{subst}
use go_message_dispatcher.Server.Assembly.{Outside, message_service}
use go_message_dispatcher.Server.Assembly.EndToEnd.{IsProvider}
use go_message_dispatcher.Fleet.{batch_of}
use go_message_dispatcher.Fleet.Batches.{none_yet, world-process_messages}
use go_message_dispatcher.Fleet.Program.{outside_client, SetsOwnKey, fleet_service, single-value}
use go_message_dispatcher.Lock.Answered.{IsUp}

module _ {D R P T : Type 0} (db : Db D) (h : IsPostgres db) (c : RedisClient R) (g : IsRedis c)
    (own : SetsOwnKey c g) (json : Json) (walk : List (ℕ × Result Text) → List (ℕ × Result Text))
    (provider : SmsProvider P) (p : IsProvider provider) (now : T → ℕ × T) (key : Text)
    (apart : (n : ℕ) → key ≢ build_cache_key n) where
  abbrev dispatcher : Service (Outside D R P T)
  dispatcher = fleet_service db h c json walk provider p now

  value-process_batch :
      (ms : List Message) (t : Tally) (w : Outside D R P T)
      → g.value_at (Service.process_batch dispatcher ms t w).1.redis key ≡ g.value_at w.redis key
  unfolding Service.process_batch
  value-process_batch [] t w = refl
  value-process_batch (m ∷ ms) t w =
      value-process_batch ms _ (process_single_message dispatcher m w).1
      ∙ single-value db h c g own json walk provider p now key apart m w

  -- The key of the lock stays as it is during a run of `ProcessMessages`.
  pub value-process_messages :
      (w : Outside D R P T)
      → g.value_at (process_messages dispatcher w).1.redis key ≡ g.value_at w.redis key
  unfolding message_service
  value-process_messages w =
      ap (λ v. g.value_at v.redis key) (world-process_messages (outside_client c) dispatcher w)
      ∙ value-process_batch (batch_of (dispatcher.message_repo.get_unsent_messages batch_size w).0)
          none_yet _

  module _ {Up : R → Type 0} (up : IsUp c Up) where
    set_delivery_cache-up :
        (n : ℕ) (d : CachedDelivery) (w : R)
        → Up w
        → Up (set_delivery_cache (new_redis_cache_repository c json) n d w).1
    unfolding set_delivery_cache
    set_delivery_cache-up n d w still = elim (Result-cases (json.marshal d)) [
      | inl (text, e) ↦ rw e (up.set-up _ text _ w still)
      | inr (x, e) ↦ rw e still
    ]

    single-up :
        (m : Message) (w : Outside D R P T)
        → Up w.redis
        → Up (process_single_message dispatcher m w).1.redis
    unfolding message_service
    single-up m w still = elim (single dispatcher m w) [
      | rejected x sent e ↦ subst (λ r. Up r.1.redis) (sym e) still
      | unmarked r x sent failed e ↦ subst (λ r. Up r.1.redis) (sym e) still
      | delivered r sent done e ↦
          subst (λ r. Up r.1.redis) (sym e) (set_delivery_cache-up m.id _ w.redis still)
    ]

    process_batch-up :
        (ms : List Message) (t : Tally) (w : Outside D R P T)
        → Up w.redis
        → Up (Service.process_batch dispatcher ms t w).1.redis
    unfolding Service.process_batch
    process_batch-up [] t w still = still
    process_batch-up (m ∷ ms) t w still =
        process_batch-up ms _ (process_single_message dispatcher m w).1 (single-up m w still)

    -- Redis still answers behind a run of `ProcessMessages`.
    pub process_messages-up :
        (w : Outside D R P T) → Up w.redis → Up (process_messages dispatcher w).1.redis
    unfolding message_service
    process_messages-up w still =
        subst (λ v. Up v.redis) (sym (world-process_messages (outside_client c) dispatcher w))
          (process_batch-up (batch_of (dispatcher.message_repo.get_unsent_messages batch_size w).0)
            none_yet _ still)

    pub outside_client-IsUp : IsUp (outside_client {D = D} {P = P} {T = T} c) (λ w. Up w.redis)
    outside_client-IsUp = record {
      set_nx-answered = λ k v t w. up.set_nx-answered k v t w.redis;
      eval-answered = λ s k v n w. up.eval-answered s k v n w.redis;
      set_nx-up = λ k v t w. up.set_nx-up k v t w.redis;
      eval-up = λ s k v n w. up.eval-up s k v n w.redis;
      set-up = λ k v t w. up.set-up k v t w.redis;
    }

  -- The calls of the lock reach neither the table nor the provider.
  pub acquire_beside :
      (t : Locked (Outside D R P T))
      → ((acquire (outside_client c) t).1.world.db ≡ t.world.db)
        × ((acquire (outside_client c) t).1.world.provider ≡ t.world.provider)
  unfolding acquire
  acquire_beside t = (refl, refl)

  pub release_beside :
      (t : Locked (Outside D R P T))
      → ((release (outside_client c) t).1.world.db ≡ t.world.db)
        × ((release (outside_client c) t).1.world.provider ≡ t.world.provider)
  unfolding release
  release_beside t = elim (Bool-cases t.lock.acquired) [
    | inl on ↦ rw on (refl, refl)
    | inr off ↦ rw off (refl, refl)
  ]
