-- ===== src/Fleet/Failover.antt =====
-- Whatever has happened before, failed calls and deaths of instances included: once the key of the lock is free, any
-- instances work off the backlog by turns.
use mathlib.Core.List.{append-nil}
use mathlib.Core.Path.{subst}
use go_message_dispatcher.Base.{
  ℕ, ◌*◌, ◌≡◌, refl, sym, ap, ◌∙◌, ◌≢◌, false, none, some, List, [], ◌∷◌, ◌++◌, map, take, drop,
  length, Text, Result, All, All-map, Bool-cases, ==_iff, ◌==◌, inl, inr,
}
use go_message_dispatcher.Domain.{Message, SmsProvider}
use go_message_dispatcher.Redis.{RedisClient, IsRedis}
use go_message_dispatcher.Lock.{Locked}
use go_message_dispatcher.Lock.Cluster.{view}
use go_message_dispatcher.Lock.Cluster.Exclusion.{mutual_exclusion, Reach-keyed}
use go_message_dispatcher.Lock.Answered.{IsUp}
use go_message_dispatcher.Repository.Postgres.{Db}
use go_message_dispatcher.Repository.Postgres.Server.{IsPostgres}
use go_message_dispatcher.Repository.Postgres.Backlog.{IsBacklog}
use go_message_dispatcher.Repository.Cache.{Json, build_cache_key}
use go_message_dispatcher.Service.{Service}
use go_message_dispatcher.Service.Ledger.{Outgoing}
use go_message_dispatcher.Service.Batch.{outgoing}
use go_message_dispatcher.Server.Assembly.{Outside}
use go_message_dispatcher.Server.Assembly.EndToEnd.{IsProvider}
use go_message_dispatcher.Server.Assembly.Drain.{IsReliable, take_more, drop_more}
use go_message_dispatcher.Fleet.{Fleet, Reach, Reach-append}
use go_message_dispatcher.Fleet.Batches.{batched, batch_runs, instance_state}
use go_message_dispatcher.Fleet.Once.{IsFresh, Reach-cluster}
use go_message_dispatcher.Fleet.Program.{
  SetsOwnKey, KeyedTable, fleet_service, fleet_ledger, outside_client, outside_client-IsRedis,
  fleet-IsShared,
}
use go_message_dispatcher.Fleet.Worker.{Ready, IsIdle, batch_worked}

-- The instances of a list run a batch each, one behind the other.
abbrev pub turns : {W : Type 0} → RedisClient W → Service W → List ℕ → Fleet W → Fleet W
turns c s [] f = f
turns c s (j ∷ js) f = turns c s js (batched c s j f)

no_value : {v : Text} → none ≢ some v
no_value e = cc

module _ {D R P T : Type 0} (db : Db D) (h : IsPostgres db) (c : RedisClient R) (g : IsRedis c)
    (own : SetsOwnKey c g) (json : Json) (walk : List (ℕ × Result Text) → List (ℕ × Result Text))
    (provider : SmsProvider P) (p : IsProvider provider) (now : T → ℕ × T) (key : Text)
    (apart : (n : ℕ) → key ≢ build_cache_key n) {Calm : D → Type 0} {Open : P → Type 0}
    (reliable : IsReliable db h provider Calm Open) {Up : R → Type 0} (up : IsUp c Up) where
  abbrev client : RedisClient (Outside D R P T)
  client = outside_client c

  abbrev dispatcher : Service (Outside D R P T)
  dispatcher = fleet_service db h c json walk provider p now

  abbrev Program : Type 0
  Program = Fleet (Outside D R P T)

  abbrev Run : Program → Program → Type 0
  Run =
      Reach client (outside_client-IsRedis c g) key dispatcher
        (fleet_ledger db h c json walk provider p now) (KeyedTable h)

  abbrev Fresh : Program → Type 0
  Fresh =
      IsFresh client (outside_client-IsRedis c g) key dispatcher
        (fleet_ledger db h c json walk provider p now) (KeyedTable h)

  module _ (s : Program) (fresh : Fresh s) where
    -- All use the key, and none runs a batch while it is free.
    locks_lem :
        (f : Program)
        → Run s f
        → ((i : ℕ) → (f.cluster.locks i).key ≡ key)
          × (g.value_at f.cluster.world.redis key ≡ none → (i : ℕ) → f.cluster.busy i ≡ false)
    unfolding outside_client-IsRedis
    locks_lem f r =
        let steps =
          Reach-cluster client (outside_client-IsRedis c g) key dispatcher
            (fleet_ledger db h c json walk provider p now) (KeyedTable h)
            (fleet-IsShared db h c g own json walk provider p now key apart) r in
        let holds =
          (mutual_exclusion client (outside_client-IsRedis c g) key s.cluster f.cluster fresh.start
            steps).1 in
        (
          Reach-keyed client (outside_client-IsRedis c g) key s.cluster f.cluster fresh.start steps,
          (λ free i. elim (Bool-cases (f.cluster.busy i)) [
            | inl on ↦ absurd (no_value (sym free ∙ holds i on))
            | inr off ↦ off
          ]),
        )

    abbrev Answering : Outside D R P T → Type 0
    Answering = Ready db h c g own json walk provider p now key apart reliable up

    abbrev Idle : List Outgoing → List Message → Locked (Outside D R P T) → Type 0
    Idle = IsIdle db h c g own json walk provider p now key apart reliable up

    -- The locks of these instances do not count themselves as held.
    abbrev Off : Program → List ℕ → Type 0
    Off f js = All (λ j. (f.cluster.locks j).acquired ≡ false) js

    -- One batch: the first two rows are worked off, and the key is free again.
    turn_lem :
        (f : Program) (j : ℕ) (q : List Message)
        → Run s f
        → (f.cluster.locks j).acquired ≡ false
        → g.value_at f.cluster.world.redis key ≡ none
        → IsBacklog q (h.table f.cluster.world.db)
        → Answering f.cluster.world
        → let t = batched client dispatcher j f in
          Run s t
          × Idle
              (p.accepted f.cluster.world.provider ++ map outgoing (take 2 q))
              (drop 2 q)
              (view t.cluster j)
          × ((i : ℕ) → (i == j) ≡ false → t.cluster.locks i ≡ f.cluster.locks i)
    turn_lem f j q r off free b ready =
        let (keyed, quiet) = locks_lem f r in
        let (run, same, _, others) =
          batch_runs client (outside_client-IsRedis c g) key dispatcher
            (fleet_ledger db h c json walk provider p now) (KeyedTable h) 0 f j (quiet free j) in
        let (_, idle) =
          batch_worked db h c g own json walk provider p now key apart reliable up 0
            (p.accepted f.cluster.world.provider) q (instance_state f j) refl
            (record {
              keyed = keyed j;
              off = off;
              free = free;
              accepted = refl;
              backlog = b;
              ready = ready;
            }) in
        (
          Reach-append client (outside_client-IsRedis c g) key dispatcher
              (fleet_ledger db h c json walk provider p now) (KeyedTable h) r run,
          subst
              (λ x.
                Idle (p.accepted f.cluster.world.provider ++ map outgoing (take 2 q)) (drop 2 q)
                  x.world)
              same idle,
          others,
        )

    Off-batched :
        (f t : Program) (j : ℕ) (js : List ℕ)
        → (t.cluster.locks j).acquired ≡ false
        → ((i : ℕ) → (i == j) ≡ false → t.cluster.locks i ≡ f.cluster.locks i)
        → Off f js
        → Off t js
    Off-batched f t j js off others held =
        All-map
          (λ i was. elim (Bool-cases (i == j)) [
            | inl same ↦ ap (λ k. (t.cluster.locks k).acquired) ((==_iff i j).0 same) ∙ off
            | inr other ↦ ap (λ l. l.acquired) (others i other) ∙ was
          ])
          js held

    -- The state `f` has been reached from a start without a batch, by any interleaving of the calls of
    -- all instances, failed ones included, of their deaths and of outside steps. In it the key of the
    -- lock is free, as when the value of a dead instance has lapsed, and `Calm`, `Open` and `Up` hold:
    -- from here on PostgreSQL, the provider and Redis answer and no other transaction locks rows. SET
    -- changes its own key alone, and the key of the lock is no key of the cache. Then let `n` instances
    -- run a batch each by turns, an instance also more than once, all of them with locks that do not
    -- count themselves as held in `f`. The provider accepts the texts of the first 2 * n rows of the
    -- backlog, in the order of the queue and each once, the backlog is the rest, and the key is free
    -- again. A batch is that of `processBatch`, by `batch_runs` of Fleet/Batches.
    pub fleet_drains :
        (js : List ℕ) (f : Program) (q : List Message)
        → Run s f
        → Off f js
        → g.value_at f.cluster.world.redis key ≡ none
        → IsBacklog q (h.table f.cluster.world.db)
        → Calm f.cluster.world.db
        → Open f.cluster.world.provider
        → Up f.cluster.world.redis
        → let t = turns client dispatcher js f in
          let n = length js in
          Run s t
          × (p.accepted t.cluster.world.provider
              ≡ p.accepted f.cluster.world.provider ++ map outgoing (take (2 * n) q))
          × IsBacklog (drop (2 * n) q) (h.table t.cluster.world.db)
          × (g.value_at t.cluster.world.redis key ≡ none)
    fleet_drains [] f q r off free b calm open_now still = (r, rw append-nil refl, b, free)
    fleet_drains (j ∷ js) f q r (off, offs) free b calm open_now still =
        let (run, idle, others) = turn_lem f j q r off free b (calm, open_now, still) in
        let t = batched client dispatcher j f in
        let (all, accepted, rest, freed_again) =
          fleet_drains js t (drop 2 q) run (Off-batched f t j js idle.off others offs) idle.free
            idle.backlog idle.ready.0 idle.ready.1 idle.ready.2 in
        (
          all,
          accepted
              ∙ ap (λ l. l ++ map outgoing (take (2 * length js) (drop 2 q))) idle.accepted
              ∙ take_more (p.accepted f.cluster.world.provider) (length js) q,
          subst (λ l. IsBacklog l (h.table (turns client dispatcher js t).cluster.world.db))
              (drop_more (length js) q) rest,
          freed_again,
        )
