-- ===== src/Scheduler/Stuck.antt =====
-- The scheduler over the Redis lock after a `Release` that failed: the lock still counts itself as
-- held, its value still stands at the key, and the worker of the same instance cannot get it back.
use mathlib.Core.Path.{subst}
use go_message_dispatcher.Base.{
  ℕ, ◌≤◌, ◌≡◌, refl, ◌∙◌, sym, ap, true, some, List, [], ◌∷◌, arith, Text, text_eq_refl, Result, ok,
  err,
}
use go_message_dispatcher.Domain.{MessageService}
use go_message_dispatcher.Redis.{RedisClient, IsRedis, if_owner, expire, run_script}
use go_message_dispatcher.Lock.{Locked, acquire, extend, redis_lock, ttl_seconds}
use go_message_dispatcher.Lock.Owner.{acquire_held}
use go_message_dispatcher.Scheduler.{
  Scheduler, State, Event, done, tick, extend_tick, new_message_scheduler_with_lock, process_batch,
  extend_lock, loop,
}

-- The script of `Extend` with at least one second leaves the caller's value, and answers 1.
run_script-renew :
    (v : Text) (n : ℕ) → 1 ≤ n → run_script (if_owner expire) v n (some v) ≡ (1, some v)
unfolding run_script
run_script-renew v n h = rw text_eq_refl (ground arith)

module _ {W : Type 0} (c : RedisClient W) (h : IsRedis c) where
  open h use {value_at}

  -- The lock counts itself as held, its value stands at the key, and one second fits in its time to
  -- live.
  pub record IsHolding (s : Locked W) : Type 0 where
    pub marked : s.lock.acquired ≡ true
    pub standing : value_at s.world s.lock.key ≡ some s.lock.value
    pub long : 1 ≤ ttl_seconds s.lock

  IsHolding-of :
      (s t : Locked W)
      → IsHolding s
      → t.lock ≡ s.lock
      → value_at t.world s.lock.key ≡ some s.lock.value
      → IsHolding t
  IsHolding-of s t g same kept = record {
    marked = ap (λ l. l.acquired) same ∙ g.marked;
    standing = ap (λ l. value_at t.world l.key) same ∙ kept ∙ sym (ap (λ l. some l.value) same);
    long = omega (arith, ap ttl_seconds same, g.long);
  }

  extend_keeps :
      (s : Locked W) (r : Result ℕ)
      → IsHolding s
      → (c.eval (if_owner expire) s.lock.key s.lock.value (ttl_seconds s.lock) s.world).0 ≡ r
      → ((extend c s).1.lock ≡ s.lock)
        × (value_at (extend c s).1.world s.lock.key ≡ some s.lock.value)
  unfolding extend
  extend_keeps s (ok n) g e = ground (
    arith,
    g.marked,
    g.standing,
    run_script-renew s.lock.value (ttl_seconds s.lock) g.long,
    h.eval-ok _ _ _ _ s.world n e,
  )
  extend_keeps s (err x) g e = ground (
    arith,
    g.marked,
    g.standing,
    run_script-renew s.lock.value (ttl_seconds s.lock) g.long,
    h.eval-err _ _ _ _ s.world x e,
  )

  extend-IsHolding :
      (s : Locked W) → IsHolding s → ((extend c s).1.lock ≡ s.lock) × IsHolding (extend c s).1
  extend-IsHolding s g =
      let (same, kept) = extend_keeps s _ g refl in
      (same, IsHolding-of s (extend c s).1 g same kept)

  module _ (service : MessageService (Locked W)) (interval : ℕ) where
    abbrev pub scheduler : Scheduler (Locked W)
    scheduler = new_message_scheduler_with_lock service interval (redis_lock c)

    -- A batch in such a state only fails to acquire the lock.
    batch_refused :
        (st : State (Locked W))
        → IsHolding st.world
        → process_batch scheduler st ≡ record st { world = (acquire c st.world).1 }
    unfolding process_batch
    batch_refused st g =
        let (refused, same, kept) = acquire_held c h st.world st.world.lock.value g.standing in
        rw refused

    extension :
        (st : State (Locked W))
        → IsHolding st.world
        → extend_lock scheduler st ≡ record st { world = (extend c st.world).1 }
    unfolding extend_lock
    extension st g = ground (arith, g.marked)

  -- The acquisitions and extensions alone, with no batch between them.
  abbrev refuse : State (Locked W) → State (Locked W)
  refuse st = record st { world = (acquire c st.world).1 }

  abbrev renew : State (Locked W) → State (Locked W)
  renew st = record st { world = (extend c st.world).1 }

  unfoldable pub calls_alone : List Event → State (Locked W) → State (Locked W)
  calls_alone [] st = st
  calls_alone (done ∷ es) st = st
  calls_alone (tick ∷ es) st = calls_alone es (refuse st)
  calls_alone (extend_tick ∷ es) st = calls_alone es (renew st)

  refuse-IsHolding :
      (s : Locked W) → IsHolding s → ((acquire c s).1.lock ≡ s.lock) × IsHolding (acquire c s).1
  refuse-IsHolding s g =
      let (refused, same, kept) = acquire_held c h s s.lock.value g.standing in
      (same, IsHolding-of s (acquire c s).1 g same kept)

  abbrev Outcome :
      MessageService (Locked W)
      → ℕ
      → List Event
      → State (Locked W)
      → State (Locked W)
      → State (Locked W)
      → Type 0
  Outcome service interval es st expected from =
      let t = loop (scheduler service interval) es from in
      (t ≡ expected) × (t.world.lock ≡ st.world.lock) × IsHolding t.world

  pub stuck_after_failed_release :
      (service : MessageService (Locked W)) (interval : ℕ) (es : List Event) (st : State (Locked W))
      → IsHolding st.world
      → let t = loop (scheduler service interval) es st in
        (t ≡ calls_alone es st) × (t.world.lock ≡ st.world.lock) × IsHolding t.world
  unfolding loop calls_alone
  stuck_after_failed_release service interval [] st g = (refl, refl, g)
  stuck_after_failed_release service interval (done ∷ es) st g = (refl, refl, g)
  stuck_after_failed_release service interval (tick ∷ es) st g =
      let (same, kept) = refuse-IsHolding st.world g in
      let (a, b, d) = stuck_after_failed_release service interval es (refuse st) kept in
      subst (Outcome service interval es st (calls_alone es (refuse st)))
        (sym (batch_refused service interval st g)) (a, b ∙ same, d)
  stuck_after_failed_release service interval (extend_tick ∷ es) st g =
      let (same, kept) = extend-IsHolding st.world g in
      let (a, b, d) = stuck_after_failed_release service interval es (renew st) kept in
      subst (Outcome service interval es st (calls_alone es (renew st)))
        (sym (extension service interval st g)) (a, b ∙ same, d)
