-- ===== src/Scheduler/Recovery.antt =====
-- The release at the end of `Stop` frees a lock that a batch could not release.
use go_message_dispatcher.Base.{
  ℕ, ◌≡◌, refl, sym, ap, ◌∙◌, true, false, none, some, List, arith, text_eq_refl, Text, ok,
}
use go_message_dispatcher.Domain.{MessageService}
use go_message_dispatcher.Redis.{RedisClient, IsRedis, if_owner, del, run_script}
use go_message_dispatcher.Lock.{Locked, release}
use go_message_dispatcher.Scheduler.{State, Event, loop, final_release}
use go_message_dispatcher.Scheduler.Stuck.{IsHolding, scheduler, stuck_after_failed_release}

run_script-own : (v : Text) → run_script (if_owner del) v 0 (some v) ≡ (1, none)
unfolding run_script
run_script-own v = rw text_eq_refl refl

module _ {W : Type 0} (c : RedisClient W) (h : IsRedis c) where
  open h use {value_at}

  release_frees :
      (s : Locked W) (n : ℕ)
      → s.lock.acquired ≡ true
      → value_at s.world s.lock.key ≡ some s.lock.value
      → (c.eval (if_owner del) s.lock.key s.lock.value 0 s.world).0 ≡ ok n
      → (value_at (release c s).1.world s.lock.key ≡ none) × ((release c s).1.lock.acquired ≡ false)
  unfolding release
  release_frees s n marked standing answered =
      ground (arith, h.eval-ok _ _ _ _ s.world n answered, run_script-own s.lock.value)

  module _ (service : MessageService (Locked W)) (interval : ℕ) where
    final_release_held :
        (st : State (Locked W))
        → st.world.lock.acquired ≡ true
        → (final_release (scheduler c h service interval) st).world ≡ (release c st.world).1
    unfolding final_release
    final_release_held st marked = rw marked refl

    -- After a `Release` that failed, under the conditions in which the worker is stuck: whatever
    -- events the worker has received, if Redis answers the `Release` at the end of `Stop`, then the
    -- key is free and the lock does not count itself as held.
    pub freed_by_stop :
        (es : List Event) (st : State (Locked W)) (n : ℕ)
        → IsHolding c h st.world
        → let t = loop (scheduler c h service interval) es st in
          (c.eval (if_owner del) t.world.lock.key t.world.lock.value 0 t.world.world).0 ≡ ok n
          → (value_at
                (final_release (scheduler c h service interval) t).world.world
                st.world.lock.key
              ≡ none)
            × ((final_release (scheduler c h service interval) t).world.lock.acquired ≡ false)
    freed_by_stop es st n g answered =
        let t = loop (scheduler c h service interval) es st in
        let (_, same, held) = stuck_after_failed_release c h service interval es st g in
        let (free, unmarked) = release_frees t.world n held.marked held.standing answered in
        let released = final_release_held t held.marked in
        (
          ap (λ s. value_at s.world st.world.lock.key) released
              ∙ ap (λ k. value_at (release c t.world).1.world k) (sym (ap (λ l. l.key) same))
              ∙ free,
          ap (λ s. s.lock.acquired) released ∙ unmarked,
        )
