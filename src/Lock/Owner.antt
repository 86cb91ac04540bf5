-- ===== src/Lock/Owner.antt =====
-- The lock of one instance against the key in Redis.
use go_message_dispatcher.Base.{
  ℕ, zero, suc, ◌<◌, ◌≡◌, refl, ap, ◌∙◌, ◌≢◌, ◌⊎◌, inl, inr, Bool, true, false, Option, none, some,
  arith, Text, text_eq_iff, text_eq_refl, Error, Result, ok, err, is_ok,
}
use go_message_dispatcher.Redis.{RedisClient, Script, if_owner, del, expire, run_script, IsRedis}
use go_message_dispatcher.Lock.{Locked, ttl_seconds, acquire, release, extend}

err≢ok : {A : Type 0} {e : Error} {a : A} → err e ≡ ok a → ⊥
err≢ok h = cc

run_script-foreign :
    (s : Script) (v x : Text) (n : ℕ) → x ≢ v → (run_script s v n (some x)).1 ≡ some x
unfolding run_script
run_script-foreign (if_owner del) v x n h = ground (arith, text_eq_iff x v)
run_script-foreign (if_owner expire) v x n h = ground (arith, text_eq_iff x v)

-- The script of `Release` answers a positive number only if it has removed the caller's value.
run_script-del :
    (v : Text) (m : ℕ) (found after : Option Text)
    → (suc m, after) ≡ run_script (if_owner del) v 0 found
    → (found ≡ some v) × (after ≡ none)
unfolding run_script
run_script-del v m none after h = ground arith
run_script-del v m (some x) after h = ground (arith, text_eq_iff x v)

-- The script of `Extend` with 0 seconds removes the caller's value and answers 1.
run_script-expire : (v : Text) → run_script (if_owner expire) v 0 (some v) ≡ (1, none)
unfolding run_script
run_script-expire v = rw text_eq_refl

module _ {W : Type 0} (c : RedisClient W) (h : IsRedis c) where
  open h use {value_at}

  eval_either :
      (s : Script) (k v : Text) (n : ℕ) (w : W)
      → (value_at (c.eval s k v n w).1 k ≡ value_at w k)
        ⊎ (value_at (c.eval s k v n w).1 k ≡ (run_script s v n (value_at w k)).1)
  eval_either s k v n w = from (c.eval s k v n w).0 refl
    where
      from :
          (r : Result ℕ)
          → (c.eval s k v n w).0 ≡ r
          → (value_at (c.eval s k v n w).1 k ≡ value_at w k)
            ⊎ (value_at (c.eval s k v n w).1 k ≡ (run_script s v n (value_at w k)).1)
      from (ok r) e = inr (ap (λ p. p.1) (h.eval-ok s k v n w r e))
      from (err x) e = h.eval-err s k v n w x e

  pub eval_keeps_foreign :
      (s : Script) (k v x : Text) (n : ℕ) (w : W)
      → value_at w k ≡ some x
      → x ≢ v
      → value_at (c.eval s k v n w).1 k ≡ some x
  eval_keeps_foreign s k v x n w held foreign = elim (eval_either s k v n w) [
    | inl same ↦ same ∙ held
    | inr ran ↦ ran ∙ rw held (run_script-foreign s v x n foreign)
  ]

  module _ (s : Locked W) where
    abbrev before : Option Text
    before = value_at s.world s.lock.key

    abbrev at_key : Locked W → Option Text
    at_key t = value_at t.world s.lock.key

    -- While another value stands at the key, neither `Release` nor `Extend` changes it, whatever
    -- Redis answers.
    pub foreign_lock_kept :
        (x : Text)
        → before ≡ some x
        → x ≢ s.lock.value
        → (at_key (release c s).1 ≡ some x) × (at_key (extend c s).1 ≡ some x)
    unfolding release extend
    foreign_lock_kept x held foreign = ground (
      arith,
      eval_keeps_foreign (if_owner del) s.lock.key s.lock.value x 0 s.world held foreign,
      eval_keeps_foreign (if_owner expire) s.lock.key s.lock.value x (ttl_seconds s.lock) s.world
          held foreign,
    )

    set_nx_result : Result Bool
    set_nx_result = (c.set_nx s.lock.key s.lock.value s.lock.ttl s.world).0

    acquire_ok_from :
        (r : Result Bool)
        → set_nx_result ≡ r
        → (acquire c s).0 ≡ ok tt
        → (before ≡ none)
          × (at_key (acquire c s).1 ≡ some s.lock.value)
          × ((acquire c s).1.lock.acquired ≡ true)
    unfolding acquire set_nx_result
    acquire_ok_from (ok true) e done =
        let (free, taken) = h.set_nx-true _ _ _ s.world e in
        (free, rw (e, acquire) taken, rw (e, acquire))
    acquire_ok_from (ok false) e done = absurd (err≢ok (rw (e, acquire) at done))
    acquire_ok_from (err x) e done = absurd (err≢ok (rw (e, acquire) at done))

    -- `Acquire` succeeds only if the key was free; then the key holds the value of this lock, and the
    -- lock counts itself as held.
    pub acquire_ok :
        (acquire c s).0 ≡ ok tt
        → (before ≡ none)
          × (at_key (acquire c s).1 ≡ some s.lock.value)
          × ((acquire c s).1.lock.acquired ≡ true)
    acquire_ok = acquire_ok_from set_nx_result refl

    acquire_held_from :
        (r : Result Bool) (x : Text)
        → set_nx_result ≡ r
        → before ≡ some x
        → (is_ok (acquire c s).0 ≡ false)
          × ((acquire c s).1.lock ≡ s.lock)
          × (at_key (acquire c s).1 ≡ some x)
    unfolding acquire set_nx_result
    acquire_held_from (ok true) x e held = absurd (cc ((h.set_nx-true _ _ _ s.world e).0))
    acquire_held_from (ok false) x e held =
        let (taken, same) = h.set_nx-false _ _ _ s.world e in
        (rw (e, acquire), rw (e, acquire), rw (e, acquire) (same ∙ held))
    acquire_held_from (err y) x e held = (
      rw (e, acquire),
      rw (e, acquire),
      rw (e, acquire)
          (elim (h.set_nx-err _ _ _ s.world y e) [
            | inl same ↦ same ∙ held
            | inr (free, taken) ↦ absurd (cc)
          ]),
    )

    -- While any value stands at the key, the lock's own included, `Acquire` fails: it changes neither
    -- the lock nor the key.
    pub acquire_held :
        (x : Text)
        → before ≡ some x
        → (is_ok (acquire c s).0 ≡ false)
          × ((acquire c s).1.lock ≡ s.lock)
          × (at_key (acquire c s).1 ≡ some x)
    acquire_held x = acquire_held_from set_nx_result x refl

    eval_result : Result ℕ
    eval_result = (c.eval (if_owner del) s.lock.key s.lock.value 0 s.world).0

    release_ok_from :
        (r : Result ℕ)
        → eval_result ≡ r
        → (release c s).0 ≡ ok tt
        → (s.lock.acquired ≡ true)
          × (before ≡ some s.lock.value)
          × (at_key (release c s).1 ≡ none)
          × ((release c s).1.lock.acquired ≡ false)
    unfolding release eval_result
    release_ok_from (ok zero) e done = ground arith
    release_ok_from (ok (suc m)) e done =
        ground (arith, run_script-del s.lock.value m before _ (h.eval-ok _ _ _ 0 s.world (suc m) e))
    release_ok_from (err x) e done = ground arith

    -- `Release` succeeds only if the lock counted itself as held and its value stood at the key; then
    -- the key is free, and the lock no longer counts itself as held.
    pub release_ok :
        (release c s).0 ≡ ok tt
        → (s.lock.acquired ≡ true)
          × (before ≡ some s.lock.value)
          × (at_key (release c s).1 ≡ none)
          × ((release c s).1.lock.acquired ≡ false)
    release_ok = release_ok_from eval_result refl

    -- With a time to live below one second, `Extend` of a lock that is held gives the lock away: if
    -- Redis runs the script, then `Extend` succeeds and the lock still counts itself as held, and the
    -- key is free.
    pub extend_below_second :
        (n : ℕ)
        → s.lock.acquired ≡ true
        → s.lock.ttl < 1_000_000_000
        → before ≡ some s.lock.value
        → (c.eval (if_owner expire) s.lock.key s.lock.value (ttl_seconds s.lock) s.world).0 ≡ ok n
        → ((extend c s).0 ≡ ok tt)
          × ((extend c s).1.lock.acquired ≡ true)
          × (at_key (extend c s).1 ≡ none)
    unfolding extend
    extend_below_second n held short own ran = ground (
      arith,
      run_script-expire s.lock.value,
      h.eval-ok (if_owner expire) s.lock.key s.lock.value (ttl_seconds s.lock) s.world n ran,
    )
