-- ===== src/Lock/Answered.antt =====
-- `Acquire` on a free key and `Release` of the own value, while Redis answers.
use go_message_dispatcher.Base.{
  ℕ, ◌≡◌, refl, ap, ◌∙◌, Bool, true, false, none, some, Text, text_eq_refl, ok, Bool-cases, inl,
  inr,
}
use go_message_dispatcher.Redis.{RedisClient, IsRedis, Script, if_owner, del, run_script}
use go_message_dispatcher.Lock.{Locked, acquire, release}

-- From a world with `Up` on, Redis answers the two commands of the lock, and stays so behind the
-- calls of the program.
pub record IsUp {R : Type 0} (c : RedisClient R) (Up : R → Type 0) : Type 0 where
  pub set_nx-answered :
      (k v : Text) (t : ℕ) (w : R) → Up w → (b : Bool) × ((c.set_nx k v t w).0 ≡ ok b)
  pub eval-answered :
      (s : Script) (k v : Text) (n : ℕ) (w : R) → Up w → (m : ℕ) × ((c.eval s k v n w).0 ≡ ok m)
  pub set_nx-up : (k v : Text) (t : ℕ) (w : R) → Up w → Up (c.set_nx k v t w).1
  pub eval-up : (s : Script) (k v : Text) (n : ℕ) (w : R) → Up w → Up (c.eval s k v n w).1
  pub set-up : (k v : Text) (t : ℕ) (w : R) → Up w → Up (c.set k v t w).1

module _ {W : Type 0} (c : RedisClient W) (h : IsRedis c) {Up : W → Type 0} (up : IsUp c Up)
    (t : Locked W) (now : Up t.world) where
  -- `Acquire` on a free key.
  pub acquire_free :
      h.value_at t.world t.lock.key ≡ none
      → ((acquire c t).0 ≡ ok tt)
        × ((acquire c t).1.lock ≡ record (t.lock) { acquired = true })
        × (h.value_at (acquire c t).1.world t.lock.key ≡ some t.lock.value)
  unfolding acquire
  acquire_free free =
      from (up.set_nx-answered _ _ _ t.world now).0 (up.set_nx-answered _ _ _ t.world now).1
    where
      from :
          (b : Bool)
          → (c.set_nx t.lock.key t.lock.value t.lock.ttl t.world).0 ≡ ok b
          → ((acquire c t).0 ≡ ok tt)
            × ((acquire c t).1.lock ≡ record (t.lock) { acquired = true })
            × (h.value_at (acquire c t).1.world t.lock.key ≡ some t.lock.value)
      from true e = (rw (e, acquire) refl, rw (e, acquire) refl, (h.set_nx-true _ _ _ t.world e).1)
      from false e = absurd ((h.set_nx-false _ _ _ t.world e).0 free)

  -- `Release` of the own value.
  pub release_own :
      t.lock.acquired ≡ true
      → h.value_at t.world t.lock.key ≡ some t.lock.value
      → ((release c t).1.lock ≡ record (t.lock) { acquired = false })
        × (h.value_at (release c t).1.world t.lock.key ≡ none)
  unfolding release run_script
  release_own on own =
      let (m, e) = up.eval-answered (if_owner del) t.lock.key t.lock.value 0 t.world now in
      let ran : (
        m,
        h.value_at (c.eval (if_owner del) t.lock.key t.lock.value 0 t.world).1 t.lock.key,
      )
          ≡ (1, none) =
        h.eval-ok _ _ _ 0 t.world m e ∙ rw own (rw text_eq_refl refl) in
      let one : (c.eval (if_owner del) t.lock.key t.lock.value 0 t.world).0 ≡ ok 1 =
        e ∙ ap (λ r. ok r.0) ran in
      (rw (on, one) refl, rw on (ap (λ r. r.1) ran))

  pub acquire-up : Up (acquire c t).1.world
  unfolding acquire
  acquire-up = up.set_nx-up _ _ _ t.world now

  pub release-up : Up (release c t).1.world
  unfolding release
  release-up = elim (Bool-cases t.lock.acquired) [
    | inl on ↦ rw on (up.eval-up _ _ _ _ t.world now)
    | inr off ↦ rw off now
  ]
