-- ===== src/Lock.antt =====
-- internal/lock/distributed_lock.go: the Redis lock. The methods change the field `acquired` of the
-- lock and the world behind the client. The lock's value, which `generateLockValue` draws at random,
-- is a field like the others; the time to live is not negative.
pub mod Owner
pub mod Answered
pub mod Cluster
pub mod Value
use go_message_dispatcher.Base.{
  ℕ, zero, suc, ◌/◌, Bool, true, false, if◌then◌else◌, Text, Error, sentinel, lock_not_acquired,
  lock_not_held, Result, ok, err, Action,
}
use go_message_dispatcher.Redis.{RedisClient, if_owner, del, expire}

-- The interface that the scheduler uses, over a state that holds the lock.
pub record DistributedLock (S : Type 0) : Type 0 where
  pub acquire : Action S (Unit {0})
  pub release : Action S (Unit {0})
  pub extend : Action S (Unit {0})
  pub is_held : S → Bool

pub record RedisLock : Type 0 where
  pub key : Text
  pub value : Text
  pub ttl : ℕ
  pub acquired : Bool

abbrev pub new_redis_lock : Text → ℕ → Text → RedisLock
new_redis_lock key ttl value = record { key = key; value = value; ttl = ttl; acquired = false }

pub record Locked (W : Type 0) : Type 0 where
  pub lock : RedisLock
  pub world : W

-- `int(l.ttl.Seconds())`
abbrev pub ttl_seconds : RedisLock → ℕ
ttl_seconds l = l.ttl / 1_000_000_000

abbrev released : RedisLock → RedisLock
released l = record l { acquired = false }

-- The code behind the call of `SetNX`.
abbrev pub acquire_reply : RedisLock → Result Bool → Result (Unit {0}) × RedisLock
acquire_reply l (err e) = (err e, l)
acquire_reply l (ok false) = (err (sentinel lock_not_acquired), l)
acquire_reply l (ok true) = (ok tt, record l { acquired = true })

-- The code behind the call of the script in `Release`.
abbrev pub release_reply : RedisLock → Result ℕ → Result (Unit {0}) × RedisLock
release_reply l (err e) = (err e, l)
release_reply l (ok zero) = (err (sentinel lock_not_held), released l)
release_reply l (ok (suc _)) = (ok tt, released l)

-- The code behind the call of the script in `Extend`.
abbrev pub extend_reply : RedisLock → Result ℕ → Result (Unit {0}) × RedisLock
extend_reply l (err e) = (err e, l)
extend_reply l (ok zero) = (err (sentinel lock_not_held), released l)
extend_reply l (ok (suc _)) = (ok tt, l)

-- The result and the lock of a method, with the world after its call.
abbrev pub with_world :
    {W : Type 0} → Result (Unit {0}) × RedisLock → W → Result (Unit {0}) × Locked W
with_world (r, l) w = (r, record { lock = l; world = w })

module _ {W : Type 0} (c : RedisClient W) where
  unfoldable pub acquire : Action (Locked W) (Unit {0})
  acquire s =
      let r = c.set_nx s.lock.key s.lock.value s.lock.ttl s.world in
      with_world (acquire_reply s.lock r.0) r.1

  unfoldable pub release : Action (Locked W) (Unit {0})
  release s =
      let r = c.eval (if_owner del) s.lock.key s.lock.value 0 s.world in
      if s.lock.acquired
      then with_world (release_reply s.lock r.0) r.1
      else (err (sentinel lock_not_held), s)

  unfoldable pub extend : Action (Locked W) (Unit {0})
  extend s =
      let r = c.eval (if_owner expire) s.lock.key s.lock.value (ttl_seconds s.lock) s.world in
      if s.lock.acquired
      then with_world (extend_reply s.lock r.0) r.1
      else (err (sentinel lock_not_held), s)

  abbrev pub redis_lock : DistributedLock (Locked W)
  redis_lock = record {
    acquire = acquire;
    release = release;
    extend = extend;
    is_held = λ s. s.lock.acquired;
  }
