-- ===== src/Lock/Cluster.antt =====
-- Several instances of the program that share one lock key. An instance is busy from the return of
-- a successful `Acquire` in `processBatch` to its `Release`.
pub mod Exclusion
pub mod Lapse
use go_message_dispatcher.Base.{
  ℕ, ◌≡◌, ◌≢◌, Bool, true, false, some, none, ◌==◌, if◌then◌else◌, Text, is_ok,
}
use go_message_dispatcher.Redis.{RedisClient, IsRedis}
use go_message_dispatcher.Lock.{RedisLock, Locked, acquire, release, extend}

abbrev pub update : {A : Type 0} → (ℕ → A) → ℕ → A → ℕ → A
update f i a j = if j == i then a else f j

pub record Cluster (W : Type 0) : Type 0 where
  pub world : W
  pub locks : ℕ → RedisLock
  pub busy : ℕ → Bool

abbrev pub view : {W : Type 0} → Cluster W → ℕ → Locked W
view s i = record { lock = s.locks i; world = s.world }

-- The cluster after a method of instance `i` has left its lock and the world as in `t`.
abbrev pub put : {W : Type 0} → Cluster W → ℕ → Locked W → Bool → Cluster W
put s i t working = record {
  world = t.world;
  locks = update s.locks i t.lock;
  busy = update s.busy i working;
}

-- The process of instance `i` has died; its lock is in no state to renew or to release.
abbrev pub died : {W : Type 0} → Cluster W → ℕ → Cluster W
died s i =
    put s i (record { lock = record (s.locks i) { acquired = false }; world = s.world }) false

module _ {W : Type 0} (c : RedisClient W) (h : IsRedis c) (key : Text) where
  open h use {value_at}

  -- One step of one instance, or of the rest of the world. An instance may die at any time, during a
  -- batch as well, and leaves its value at the key. The key may lapse, as long as its value is not
  -- that of a busy instance: the time to live is longer than a batch.
  pub data Step (s : Cluster W) : Cluster W → Type 0 where
    begin :
        (i : ℕ)
        → s.busy i ≡ false
        → Step s (put s i (acquire c (view s i)).1 (is_ok (acquire c (view s i)).0))
    finish : (i : ℕ) → s.busy i ≡ true → Step s (put s i (release c (view s i)).1 false)
    renew : (i : ℕ) → s.busy i ≡ false → Step s (put s i (extend c (view s i)).1 false)
    crash : (i : ℕ) → Step s (died s i)
    elsewhere : (w : W) → value_at w key ≡ value_at s.world key → Step s (record s { world = w })
    lapse :
        (w : W)
        → value_at w key ≡ none
        → ((i : ℕ) → s.busy i ≡ true → value_at s.world key ≢ some (s.locks i).value)
        → Step s (record s { world = w })

  pub data Reach (s : Cluster W) : Cluster W → Type 0 where
    here : Reach s s
    next : {t u : Cluster W} → Reach s t → Step t u → Reach s u

  pub Reach-append : {s t u : Cluster W} → Reach s t → Reach t u → Reach s u
  Reach-append r here = r
  Reach-append r (next q st) = next (Reach-append r q) st

  -- All instances use the same key, with values of their own, and none is busy.
  pub record IsStart (s : Cluster W) : Type 0 where
    pub keyed : (i : ℕ) → (s.locks i).key ≡ key
    pub distinct : (i j : ℕ) → (s.locks i).value ≡ (s.locks j).value → i ≡ j
    pub quiet : (i : ℕ) → s.busy i ≡ false
