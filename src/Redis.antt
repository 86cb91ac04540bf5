-- ===== src/Redis.antt =====
-- The client of Redis (github.com/redis/go-redis) as the program calls it, and what the program
-- relies on of the server. The two Lua scripts are those of internal/lock/distributed_lock.go.
use go_message_dispatcher.Base.{
  ℕ, ◌≡◌, ◌≢◌, ◌⊎◌, Bool, true, false, Option, none, some, List, ◌==◌, if◌then◌else◌, Text, text_eq,
  Error, Result, ok, err, Action,
}

pub data Call : Type 0 where
  del : Call
  expire : Call

-- `if redis.call("get", KEYS[1]) == ARGV[1] then return redis.call(…) else return 0 end`, where the
-- call is `del` with `KEYS[1]`, or `expire` with `KEYS[1], ARGV[2]`.
pub data Script : Type 0 where
  if_owner : Call → Script

-- What a pipeline of GET commands answers: the error of `Exec`, and a result for each command.
pub record Pipeline : Type 0 where
  pub error : Option Error
  pub replies : List (Result Text)

pub record RedisClient (W : Type 0) : Type 0 where
  -- key, value, time to live in nanoseconds
  pub set_nx : Text → Text → ℕ → Action W Bool
  -- script, `KEYS[1]`, `ARGV[1]`, `ARGV[2]`
  pub eval : Script → Text → Text → ℕ → Action W ℕ
  pub set : Text → Text → ℕ → Action W (Unit {0})
  pub get : Text → Action W Text
  pub exec_gets : List Text → W → Pipeline × W
  pub ping : Action W (Unit {0})

abbrev pub owned_by : Text → Option Text → Bool
owned_by v none = false
owned_by v (some x) = text_eq x v

-- What a script answers and leaves at its key, by the manual of Redis: DEL answers the number of
-- keys removed; EXPIRE answers 1 if the key is there, and removes it if the seconds are 0.
unfoldable pub run_script : Script → Text → ℕ → Option Text → ℕ × Option Text
run_script (if_owner del) v seconds found = if owned_by v found then (1, none) else (0, found)
run_script (if_owner expire) v seconds found =
    if owned_by v found then (1, if seconds == 0 then none else found) else (0, found)

-- `value_at w k` is the value at the key `k`, if it has one that has not expired. A command that
-- returns an error may or may not have been executed.
pub record IsRedis {W : Type 0} (c : RedisClient W) : Type 0 where
  pub value_at : W → Text → Option Text
  pub set_nx-true :
      (k v : Text) (t : ℕ) (w : W)
      → (c.set_nx k v t w).0 ≡ ok true
      → (value_at w k ≡ none) × (value_at (c.set_nx k v t w).1 k ≡ some v)
  pub set_nx-false :
      (k v : Text) (t : ℕ) (w : W)
      → (c.set_nx k v t w).0 ≡ ok false
      → (value_at w k ≢ none) × (value_at (c.set_nx k v t w).1 k ≡ value_at w k)
  pub set_nx-err :
      (k v : Text) (t : ℕ) (w : W) (e : Error)
      → (c.set_nx k v t w).0 ≡ err e
      → (value_at (c.set_nx k v t w).1 k ≡ value_at w k)
        ⊎ ((value_at w k ≡ none) × (value_at (c.set_nx k v t w).1 k ≡ some v))
  pub eval-ok :
      (s : Script) (k v : Text) (n : ℕ) (w : W) (r : ℕ)
      → (c.eval s k v n w).0 ≡ ok r
      → (r, value_at (c.eval s k v n w).1 k) ≡ run_script s v n (value_at w k)
  pub eval-err :
      (s : Script) (k v : Text) (n : ℕ) (w : W) (e : Error)
      → (c.eval s k v n w).0 ≡ err e
      → (value_at (c.eval s k v n w).1 k ≡ value_at w k)
        ⊎ (value_at (c.eval s k v n w).1 k ≡ (run_script s v n (value_at w k)).1)
