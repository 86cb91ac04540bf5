-- ===== src/Lock/Value/Drawn.antt =====
-- Instances whose random bytes differ keep apart.
use go_message_dispatcher.Base.{
  ℕ, ◌≡◌, refl, true, false, some, Text, All, IsByte, base64_injective, ok,
}
use go_message_dispatcher.Redis.{RedisClient, IsRedis}
use go_message_dispatcher.Lock.{new_redis_lock}
use go_message_dispatcher.Lock.Value.{generate_lock_value}
use go_message_dispatcher.Lock.Cluster.{Cluster, IsStart, Reach}
use go_message_dispatcher.Lock.Cluster.Exclusion.{mutual_exclusion}

-- Different bytes give different values.
pub generate_lock_value_injective :
    (s t now then' : Text)
    → All IsByte s
    → All IsByte t
    → generate_lock_value (ok s) now ≡ generate_lock_value (ok t) then'
    → s ≡ t
unfolding generate_lock_value
generate_lock_value_injective s t now then' hs ht e = base64_injective s t hs ht e

module _ {W : Type 0} (c : RedisClient W) (h : IsRedis c) (key : Text) (ttl : ℕ)
    (draws clocks : ℕ → Text) (w : W) where
  -- Instances that have just been created by `NewRedisLock`.
  abbrev pub created : Cluster W
  created = record {
    world = w;
    locks = λ i. new_redis_lock key ttl (generate_lock_value (ok (draws i)) (clocks i));
    busy = λ _. false;
  }

  created-IsStart :
      ((i : ℕ) → All IsByte (draws i))
      → ((i j : ℕ) → draws i ≡ draws j → i ≡ j)
      → IsStart c h key created
  created-IsStart are_bytes apart = record {
    keyed = λ i. refl;
    distinct =
        λ i j e. apart i j (generate_lock_value_injective _ _ _ _ (are_bytes i) (are_bytes j) e);
    quiet = λ i. refl;
  }

  -- If `rand.Read` gives different bytes to all instances that use one key, then in every state that
  -- they reach by steps of `Lock.Cluster`, in which the key does not lapse during the batch of its
  -- owner, no two of them run a batch, and the value of one that does stands at the key. An index that
  -- stands for no instance takes no step, and its bytes may be of any number.
  pub drawn_exclusion :
      (s : Cluster W)
      → ((i : ℕ) → All IsByte (draws i))
      → ((i j : ℕ) → draws i ≡ draws j → i ≡ j)
      → Reach c h key created s
      → ((i j : ℕ) → s.busy i ≡ true → s.busy j ≡ true → i ≡ j)
        × ((i : ℕ) → s.busy i ≡ true → h.value_at s.world key ≡ some (s.locks i).value)
  drawn_exclusion s are_bytes apart r =
      mutual_exclusion c h key created s (created-IsStart are_bytes apart) r
