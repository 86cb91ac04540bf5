-- ===== src/Lock/Cluster/Exclusion.antt =====
-- At most one instance is busy.
use mathlib.Core.Bool.{false≢true}
use go_message_dispatcher.Base.{
  ℕ, ◌≡◌, refl, ◌≢◌, ◌∙◌, sym, ap, Bool, true, false, Option, some, arith, Text, Result, ok, err,
  is_ok,
}
use go_message_dispatcher.Redis.{RedisClient, IsRedis}
use go_message_dispatcher.Lock.{RedisLock, Locked, acquire, release, extend}
use go_message_dispatcher.Lock.Owner.{acquire_ok, acquire_held, foreign_lock_kept}
use go_message_dispatcher.Lock.Cluster.{
  Cluster, view, put, died, Step, begin, finish, renew, crash, elsewhere, lapse, Reach, here, next,
  IsStart,
}

ok_of : (r : Result (Unit {0})) → is_ok r ≡ true → r ≡ ok tt
ok_of (ok _) h = refl
ok_of (err e) h = absurd (cc)

same_some : {a b : Text} → some a ≡ some b → a ≡ b
same_some h = cc

-- The methods change no key and no value of a lock.
abbrev SameName : RedisLock → RedisLock → Type 0
SameName l m = (l.key ≡ m.key) × (l.value ≡ m.value)

module _ {W : Type 0} (c : RedisClient W) (t : Locked W) where
  acquire-SameName : SameName (acquire c t).1.lock t.lock
  unfolding acquire
  acquire-SameName = ground arith

  release-SameName : SameName (release c t).1.lock t.lock
  unfolding release
  release-SameName = ground arith

  extend-SameName : SameName (extend c t).1.lock t.lock
  unfolding extend
  extend-SameName = ground arith

module _ {W : Type 0} (c : RedisClient W) (h : IsRedis c) (key : Text) where
  open h use {value_at}

  record Inv (s : Cluster W) : Type 0 where
    keyed : (i : ℕ) → (s.locks i).key ≡ key
    distinct : (i j : ℕ) → (s.locks i).value ≡ (s.locks j).value → i ≡ j
    holds : (i : ℕ) → s.busy i ≡ true → value_at s.world key ≡ some (s.locks i).value

  -- A method of instance `i` keeps the invariant if it keeps the name of the lock, leaves the value
  -- of every other busy instance at the key, and leaves its own there if `i` is busy after it.
  put-Inv :
      (s : Cluster W) (i : ℕ) (t : Locked W) (working : Bool)
      → Inv s
      → SameName t.lock (s.locks i)
      → ((j : ℕ) → j ≢ i → s.busy j ≡ true → value_at t.world key ≡ some (s.locks j).value)
      → (working ≡ true → value_at t.world key ≡ some (s.locks i).value)
      → Inv (put s i t working)
  put-Inv s i t working inv (same_key, same_value) others own = record {
    keyed = λ j. ground (arith, inv.keyed j, inv.keyed i);
    distinct = λ j k e. ground (arith, inv.distinct j k, inv.distinct i k, inv.distinct j i);
    holds = λ j b. ground (arith, others j, inv.holds j);
  }

  module _ (s : Cluster W) (inv : Inv s) (i : ℕ) where
    -- What another busy instance has at the key, seen by the lock of instance `i`.
    held_by : (j : ℕ) → s.busy j ≡ true → value_at s.world (s.locks i).key ≡ some (s.locks j).value
    held_by j b = rw (inv.keyed i) (inv.holds j b)

    at_shared : {w : W} {v : Option Text} → value_at w (s.locks i).key ≡ v → value_at w key ≡ v
    at_shared {w} e = ap (value_at w) (sym (inv.keyed i)) ∙ e

    foreign : (j : ℕ) → j ≢ i → (s.locks j).value ≢ (s.locks i).value
    foreign j n e = n (inv.distinct j i e)

    begin-Inv : Inv (put s i (acquire c (view s i)).1 (is_ok (acquire c (view s i)).0))
    begin-Inv =
        put-Inv s i _ _ inv (acquire-SameName c (view s i))
          (λ j n b. at_shared ((acquire_held c h (view s i) _ (held_by j b)).2))
          (λ done. at_shared ((acquire_ok c h (view s i) (ok_of _ done)).1))

    finish-Inv : Inv (put s i (release c (view s i)).1 false)
    finish-Inv =
        put-Inv s i _ _ inv (release-SameName c (view s i))
          (λ j n b. at_shared ((foreign_lock_kept c h (view s i) _ (held_by j b) (foreign j n)).0))
          (λ e. cc)

    renew-Inv : Inv (put s i (extend c (view s i)).1 false)
    renew-Inv =
        put-Inv s i _ _ inv (extend-SameName c (view s i))
          (λ j n b. at_shared ((foreign_lock_kept c h (view s i) _ (held_by j b) (foreign j n)).1))
          (λ e. cc)

  crash-Inv : (s : Cluster W) → Inv s → (i : ℕ) → Inv (died s i)
  crash-Inv s inv i = put-Inv s i _ false inv (refl, refl) (λ j n b. inv.holds j b) (λ e. cc)

  from_start : (s : Cluster W) → IsStart c h key s → Inv s
  from_start s start = record {
    keyed = start.keyed;
    distinct = start.distinct;
    holds = λ i b. absurd (false≢true (sym (start.quiet i) ∙ b));
  }

  Step-Inv : {s t : Cluster W} → Step c h key s t → Inv s → Inv t
  Step-Inv {s} (begin i idle) inv = begin-Inv s inv i
  Step-Inv {s} (finish i working) inv = finish-Inv s inv i
  Step-Inv {s} (renew i idle) inv = renew-Inv s inv i
  Step-Inv {s} (crash i) inv = crash-Inv s inv i
  Step-Inv (elsewhere w same) inv = record {
    keyed = inv.keyed;
    distinct = inv.distinct;
    holds = λ i b. same ∙ inv.holds i b;
  }
  Step-Inv (lapse w gone outlived) inv = record {
    keyed = inv.keyed;
    distinct = inv.distinct;
    holds = λ i b. absurd (outlived i b (inv.holds i b));
  }

  Reach-Inv : {s t : Cluster W} → Inv s → Reach c h key s t → Inv t
  Reach-Inv inv here = inv
  Reach-Inv inv (next r st) = Step-Inv st (Reach-Inv inv r)

  -- The instances go on to use that key.
  pub Reach-keyed :
      (s t : Cluster W) → IsStart c h key s → Reach c h key s t → (i : ℕ) → (t.locks i).key ≡ key
  Reach-keyed s t start r = (Reach-Inv (from_start s start) r).keyed

  -- From a start in which all instances use one key with different values and none is busy, in every
  -- interleaving of `Acquire`, `Release`, `Extend`, the death of an instance at any time and outside
  -- events, errors of Redis included, in which the key does not lapse during the batch of its owner,
  -- two instances are never busy at once, and the value of a busy instance stands at the key.
  pub mutual_exclusion :
      (s t : Cluster W)
      → IsStart c h key s
      → Reach c h key s t
      → ((i j : ℕ) → t.busy i ≡ true → t.busy j ≡ true → i ≡ j)
        × ((i : ℕ) → t.busy i ≡ true → value_at t.world key ≡ some (t.locks i).value)
  mutual_exclusion s t start r =
      let inv = Reach-Inv (from_start s start) r in
      ((λ i j a b. inv.distinct i j (same_some (sym (inv.holds i a) ∙ inv.holds j b))), inv.holds)
