-- ===== src/Lock/Cluster/Lapse.antt =====
-- What the exclusion rests on: a key that lapses during a batch lets a second instance in.
use go_message_dispatcher.Base.{
  ℕ, ◌≡◌, refl, ◌∙◌, sym, ap, ◌≢◌, true, false, none, some, arith, ◌==◌, ==_refl, ==_iff, is_ok,
  Text,
}
use go_message_dispatcher.Redis.{RedisClient, IsRedis}
use go_message_dispatcher.Lock.{acquire}
use go_message_dispatcher.Lock.Answered.{IsUp, acquire_free}
use go_message_dispatcher.Lock.Cluster.{Cluster, view, put, IsStart}

-- Instance `i` begins a batch, if it gets the lock.
abbrev pub joined : {W : Type 0} → RedisClient W → Cluster W → ℕ → Cluster W
joined c s i = put s i (acquire c (view s i)).1 (is_ok (acquire c (view s i)).0)

module _ {W : Type 0} (c : RedisClient W) (h : IsRedis c) (key : Text) {Up : W → Type 0}
    (up : IsUp c Up) where
  open h use {value_at}

  -- An instance gets a key that is free.
  joined_free :
      (s : Cluster W) (i : ℕ)
      → (s.locks i).key ≡ key
      → value_at s.world key ≡ none
      → Up s.world
      → ((joined c s i).busy i ≡ true)
        × (value_at (joined c s i).world key ≡ some (s.locks i).value)
  joined_free s i keyed free on =
      let (done, _, held) =
        acquire_free c h up (view s i) on (ap (value_at s.world) keyed ∙ free) in
      (rw ==_refl (rw done refl), ap (value_at (joined c s i).world) (sym keyed) ∙ held)

  -- All instances use one key with different values, none runs a batch, the key is free, and Redis
  -- answers. Let instance `i` begin a batch, let the key lapse, into any world in which it is free and
  -- Redis answers, and let another instance `j` begin a batch. Then `i` has had its own value at the
  -- key, both run a batch at once, and the value of `j` is at the key.
  pub lapse_overlaps :
      (s : Cluster W) (i j : ℕ) (w : W)
      → IsStart c h key s
      → i ≢ j
      → value_at s.world key ≡ none
      → value_at w key ≡ none
      → Up s.world
      → Up w
      → let begun = joined c s i in
        let t = joined c (record begun { world = w }) j in
        (value_at begun.world key ≡ some (s.locks i).value)
        × (t.busy i ≡ true)
        × (t.busy j ≡ true)
        × (value_at t.world key ≡ some (s.locks j).value)
  lapse_overlaps s i j w start other free lapsed on still =
      let begun = joined c s i in
      let away : (i == j) ≡ false = ground (arith, ==_iff i j) in
      let back : (j == i) ≡ false = ground (arith, ==_iff j i, ==_iff i j) in
      let kept : begun.locks j ≡ s.locks j = rw back refl in
      let (first, held) = joined_free s i (start.keyed i) free on in
      let (second, taken) =
        joined_free (record begun { world = w }) j (ap (λ l. l.key) kept ∙ start.keyed j) lapsed
          still in
      (held, rw away first, second, taken ∙ ap (λ l. some l.value) kept)
