-- ===== src/Tests/Outages.antt =====
-- The Redis in memory: it answers while it is not down, and does not go down by itself.
use go_message_dispatcher.Base.{
  ◌≡◌, refl, Bool, true, false, Option, none, some, arith, text_eq, text_eq_iff, Bool-cases, inl,
  inr, Text,
}
use go_message_dispatcher.Fleet.Program.{SetsOwnKey}
use go_message_dispatcher.Lock.Answered.{IsUp}
use go_message_dispatcher.Redis.{run_script}
use go_message_dispatcher.Tests.MemoryRedis.{Memory, memory, memory-IsRedis}

abbrev pub IsOpen : Memory → Type 0
IsOpen w = w.down ≡ false

abbrev is_free : Option Text → Bool
is_free none = true
is_free (some _) = false

pub memory-IsUp : IsUp memory IsOpen
memory-IsUp = record {
  set_nx-answered = λ k v t w on. (is_free (w.store k), ground arith);
  eval-answered = λ s k v n w on. ((run_script s v n (w.store k)).0, rw on refl);
  set_nx-up = λ k v t w on. ground arith;
  eval-up = λ s k v n w on. rw on refl;
  set-up = λ k v t w on. rw on refl;
}

pub memory-SetsOwnKey : SetsOwnKey memory memory-IsRedis
unfolding memory-IsRedis
memory-SetsOwnKey k v t w j other = elim (Bool-cases (text_eq j k)) [
  | inl same ↦ absurd (other ((text_eq_iff j k).0 same))
  | inr differ ↦ ground (arith, differ)
]
