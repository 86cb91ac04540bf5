-- ===== src/Tests/MemoryRedis.antt =====
-- A Redis that keeps one database in memory, and answers nothing while it is down.
use go_message_dispatcher.Base.{
  ℕ, Bool, true, false, Option, none, some, List, [], ◌∷◌, map, arith, if◌then◌else◌, Text, text_eq,
  text_eq_refl, Error, redis_nil, sentinel, external, Result, ok, err, Action,
}
use go_message_dispatcher.Redis.{Script, RedisClient, Pipeline, IsRedis, run_script}

pub record Memory : Type 0 where
  pub store : Text → Option Text
  pub down : Bool

abbrev pub write : Memory → Text → Option Text → Memory
write w k v = record w { store = λ j. if text_eq j k then v else w.store j }

abbrev pub reached : {A : Type 0} → Memory → Result A × Memory → Result A × Memory
reached w r = if w.down then (err (external 1), w) else r

abbrev pub set_nx : Text → Text → ℕ → Action Memory Bool
set_nx k v t w =
    reached w (elim (w.store k) [ none ↦ (ok true, write w k (some v)) | some x ↦ (ok false, w) ])

abbrev pub eval : Script → Text → Text → ℕ → Action Memory ℕ
eval s k v n w = let r = run_script s v n (w.store k) in reached w (ok r.0, write w k r.1)

abbrev pub get_reply : Option Text → Result Text
get_reply none = err (sentinel redis_nil)
get_reply (some x) = ok x

abbrev pub get : Text → Action Memory Text
get k w = reached w (get_reply (w.store k), w)

abbrev pub set : Text → Text → ℕ → Action Memory (Unit {0})
set k v t w = reached w (ok tt, write w k (some v))

abbrev pub first_error : List (Result Text) → Option Error
first_error [] = none
first_error (ok x ∷ rs) = first_error rs
first_error (err e ∷ rs) = some e

abbrev pub exec_gets : List Text → Memory → Pipeline × Memory
exec_gets ks w =
    let replies = map (λ k. (get k w).0) ks in
    (record { error = first_error replies; replies = replies }, w)

abbrev pub ping : Action Memory (Unit {0})
ping w = reached w (ok tt, w)

abbrev pub memory : RedisClient Memory
memory = record {
  set_nx = set_nx;
  eval = eval;
  set = set;
  get = get;
  exec_gets = exec_gets;
  ping = ping;
}

abbrev pub value_at : Memory → Text → Option Text
value_at w k = w.store k

unfoldable pub memory-IsRedis : IsRedis memory
memory-IsRedis = record {
  value_at = value_at;
  set_nx-true = λ k v t w h. ground (arith, text_eq_refl k);
  set_nx-false = λ k v t w h. ground (arith, text_eq_refl k);
  set_nx-err = λ k v t w e h. ground (arith, text_eq_refl k);
  eval-ok = λ s k v n w r h. ground (arith, text_eq_refl k);
  eval-err = λ s k v n w e h. ground (arith, text_eq_refl k);
}
