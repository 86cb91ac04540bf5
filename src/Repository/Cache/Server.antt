-- ===== src/Repository/Cache/Server.antt =====
-- What the cache relies on of Redis and of encoding/json.
use go_message_dispatcher.Base.{
  ℕ, ◌≡◌, true, Option, none, some, List, [], ◌∷◌, if◌then◌else◌, Text, text_eq, redis_nil, is,
  Result, ok, err,
}
use go_message_dispatcher.Domain.{CachedDelivery}
use go_message_dispatcher.Redis.{RedisClient}
use go_message_dispatcher.Repository.Cache.{Json, pipeline_failed}

-- What is marshalled is read back.
abbrev pub RoundTrips : Json → Type 0
RoundTrips json = (d : CachedDelivery) (t : Text) → json.marshal d ≡ ok t → json.unmarshal t ≡ ok d

-- A reply to GET, against the value at the key: a value, or `redis.Nil` for none. Any other error
-- says nothing.
abbrev pub Answers : Option Text → Result Text → Type 0
Answers found (ok text) = found ≡ some text
Answers found (err e) = is e redis_nil ≡ true → found ≡ none

abbrev pub AllAnswer : (Text → Option Text) → List Text → List (Result Text) → Type 0
AllAnswer value [] [] = Unit
AllAnswer value [] (_ ∷ _) = ⊥
AllAnswer value (_ ∷ _) [] = ⊥
AllAnswer value (k ∷ ks) (r ∷ rs) = Answers (value k) r × AllAnswer value ks rs

-- A pipeline whose error is none or `redis.Nil` has a reply for each of its commands, in order.
pub record IsCacheServer {W : Type 0} (c : RedisClient W) : Type 0 where
  pub value_at : W → Text → Option Text
  pub set-ok :
      (k v : Text) (t : ℕ) (w : W) (j : Text)
      → (c.set k v t w).0 ≡ ok tt
      → value_at (c.set k v t w).1 j ≡ (if text_eq j k then some v else value_at w j)
  pub get-answers : (k : Text) (w : W) → Answers (value_at w k) (c.get k w).0
  pub exec-answers :
      (ks : List Text) (w : W)
      → pipeline_failed (c.exec_gets ks w).0.error ≡ none
      → AllAnswer (value_at w) ks (c.exec_gets ks w).0.replies
