-- ===== src/Tests/CacheRuns.antt =====
-- The theorems on the cache over the Redis in memory, and on the provider over a client in memory.
-- JSON is a made-up encoding that reads back what it writes.
use go_message_dispatcher.Base.{
  ℕ, ◌≡◌, ◌≢◌, refl, ◌↔◌, inl, inr, none, some, List, [], ◌∷◌, arith, itoa, Text, bytes, ok, err,
  external, Bool-cases, false,
}
use go_message_dispatcher.Domain.{CachedDelivery, SmsDeliveryResponse}
use go_message_dispatcher.Repository.Cache.{
  Json, RedisCache, new_redis_cache_repository, build_cache_key, set_delivery_cache,
  get_delivery_cache, get_multiple_delivery_cache, commands, decode_replies, pipeline_failed,
}
use go_message_dispatcher.Repository.Cache.Server.{RoundTrips, AllAnswer, Answers, IsCacheServer}
use go_message_dispatcher.Repository.Cache.Deliveries.{Shown, get-set_lem}
use go_message_dispatcher.Repository.Cache.Pipelines.{
  CommandMap, Walks, get_multiple_delivery_cache_lem,
}
use go_message_dispatcher.Service.Provider.{
  HttpSmsProvider, HttpClient, HttpRequest, HttpResponse, send_message, send_message_iff,
}
use go_message_dispatcher.Tests.MemoryRedis.{Memory, memory, value_at, exec_gets}

-- The first byte is the time, the rest is the identifier.
abbrev pub json : Json
json = record {
  marshal = λ d. ok (d.timestamp ∷ d.message_id);
  unmarshal = λ t. elim t [
    | [] ↦ err (external 5)
    | c ∷ cs ↦ ok (record { message_id = cs; timestamp = c })
  ];
}

json-RoundTrips : RoundTrips json
json-RoundTrips d t e = ground arith

get-Answers : (k : Text) (w : Memory) → Answers (w.store k) (memory.get k w).0
get-Answers k w = ground arith

answers_up :
    (ks : List Text) (w : Memory)
    → w.down ≡ false
    → AllAnswer (value_at w) ks (exec_gets ks w).0.replies
answers_up [] w up = tt
answers_up (k ∷ ks) w up = (get-Answers k w, answers_up ks w up)

exec_answers :
    (ks : List Text) (w : Memory)
    → pipeline_failed (exec_gets ks w).0.error ≡ none
    → AllAnswer (value_at w) ks (exec_gets ks w).0.replies
exec_answers [] w h = tt
exec_answers (k ∷ ks) w h = elim (Bool-cases w.down) [
  | inl down ↦ absurd (cc (rw down at h))
  | inr up ↦ answers_up (k ∷ ks) w up
]

unfoldable memory-IsCacheServer : IsCacheServer memory
memory-IsCacheServer = record {
  value_at = value_at;
  set-ok = λ k v t w j h. ground arith;
  get-answers = get-Answers;
  exec-answers = exec_answers;
}

abbrev pub cache : RedisCache Memory
cache = new_redis_cache_repository memory json

abbrev delivered : CachedDelivery
delivered = record { message_id = bytes "msg_1"; timestamp = 7 }

abbrev pub empty_cache : Memory
empty_cache = record { store = λ _. none; down = false }

-- The world after the delivery of message 41 has been cached.
abbrev filled : Memory
filled = (set_delivery_cache cache 41 delivered empty_cache).1

filled_ok : (set_delivery_cache cache 41 delivered empty_cache).0 ≡ ok tt
unfolding set_delivery_cache
filled_ok = refl

found_again : (get_delivery_cache cache 41 filled).0 ≡ ok (some delivered)
unfolding get_delivery_cache set_delivery_cache build_cache_key itoa
found_again = refl

-- Message 40 is cached after message 41.
still_there :
    (get_delivery_cache cache 41 (set_delivery_cache cache 40 delivered filled).1).0
    ≡ ok (some delivered)
unfolding get_delivery_cache set_delivery_cache build_cache_key itoa
still_there = refl

filled_again : (set_delivery_cache cache 40 delivered filled).0 ≡ ok tt
unfolding set_delivery_cache
filled_again = refl

-- The delivery of another message is still there.
get-set_lem_example :
    let (n, k) : ℕ × ℕ = (40, 41) in
    (k ≡ n → some delivered ≡ some delivered)
    × (k ≢ n → Shown json (value_at filled (build_cache_key 41)) (some delivered))
unfolding memory-IsCacheServer
get-set_lem_example =
    get-set_lem cache memory-IsCacheServer json-RoundTrips 40 41 delivered filled (some delivered)
      filled_again still_there

abbrev pub in_order : CommandMap → CommandMap
in_order m = m

in_order-Walks : Walks in_order
in_order-Walks m dist = (dist, λ k. refl)

abbrev asked : List ℕ
asked = 42 ∷ 41 ∷ 42 ∷ []

many : (get_multiple_delivery_cache cache in_order asked filled).0 ≡ ok ((41, delivered) ∷ [])
unfolding get_multiple_delivery_cache set_delivery_cache build_cache_key commands decode_replies
    itoa
many = refl

get_multiple_delivery_cache_lem_example :
    Shown json (value_at filled (build_cache_key 41)) (some delivered)
unfolding memory-IsCacheServer
get_multiple_delivery_cache_lem_example =
    get_multiple_delivery_cache_lem cache memory-IsCacheServer in_order asked filled
      ((41, delivered) ∷ []) 41 in_order-Walks many (inr (inl refl))

-- A provider that answers every request with the status and remembers the requests.
abbrev answering : ℕ → HttpClient (List HttpRequest)
answering status = record {
  marshal = λ r. ok r.content;
  new_request = λ m u b. ok (record { method = m; url = u; headers = []; body = b });
  perform = λ r w. (ok (record { status_code = status; body = bytes "msg_7" }), r ∷ w);
  decode = λ t. ok (record { message = bytes "Accepted"; message_id = t });
}

abbrev provider : HttpSmsProvider (List HttpRequest)
provider = record { client = answering 200; base_url = bytes "http://mock-api"; token = bytes "t" }

abbrev posted : HttpRequest
posted = record {
  method = bytes "POST";
  url = bytes "http://mock-api";
  headers = [];
  body = bytes "Hi";
}

send_message_iff_example :
    let r : SmsDeliveryResponse = record {
      message = bytes "Accepted";
      message_id = bytes "msg_7";
    } in
    let answer =
      provider.client.perform
        (record posted {
          headers =
              (bytes "Content-Type", bytes "application/json")
              ∷ (bytes "Authorization", bytes "Bearer t")
              ∷ [];
        })
        [] in
    ((send_message provider (bytes "+1234567890") (bytes "Hi") []).1 ≡ answer.1)
    × (((send_message provider (bytes "+1234567890") (bytes "Hi") []).0 ≡ ok r) ↔ (
        (resp : HttpResponse) × (answer.0 ≡ ok resp)
        × (resp.status_code ≡ 200)
        × (provider.client.decode resp.body ≡ ok r)))
send_message_iff_example =
    send_message_iff provider (bytes "+1234567890") (bytes "Hi") (bytes "Hi") posted []
      (record { message = bytes "Accepted"; message_id = bytes "msg_7" }) refl refl
