-- ===== src/Repository/Cache.antt =====
-- internal/repository/redis.go: the cache of deliveries over the client of Redis and encoding/json,
-- which are parameters. A Go map of commands is the list of the distinct keys with their replies.
pub mod Server
pub mod Deliveries
pub mod Pipelines
use go_message_dispatcher.Base.{
  ℕ, ◌*◌, Bool, true, false, Option, none, some, List, [], ◌∷◌, ◌++◌, map, ◌==◌, if◌then◌else◌,
  Text, bytes, itoa, Error, sentinel, redis_nil, is, Result, ok, err, wrap, wrap_err, Action, pure,
  fail, ◌>>=◌, ◌>>◌, lift, wrapping,
}
use go_message_dispatcher.Domain.{CachedDelivery, DeliveryMap, CacheRepository, HealthChecker}
use go_message_dispatcher.Redis.{RedisClient, Pipeline}

-- `json.Marshal` and `json.Unmarshal` of a `CachedDelivery`.
pub record Json : Type 0 where
  pub marshal : CachedDelivery → Result Text
  pub unmarshal : Text → Result CachedDelivery

pub record RedisCache (W : Type 0) : Type 0 where
  pub client : RedisClient W
  pub json : Json
  pub ttl : ℕ

-- `24 * time.Hour`
abbrev pub default_ttl : ℕ
default_ttl = 24 * 3_600_000_000_000

abbrev pub new_redis_cache_repository : {W : Type 0} → RedisClient W → Json → RedisCache W
new_redis_cache_repository client json = record { client = client; json = json; ttl = default_ttl }

unfoldable pub build_cache_key : ℕ → Text
build_cache_key message_id = bytes "delivery:" ++ itoa message_id

-- The code behind `Get`: a missing key is no error.
abbrev pub get_reply : Json → Result Text → Result (Option CachedDelivery)
get_reply json (ok text) =
    elim (wrap_err "failed to unmarshal delivery data" [] (json.unmarshal text)) [
      | ok d ↦ ok (some d)
      | err e ↦ err e
    ]
get_reply json (err e) =
    if is e redis_nil then ok none else err (wrap "failed to get cached delivery data" [] e)

-- The map `commands` at its end, in the order in which its keys were first set: a key that comes
-- again keeps its place and takes the later command.
abbrev pub put_command : ℕ → Result Text → List (ℕ × Result Text) → List (ℕ × Result Text)
put_command k r [] = (k, r) ∷ []
put_command k r ((j, q) ∷ m) = if j == k then (k, r) ∷ m else (j, q) ∷ put_command k r m

unfoldable pub commands :
    List ℕ → List (Result Text) → List (ℕ × Result Text) → List (ℕ × Result Text)
commands (k ∷ ks) (r ∷ rs) m = commands ks rs (put_command k r m)
commands _ _ m = m

-- The loop over the map: it leaves out the missing keys, and stops at the first error.
unfoldable pub decode_replies : Json → List (ℕ × Result Text) → Result DeliveryMap
decode_replies json [] = ok []
decode_replies json ((k, ok text) ∷ m) =
    let rest = decode_replies json m in
    elim (json.unmarshal text) [
      | err e ↦ err (wrap "failed to unmarshal delivery data for message %d" (k ∷ []) e)
      | ok d ↦ elim rest [ ok ds ↦ ok ((k, d) ∷ ds) | err e ↦ err e ]
    ]
decode_replies json ((k, err e) ∷ m) =
    let rest = decode_replies json m in
    if is e redis_nil
    then rest
    else err (wrap "failed to get cached data for message %d" (k ∷ []) e)

-- `err != nil && !errors.Is(err, redis.Nil)`
abbrev pub pipeline_failed : Option Error → Option Error
pipeline_failed none = none
pipeline_failed (some e) = if is e redis_nil then none else some e

module _ {W : Type 0} (r : RedisCache W) where
  unfoldable pub set_delivery_cache : ℕ → CachedDelivery → Action W (Unit {0})
  unfolding build_cache_key
  set_delivery_cache message_id delivery = do
    text ← wrapping "failed to marshal delivery data" [] (lift (r.json.marshal delivery))
    wrapping "failed to cache delivery data" []
        (r.client.set (build_cache_key message_id) text r.ttl)

  unfoldable pub get_delivery_cache : ℕ → Action W (Option CachedDelivery)
  get_delivery_cache message_id w =
      let g = r.client.get (build_cache_key message_id) w in (get_reply r.json g.0, g.1)

  -- The map is walked in an order that the runtime chooses: `walk` is that choice.
  unfoldable pub get_multiple_delivery_cache :
      (List (ℕ × Result Text) → List (ℕ × Result Text)) → List ℕ → Action W DeliveryMap
  get_multiple_delivery_cache walk [] w = (ok [], w)
  get_multiple_delivery_cache walk (k ∷ ks) w =
      let p = r.client.exec_gets (map build_cache_key (k ∷ ks)) w in
      elim (pipeline_failed p.0.error) [
        | some e ↦ (err (wrap "failed to execute cache pipeline" [] e), p.1)
        | none ↦ (decode_replies r.json (walk (commands (k ∷ ks) p.0.replies [])), p.1)
      ]

  -- The repository, for a choice of the runtime.
  abbrev pub cache_repository :
      (List (ℕ × Result Text) → List (ℕ × Result Text)) → CacheRepository W
  cache_repository walk = record {
    set_delivery_cache = set_delivery_cache;
    get_delivery_cache = get_delivery_cache;
    get_multiple_delivery_cache = get_multiple_delivery_cache walk;
  }

  abbrev pub check_connection : Action W (Unit {0})
  check_connection = r.client.ping

  abbrev pub cache_health : HealthChecker W
  cache_health = record { check_health = r.client.ping }
