-- ===== src/Service/Sent.antt =====
-- `GetSentMessagesWithCache`: the rows of the table, each with what the cache knows of it.
use mathlib.Core.Option
use go_message_dispatcher.Base.{◌≡◌, refl, List, [], ◌∷◌, map, arith, All, ok}
use go_message_dispatcher.Domain.{Message, SentMessageResponse, DeliveryMap, find_delivery}
use go_message_dispatcher.Service.{
  Service, enrich, or_empty_cache, respond, get_sent_messages_with_cache,
}

message-enrich : (c : DeliveryMap) (m : Message) → (enrich c m).message ≡ m
unfolding enrich
message-enrich c m = ground arith

map_message-enrich :
    (c : DeliveryMap) (ms : List Message) → map (λ r. r.message) (map (enrich c) ms) ≡ ms
map_message-enrich c [] = refl
map_message-enrich c (m ∷ ms) = rw (message-enrich, map_message-enrich c ms)

-- The optional fields are those of the cached delivery of the message, or both absent.
abbrev pub Shows : DeliveryMap → SentMessageResponse → Type 0
Shows c r =
    (r.message_id ≡ Option.map (λ d. d.message_id) (find_delivery r.message.id c))
    × (r.cached_at ≡ Option.map (λ d. d.timestamp) (find_delivery r.message.id c))

enrich-Shows : (c : DeliveryMap) (m : Message) → Shows c (enrich c m)
unfolding enrich
enrich-Shows c m = ground arith

map-enrich-Shows : (c : DeliveryMap) (ms : List Message) → All (Shows c) (map (enrich c) ms)
map-enrich-Shows c [] = tt
map-enrich-Shows c (m ∷ ms) = (enrich-Shows c m, map-enrich-Shows c ms)

module _ {W : Type 0} (s : Service W) (w : W) where
  -- What the cache returns for the sent messages `ms`; an error counts as nothing cached.
  abbrev cached : List Message → DeliveryMap
  cached ms =
      or_empty_cache
        (s.cache_repo.get_multiple_delivery_cache (map (λ m. m.id) ms)
          (s.message_repo.get_sent_messages w).1).0

  respond_lem :
      (ms : List Message) (v : W)
      → (respond s ms v).0
        ≡ ok (
            map
              (enrich (
                or_empty_cache (s.cache_repo.get_multiple_delivery_cache (map (λ m. m.id) ms) v).0))
              ms)
  unfolding respond
  respond_lem [] v = refl
  respond_lem (m ∷ ms) v = refl

  pub get_sent_messages_with_cache_lem :
      (ms : List Message)
      → (s.message_repo.get_sent_messages w).0 ≡ ok ms
      → (rs : List SentMessageResponse) × ((get_sent_messages_with_cache s w).0 ≡ ok rs)
        × (map (λ r. r.message) rs ≡ ms)
        × All (Shows (cached ms)) rs
  unfolding get_sent_messages_with_cache
  get_sent_messages_with_cache_lem ms h = (
    map (enrich (cached ms)) ms,
    rw (h, get_sent_messages_with_cache) (respond_lem ms _),
    map_message-enrich (cached ms) ms,
    map-enrich-Shows (cached ms) ms,
  )
