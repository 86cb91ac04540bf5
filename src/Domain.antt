-- ===== src/Domain.antt =====
-- internal/domain/models.go: the entities, and the interfaces between the components as records of
-- actions over a world. Identifiers are `SERIAL` keys and times are counted from some origin, both
-- as ℕ. A pointer that may be nil is an `Option`; no component changes a struct that it shares.
pub mod Validation
use go_message_dispatcher.Base.{
  ℕ, Bool, Text, Option, List, Action, ◌==◌, none, some, [], ◌∷◌, if◌then◌else◌,
}

pub record Message : Type 0 where
  pub id : ℕ
  pub phone_number : Text
  pub content : Text
  pub sent : Bool
  pub created_at : ℕ

-- The embedded `Message` and the two optional fields.
pub record SentMessageResponse : Type 0 where
  pub message : Message
  pub message_id : Option Text
  pub cached_at : Option ℕ

pub record SmsDeliveryResponse : Type 0 where
  pub message : Text
  pub message_id : Text

pub record CachedDelivery : Type 0 where
  pub message_id : Text
  pub timestamp : ℕ

-- A Go map keyed by message.
abbrev pub DeliveryMap : Type 0
DeliveryMap = List (ℕ × CachedDelivery)

abbrev pub find_delivery : ℕ → DeliveryMap → Option CachedDelivery
find_delivery k [] = none
find_delivery k ((j, d) ∷ m) = if j == k then some d else find_delivery k m

pub record MessageRepository (W : Type 0) : Type 0 where
  pub get_unsent_messages : ℕ → Action W (List Message)
  pub mark_as_sent : ℕ → Action W (Unit {0})
  pub get_sent_messages : Action W (List Message)
  pub create_message : Text → Text → Action W Message

pub record CacheRepository (W : Type 0) : Type 0 where
  pub set_delivery_cache : ℕ → CachedDelivery → Action W (Unit {0})
  pub get_delivery_cache : ℕ → Action W (Option CachedDelivery)
  pub get_multiple_delivery_cache : List ℕ → Action W DeliveryMap

pub record SmsProvider (W : Type 0) : Type 0 where
  pub send_message : Text → Text → Action W SmsDeliveryResponse

pub record MessageService (W : Type 0) : Type 0 where
  pub process_messages : Action W (Unit {0})
  pub get_sent_messages_with_cache : Action W (List SentMessageResponse)

pub record ProcessingController (W : Type 0) : Type 0 where
  pub start : Action W (Unit {0})
  pub stop : Action W (Unit {0})
  pub is_running : W → Bool

pub record HealthChecker (W : Type 0) : Type 0 where
  pub check_health : Action W (Unit {0})
