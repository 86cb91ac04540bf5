-- ===== src/Service.antt =====
-- internal/service/message_service.go: the message service over its three collaborators. `now` is
-- `time.Now`; the provider of the same file stands in Service/Provider.antt.
pub mod Provider
pub mod Ledger
pub mod Batch
pub mod Loop
pub mod Outcome
pub mod Sent
use go_message_dispatcher.Base.{
  ℕ, ◌+◌, Bool, true, false, Option, none, some, List, [], ◌∷◌, map, ltb, if◌then◌else◌, Text,
  message, Result, ok, err, is_ok, Action, pure, fail, ◌>>=◌, ◌>>◌, wrapping, attempt,
}
use go_message_dispatcher.Domain.{
  Message, SentMessageResponse, SmsDeliveryResponse, CachedDelivery, DeliveryMap, find_delivery,
  MessageRepository, CacheRepository, SmsProvider, MessageService,
}

pub record Service (W : Type 0) : Type 0 where
  pub message_repo : MessageRepository W
  pub cache_repo : CacheRepository W
  pub sms_provider : SmsProvider W
  pub now : W → ℕ × W

abbrev pub clock : {W : Type 0} → Service W → Action W ℕ
clock s w = (ok (s.now w).0, (s.now w).1)

abbrev pub batch_size : ℕ
batch_size = 2

-- The number of failed and of succeeded messages.
pub record Tally : Type 0 where
  pub failed_count : ℕ
  pub success_count : ℕ

abbrev pub count_failure : Tally → Tally
count_failure t = record t { failed_count = t.failed_count + 1 }

abbrev pub count_success : Tally → Tally
count_success t = record t { success_count = t.success_count + 1 }

-- The response of one message, with the two optional fields if its delivery is cached.
unfoldable pub enrich : DeliveryMap → Message → SentMessageResponse
enrich cached_data m = elim (find_delivery m.id cached_data) [
  | none ↦ record { message = m; message_id = none; cached_at = none }
  | some d ↦ record { message = m; message_id = some d.message_id; cached_at = some d.timestamp }
]

-- An unreadable cache counts as an empty one.
abbrev pub or_empty_cache : Result DeliveryMap → DeliveryMap
or_empty_cache (ok cached_data) = cached_data
or_empty_cache (err _) = []

module _ {W : Type 0} (s : Service W) where
  abbrev pub send : Message → Action W SmsDeliveryResponse
  send m = s.sms_provider.send_message m.phone_number m.content

  unfoldable pub process_single_message : Message → Action W (Unit {0})
  process_single_message m = do
    response ← wrapping "failed to send SMS for message %d" (m.id ∷ []) (send m)
    wrapping "failed to mark message %d as sent" (m.id ∷ []) (s.message_repo.mark_as_sent m.id)
    timestamp ← clock s
    _ ← attempt (
        s.cache_repo.set_delivery_cache m.id
          (record { message_id = response.message_id; timestamp = timestamp }))
    pure tt

  -- The loop over the batch: an error is counted, and the loop goes on.
  unfoldable pub process_batch : List Message → Tally → W → Tally × W
  process_batch [] t w = (t, w)
  process_batch (m ∷ ms) t w =
      let r = process_single_message m w in
      process_batch ms (if is_ok r.0 then count_success t else count_failure t) r.1

  -- What the end of `ProcessMessages` returns.
  abbrev pub report : Tally → Result (Unit {0})
  report t =
      if ltb 0 t.failed_count
      then err
          (message "%d message(s) failed, %d succeeded" (t.failed_count ∷ t.success_count ∷ []))
      else ok tt

  unfoldable pub process_all : List Message → Action W (Unit {0})
  process_all [] w = (ok tt, w)
  process_all (m ∷ ms) w =
      let r = process_batch (m ∷ ms) (record { failed_count = 0; success_count = 0 }) w in
      (report r.0, r.1)

  unfoldable pub process_messages : Action W (Unit {0})
  unfolding process_all
  process_messages = do
    messages ←
        wrapping "failed to retrieve unsent messages" []
          (s.message_repo.get_unsent_messages batch_size)
    process_all messages

  respond : List Message → Action W (List SentMessageResponse)
  respond [] w = (ok [], w)
  respond (m ∷ ms) w =
      let r = s.cache_repo.get_multiple_delivery_cache (map (λ msg. msg.id) (m ∷ ms)) w in
      (ok (map (enrich (or_empty_cache r.0)) (m ∷ ms)), r.1)

  unfoldable pub get_sent_messages_with_cache : Action W (List SentMessageResponse)
  unfolding respond
  get_sent_messages_with_cache = do
    messages ← wrapping "failed to retrieve sent messages" [] s.message_repo.get_sent_messages
    respond messages

  -- The struct as the scheduler and the handler see it.
  abbrev pub message_service : MessageService W
  message_service = record {
    process_messages = process_messages;
    get_sent_messages_with_cache = get_sent_messages_with_cache;
  }
