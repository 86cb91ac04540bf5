-- ===== src/Tests/ServiceRuns.antt =====
-- The theorems on the message service at concrete inputs.
use go_message_dispatcher.Base.{
  ℕ, ◌-◌, ◌≡◌, refl, ◌⊎◌, true, List, [], ◌∷◌, ◌++◌, map, ltb, if◌then◌else◌, Elem, bytes, message,
  ok, err,
}
use go_message_dispatcher.Domain.{Message}
use go_message_dispatcher.Service.{process_single_message, process_batch, process_messages}
use go_message_dispatcher.Service.Ledger.{Outgoing}
use go_message_dispatcher.Service.Batch.{outgoing}
use go_message_dispatcher.Service.Loop.{outcomes, failures}
use go_message_dispatcher.Service.Outcome.{
  attempts-process_messages, process_messages_report, marked_after_accepted,
}
use go_message_dispatcher.Tests.Office.{Office, office, office-IsLedger, note, monday}

abbrev pair : List Message
pair = note 1 (bytes "Hi") ∷ note 2 [] ∷ []

-- One of the two messages of the batch fails.
monday_run :
    (process_messages office monday).0
    ≡ err (message "%d message(s) failed, %d succeeded" (1 ∷ 1 ∷ []))
unfolding process_messages process_batch process_single_message
monday_run = refl

attempts-process_messages_example : (process_messages office monday).1.attempts ≡ map outgoing pair
unfolding office-IsLedger
attempts-process_messages_example =
    attempts-process_messages office office-IsLedger monday pair refl

process_messages_report_example : (process_messages office monday).0 ≡ (
    let failed = failures (outcomes office pair monday) in
    if ltb 0 failed
    then err (message "%d message(s) failed, %d succeeded" (failed ∷ (2 - failed) ∷ []))
    else ok tt)
process_messages_report_example = process_messages_report office office-IsLedger monday pair refl

marked_after_accepted_example :
    let w' = (process_messages office monday).1 in
    (new : List Outgoing) × (w'.accepted ≡ [] ++ new)
    × ((k : ℕ) → monday.sent k ≡ true → w'.sent k ≡ true)
    × ((k : ℕ)
        → w'.sent k ≡ true
        → (monday.sent k ≡ true)
          ⊎ ((m : Message) × Elem m pair × (m.id ≡ k) × Elem (outgoing m) new))
unfolding office-IsLedger
marked_after_accepted_example = marked_after_accepted office office-IsLedger monday pair refl

-- A table that holds only the first and the third message.
abbrev pub tuesday : Office
tuesday = record monday { rows = note 1 (bytes "Hi") ∷ note 3 (bytes "Yo") ∷ [] }

abbrev pub both : List Message
both = note 1 (bytes "Hi") ∷ note 3 (bytes "Yo") ∷ []

tuesday_run : (process_messages office tuesday).0 ≡ ok tt
unfolding process_messages process_batch process_single_message
tuesday_run = refl

abbrev pub thursday : Office
thursday = record tuesday { sent = λ _. true; cache_down = true }
