-- ===== src/Service/Outcome.antt =====
-- `ProcessMessages` as a whole: what a batch attempts, marks and reports.
use go_message_dispatcher.Base.{
  ℕ, ◌+◌, ◌-◌, ◌≡◌, refl, ◌∙◌, sym, ap, ◌⊎◌, true, List, [], ◌∷◌, ◌++◌, map, arith, Elem, All, ltb,
  if◌then◌else◌, length, Error, message, ok, err, wrap,
}
use go_message_dispatcher.Domain.{Message}
use go_message_dispatcher.Service.{
  Service, Tally, process_batch, process_all, process_messages, report, batch_size,
}
use go_message_dispatcher.Service.Ledger.{Outgoing, IsLedger}
use go_message_dispatcher.Service.Batch.{outgoing}
use go_message_dispatcher.Service.Loop.{
  failures, outcomes, zero_tally, tally-process_batch, attempts-process_batch, process_batch-Growth,
  process_batch_ok,
}

module _ {W : Type 0} (s : Service W) (l : IsLedger s) where
  open l use {attempts, accepted, sent}

  report_of_counts :
      (t : Tally) (f n : ℕ)
      → t.failed_count ≡ 0 + f
      → t.failed_count + t.success_count ≡ 0 + 0 + n
      → report s t ≡ (
          if ltb 0 f
          then err (message "%d message(s) failed, %d succeeded" (f ∷ (n - f) ∷ []))
          else ok tt)
  report_of_counts t f n a b = ground arith

  report_ok : (t : Tally) → report s t ≡ ok tt → t.failed_count ≡ 0
  report_ok t h = ground arith

  process_all_lem :
      (ms : List Message) (w : W)
      → process_all s ms w
        ≡ (report s (process_batch s ms zero_tally w).0, (process_batch s ms zero_tally w).1)
  unfolding process_all process_batch
  process_all_lem [] w = refl
  process_all_lem (m ∷ ms) w = refl

  module _ (w : W) where
    -- The world after the batch has been read.
    abbrev read : W
    read = (s.message_repo.get_unsent_messages batch_size w).1

    pub process_messages_lem :
        (ms : List Message)
        → (s.message_repo.get_unsent_messages batch_size w).0 ≡ ok ms
        → process_messages s w ≡ (
          report s (process_batch s ms zero_tally read).0,
          (process_batch s ms zero_tally read).1,
        )
    unfolding process_messages
    process_messages_lem ms h = rw (h, process_messages) (process_all_lem ms read)

    -- If the batch can be read, then `ProcessMessages` hands each of its messages to the provider
    -- once, in the order of the batch, whatever happens to the others.
    pub attempts-process_messages :
        (ms : List Message)
        → (s.message_repo.get_unsent_messages batch_size w).0 ≡ ok ms
        → attempts (process_messages s w).1 ≡ attempts w ++ map outgoing ms
    attempts-process_messages ms h =
        rw (process_messages_lem ms h, attempts-process_batch, l.attempts-select)

    -- If the batch can be read, then `ProcessMessages` fails exactly if some message of it fails,
    -- and its error carries the number of messages that failed and the number of the others.
    pub process_messages_report :
        (ms : List Message)
        → (s.message_repo.get_unsent_messages batch_size w).0 ≡ ok ms
        → let failed = failures (outcomes s ms read) in
          (process_messages s w).0 ≡ (
            if ltb 0 failed
            then err
                (message "%d message(s) failed, %d succeeded" (failed ∷ (length ms - failed) ∷ []))
            else ok tt)
    process_messages_report ms h = rw (process_messages_lem ms h) (
        report_of_counts (process_batch s ms zero_tally read).0 (failures (outcomes s ms read))
          (length ms) (tally-process_batch s ms zero_tally read).0
          (tally-process_batch s ms zero_tally read).1)

    -- If the batch cannot be read, then `ProcessMessages` wraps that error, and nothing is handed to
    -- the provider, accepted by it or marked.
    pub process_messages_unread :
        (e : Error)
        → (s.message_repo.get_unsent_messages batch_size w).0 ≡ err e
        → ((process_messages s w).0 ≡ err (wrap "failed to retrieve unsent messages" [] e))
          × (attempts (process_messages s w).1 ≡ attempts w)
          × (accepted (process_messages s w).1 ≡ accepted w)
          × (sent (process_messages s w).1 ≡ sent w)
    unfolding process_messages
    process_messages_unread e h =
        rw (h, process_messages)
          (refl, l.attempts-select _ _, l.accepted-select _ _, l.sent-select _ _)

    -- If the batch can be read, then the provider accepts some further texts, no row is unmarked, and
    -- each row that is newly marked as sent is the row of a message of the batch whose text is among
    -- those further texts.
    pub marked_after_accepted :
        (ms : List Message)
        → (s.message_repo.get_unsent_messages batch_size w).0 ≡ ok ms
        → let w' = (process_messages s w).1 in
          (new : List Outgoing) × (accepted w' ≡ accepted w ++ new)
          × ((k : ℕ) → sent w k ≡ true → sent w' k ≡ true)
          × ((k : ℕ)
              → sent w' k ≡ true
              → (sent w k ≡ true)
                ⊎ ((m : Message) × Elem m ms × (m.id ≡ k) × Elem (outgoing m) new))
    marked_after_accepted ms h = rw (process_messages_lem ms h) (
        let g = process_batch-Growth s l ms zero_tally read in
        (
          g.new,
          g.grown ∙ rw l.accepted-select,
          (λ k e. g.kept k (rw l.sent-select e)),
          (λ k e. rw l.sent-select at (g.caused k e)),
        ))

    -- If the batch can be read and `ProcessMessages` succeeds, then the provider has accepted exactly
    -- the texts of the batch, in order, and the row of every message of the batch is marked as sent.
    pub process_messages_ok :
        (ms : List Message)
        → (s.message_repo.get_unsent_messages batch_size w).0 ≡ ok ms
        → (process_messages s w).0 ≡ ok tt
        → (accepted (process_messages s w).1 ≡ accepted w ++ map outgoing ms)
          × All (λ m. sent (process_messages s w).1 m.id ≡ true) ms
    process_messages_ok ms h done = rw (process_messages_lem ms h) (
        let none_failed =
          report_ok (process_batch s ms zero_tally read).0
            (ap (λ r. r.0) (sym (process_messages_lem ms h)) ∙ done) in
        let (a, b) =
          process_batch_ok s l ms zero_tally read
            (omega (arith, none_failed, tally-process_batch s ms zero_tally read)) in
        (a ∙ rw l.accepted-select, b))
