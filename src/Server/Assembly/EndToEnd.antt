-- ===== src/Server/Assembly/EndToEnd.antt =====
-- The message service over the repository on PostgreSQL: what the service assumes of the table is
-- what the repository does with it.
use mathlib.Core.List.{Permᴰ}
use go_message_dispatcher.Base.{
  ℕ, ◌≤◌, ◌≡◌, refl, ap, ◌⊎◌, inl, inr, true, List, [], ◌∷◌, ◌++◌, map, length, All, Text, Error,
  ok, err, Result-cases,
}
use go_message_dispatcher.Domain.{Message, SmsDeliveryResponse, CacheRepository, SmsProvider}
use go_message_dispatcher.Repository.Postgres.{Db, fifo, get_unsent_messages, message_repository}
use go_message_dispatcher.Repository.Postgres.Server.{Sorted, IsPostgres}
use go_message_dispatcher.Repository.Postgres.Queue.{
  Ahead, waiting, table-get_unsent_messages, get_unsent_messages_lem,
}
use go_message_dispatcher.Repository.Postgres.Marking.{row_sent, mark_as_sent_ok, mark_as_sent_err}
use go_message_dispatcher.Service.{Service, batch_size, process_messages}
use go_message_dispatcher.Service.Ledger.{Outgoing, IsLedger}
use go_message_dispatcher.Service.Batch.{outgoing}
use go_message_dispatcher.Service.Outcome.{process_messages_ok, process_messages_unread}
use go_message_dispatcher.Server.Assembly.{Outside, message_service}

-- The history of the provider: an error may hide that it has accepted the text.
pub record IsProvider {P : Type 0} (p : SmsProvider P) : Type 0 where
  pub attempts : P → List Outgoing
  pub accepted : P → List Outgoing
  pub attempts-send :
      (n c : Text) (w : P) → attempts (p.send_message n c w).1 ≡ attempts w ++ (n, c) ∷ []
  pub accepted-send_ok :
      (n c : Text) (w : P) (r : SmsDeliveryResponse)
      → (p.send_message n c w).0 ≡ ok r
      → accepted (p.send_message n c w).1 ≡ accepted w ++ (n, c) ∷ []
  pub accepted-send_err :
      (n c : Text) (w : P) (e : Error)
      → (p.send_message n c w).0 ≡ err e
      → (accepted (p.send_message n c w).1 ≡ accepted w)
        ⊎ (accepted (p.send_message n c w).1 ≡ accepted w ++ (n, c) ∷ [])

module _ {D R P T : Type 0} (db : Db D) (h : IsPostgres db) (cache : CacheRepository R)
    (provider : SmsProvider P) (k : IsProvider provider) (now : T → ℕ × T) where
  abbrev pub program : Service (Outside D R P T)
  program = message_service (message_repository db) cache provider now

  -- The assumptions of the message service hold.
  unfoldable pub program-IsLedger : IsLedger program
  unfolding message_service
  program-IsLedger = record {
    attempts = λ w. k.attempts w.provider;
    accepted = λ w. k.accepted w.provider;
    sent = λ w. row_sent (h.table w.db);
    attempts-send = λ p c w. k.attempts-send p c w.provider;
    accepted-send_ok = λ p c w r e. k.accepted-send_ok p c w.provider r e;
    accepted-send_err = λ p c w x e. k.accepted-send_err p c w.provider x e;
    sent-send = λ p c w. refl;
    attempts-mark = λ n w. refl;
    accepted-mark = λ n w. refl;
    sent-mark_ok = λ n w e. (mark_as_sent_ok db h n w.db e).1;
    sent-mark_err = λ n w x e. mark_as_sent_err db h n w.db x e;
    attempts-now = λ w. refl;
    accepted-now = λ w. refl;
    sent-now = λ w. refl;
    attempts-cache = λ n d w. refl;
    accepted-cache = λ n d w. refl;
    sent-cache = λ n d w. refl;
    attempts-select = λ n w. refl;
    accepted-select = λ n w. refl;
    sent-select = λ n w. ap row_sent (table-get_unsent_messages db h n w.db);
  }

  module _ (w : Outside D R P T) where
    -- What has been dispatched, given what the select has found.
    pub dispatched_batch :
        (ms : List Message)
        → (get_unsent_messages db batch_size w.db).0 ≡ ok ms
        → (process_messages program w).0 ≡ ok tt
        → (k.accepted (process_messages program w).1.provider
            ≡ k.accepted w.provider ++ map outgoing ms)
          × All (λ m. row_sent (h.table (process_messages program w).1.db) m.id ≡ true) ms
    unfolding message_service program-IsLedger
    dispatched_batch ms found done = process_messages_ok program program-IsLedger w ms found done

    unread :
        (e : Error)
        → (get_unsent_messages db batch_size w.db).0 ≡ err e
        → (process_messages program w).0 ≡ ok tt
        → ⊥
    unfolding message_service
    unread e found done = cc ((process_messages_unread program program-IsLedger w e found).0)

    -- If a run of `ProcessMessages` over PostgreSQL succeeds, then the provider has accepted, in their
    -- order, exactly the texts of the front of the queue: of two rows that were eligible and not
    -- locked, in the order of creation and each before all other such rows, or of fewer if there
    -- were no more. The rows of all of them are now marked as sent in the table.
    pub front_dispatched :
        (process_messages program w).0 ≡ ok tt
        → (ms : List Message) × (rest : List Message) × Permᴰ
            (ms ++ rest)
            (waiting db h batch_size w.db)
          × Sorted fifo ms
          × Ahead ms rest
          × ((length ms ≡ 2) ⊎ ((length ms ≤ 2) × (rest ≡ [])))
          × (k.accepted (process_messages program w).1.provider
              ≡ k.accepted w.provider ++ map outgoing ms)
          × All (λ m. row_sent (h.table (process_messages program w).1.db) m.id ≡ true) ms
    front_dispatched done = elim (Result-cases (get_unsent_messages db batch_size w.db).0) [
      | inl (ms, found) ↦
          let (rest, perm, sorted, ahead, full) =
            (get_unsent_messages_lem db h batch_size w.db ms found).1 in
          let (texts, marked) = dispatched_batch ms found done in
          (ms, rest, perm, sorted, ahead, full, texts, marked)
      | inr (e, lost) ↦ absurd (unread e lost done)
    ]
