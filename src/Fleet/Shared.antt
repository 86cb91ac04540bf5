-- ===== src/Fleet/Shared.antt =====
-- What the fleet relies on where its collaborators meet: the calls of Redis leave the table and the
-- provider alone, the work on a message leaves the key of the lock alone, and a batch that is read
-- holds each unsent row once.
use go_message_dispatcher.Base.{ℕ, ◌≡◌, false, List, Text, ok, All}
use go_message_dispatcher.Domain.{Message}
use go_message_dispatcher.Redis.{RedisClient, IsRedis, Script}
use go_message_dispatcher.Service.{Service, batch_size, process_single_message}
use go_message_dispatcher.Service.Ledger.{Distinct, IsLedger}
use go_message_dispatcher.Service.Batch.{after_send}

module _ {W : Type 0} (c : RedisClient W) (h : IsRedis c) (key : Text) (s : Service W)
    (l : IsLedger s) (Good : W → Type 0) where
  -- `w'` shows the same table and the same history of the provider as `w`.
  pub record SameLedger (w w' : W) : Type 0 where
    pub attempts : l.attempts w' ≡ l.attempts w
    pub accepted : l.accepted w' ≡ l.accepted w
    pub sent : l.sent w' ≡ l.sent w
    pub good : Good w → Good w'

  pub record IsShared : Type 0 where
    pub set_nx-SameLedger : (k v : Text) (t : ℕ) (w : W) → SameLedger w (c.set_nx k v t w).1
    pub eval-SameLedger :
        (x : Script) (k v : Text) (n : ℕ) (w : W) → SameLedger w (c.eval x k v n w).1
    pub select-fresh :
        (w : W) (ms : List Message)
        → Good w
        → (s.message_repo.get_unsent_messages batch_size w).0 ≡ ok ms
        → All (λ m. l.sent w m.id ≡ false) ms × Distinct ms
    pub select-good : (w : W) → Good w → Good (s.message_repo.get_unsent_messages batch_size w).1
    pub select-value :
        (w : W)
        → h.value_at (s.message_repo.get_unsent_messages batch_size w).1 key ≡ h.value_at w key
    pub send-good : (m : Message) (w : W) → Good w → Good (after_send s m w)
    pub send-value : (m : Message) (w : W) → h.value_at (after_send s m w) key ≡ h.value_at w key
    pub mark-good : (n : ℕ) (w : W) → Good w → Good (s.message_repo.mark_as_sent n w).1
    pub mark-value :
        (n : ℕ) (w : W) → h.value_at (s.message_repo.mark_as_sent n w).1 key ≡ h.value_at w key
    pub single-good : (m : Message) (w : W) → Good w → Good (process_single_message s m w).1
    pub single-value :
        (m : Message) (w : W) → h.value_at (process_single_message s m w).1 key ≡ h.value_at w key
