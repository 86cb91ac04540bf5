-- ===== src/Service/Ledger.antt =====
-- What the message service may assume of its collaborators, in terms of three observations of the
-- world: the texts handed to the provider, those that the provider has accepted, and the `sent`
-- column of the table.
use go_message_dispatcher.Base.{
  ℕ, ◌≡◌, ◌≢◌, All, ◌⊎◌, Bool, true, List, [], ◌∷◌, ◌++◌, ◌==◌, if◌then◌else◌, Text, Error, ok, err,
}
use go_message_dispatcher.Domain.{Message, SmsDeliveryResponse, CachedDelivery}
use go_message_dispatcher.Service.{Service}

-- Phone number and content.
abbrev pub Outgoing : Type 0
Outgoing = Text × Text

abbrev pub set_sent : ℕ → (ℕ → Bool) → ℕ → Bool
set_sent n sent k = if k == n then true else sent k

-- No two messages have the same key.
abbrev pub Distinct : List Message → Type 0
Distinct [] = Unit
Distinct (m ∷ ms) = All (λ n. n.id ≢ m.id) ms × Distinct ms

-- An error may hide an effect: an answer can be lost after the provider has accepted the text, or
-- after the database has committed the update. The cache and the clock touch none of the three.
pub record IsLedger {W : Type 0} (s : Service W) : Type 0 where
  pub attempts : W → List Outgoing
  pub accepted : W → List Outgoing
  pub sent : W → ℕ → Bool
  pub attempts-send :
      (p c : Text) (w : W)
      → attempts (s.sms_provider.send_message p c w).1 ≡ attempts w ++ (p, c) ∷ []
  pub accepted-send_ok :
      (p c : Text) (w : W) (r : SmsDeliveryResponse)
      → (s.sms_provider.send_message p c w).0 ≡ ok r
      → accepted (s.sms_provider.send_message p c w).1 ≡ accepted w ++ (p, c) ∷ []
  pub accepted-send_err :
      (p c : Text) (w : W) (e : Error)
      → (s.sms_provider.send_message p c w).0 ≡ err e
      → (accepted (s.sms_provider.send_message p c w).1 ≡ accepted w)
        ⊎ (accepted (s.sms_provider.send_message p c w).1 ≡ accepted w ++ (p, c) ∷ [])
  pub sent-send : (p c : Text) (w : W) → sent (s.sms_provider.send_message p c w).1 ≡ sent w
  pub attempts-mark : (n : ℕ) (w : W) → attempts (s.message_repo.mark_as_sent n w).1 ≡ attempts w
  pub accepted-mark : (n : ℕ) (w : W) → accepted (s.message_repo.mark_as_sent n w).1 ≡ accepted w
  pub sent-mark_ok :
      (n : ℕ) (w : W)
      → (s.message_repo.mark_as_sent n w).0 ≡ ok tt
      → sent (s.message_repo.mark_as_sent n w).1 ≡ set_sent n (sent w)
  pub sent-mark_err :
      (n : ℕ) (w : W) (e : Error)
      → (s.message_repo.mark_as_sent n w).0 ≡ err e
      → (sent (s.message_repo.mark_as_sent n w).1 ≡ sent w)
        ⊎ (sent (s.message_repo.mark_as_sent n w).1 ≡ set_sent n (sent w))
  pub attempts-now : (w : W) → attempts (s.now w).1 ≡ attempts w
  pub accepted-now : (w : W) → accepted (s.now w).1 ≡ accepted w
  pub sent-now : (w : W) → sent (s.now w).1 ≡ sent w
  pub attempts-cache :
      (n : ℕ) (d : CachedDelivery) (w : W)
      → attempts (s.cache_repo.set_delivery_cache n d w).1 ≡ attempts w
  pub accepted-cache :
      (n : ℕ) (d : CachedDelivery) (w : W)
      → accepted (s.cache_repo.set_delivery_cache n d w).1 ≡ accepted w
  pub sent-cache :
      (n : ℕ) (d : CachedDelivery) (w : W) → sent (s.cache_repo.set_delivery_cache n d w).1 ≡ sent w
  pub attempts-select :
      (n : ℕ) (w : W) → attempts (s.message_repo.get_unsent_messages n w).1 ≡ attempts w
  pub accepted-select :
      (n : ℕ) (w : W) → accepted (s.message_repo.get_unsent_messages n w).1 ≡ accepted w
  pub sent-select : (n : ℕ) (w : W) → sent (s.message_repo.get_unsent_messages n w).1 ≡ sent w
