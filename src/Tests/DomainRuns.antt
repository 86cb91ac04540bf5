-- ===== src/Tests/DomainRuns.antt =====
-- The theorems on the checks of a message at a concrete message.
use go_message_dispatcher.Base.{◌≤◌, ◌≡◌, ◌↔◌, false, bytes, ok}
use go_message_dispatcher.Domain.{Message}
use go_message_dispatcher.Domain.Validation.{is_valid, is_valid_iff}

abbrev greeting : Message
greeting = record {
  id = 1;
  phone_number = bytes "+1234567890";
  content = bytes "Welcome";
  sent = false;
  created_at = 0;
}

is_valid_iff_example : (is_valid greeting ≡ ok tt) ↔ ((10 ≤ 11) × (11 ≤ 20) × (1 ≤ 7) × (7 ≤ 160))
is_valid_iff_example = is_valid_iff greeting
