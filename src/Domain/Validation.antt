-- ===== src/Domain/Validation.antt =====
-- internal/domain/models.go: the checks of a message, in the order in which the code makes them.
use go_message_dispatcher.Base.{
  ℕ, ◌≤◌, ◌≡◌, ◌↔◌, Bool, true, false, ◌&&◌, ◌||◌, [], ◌∷◌, arith, Text, length, is_empty, ltb,
  if◌then◌else◌, message, Result, ok, err, is_ok,
}
use go_message_dispatcher.Domain.{Message}

unfoldable pub is_valid : Message → Result (Unit {0})
is_valid m =
    if is_empty m.phone_number
    then err (message "phone number is required" [])
    else if ltb (length m.phone_number) 10 || ltb 20 (length m.phone_number)
    then err (message "phone number must be between 10 and 20 characters" [])
    else if is_empty m.content
    then err (message "message content is required" [])
    else if ltb 160 (length m.content)
    then err (message "message content exceeds maximum length of 160 characters" [])
    else ok tt

unfoldable pub validate_phone_number : Message → Bool
validate_phone_number m =
    if is_empty m.phone_number
    then false
    else if ltb (length m.phone_number) 10 || ltb 20 (length m.phone_number)
    then false
    else true

unfoldable pub validate_content : Message → ℕ → Result (Unit {0})
validate_content m max_length =
    if is_empty m.content
    then err (message "message content is required" [])
    else if ltb max_length (length m.content)
    then err (
        message "message content exceeds maximum length of %d characters (got %d)"
          (max_length ∷ length m.content ∷ []))
    else ok tt

pub empty_iff : (s : Text) → (is_empty s ≡ true) ↔ (length s ≡ 0)
empty_iff [] = ground arith
empty_iff (c ∷ s) = ground arith

-- `is_valid` accepts a message exactly when its phone number has 10 to 20 bytes and its content
-- has 1 to 160 bytes.
pub is_valid_iff :
    (m : Message)
    → (is_valid m ≡ ok tt) ↔ (
        (10 ≤ length m.phone_number)
        × (length m.phone_number ≤ 20)
        × (1 ≤ length m.content)
        × (length m.content ≤ 160))
unfolding is_valid
is_valid_iff m = ground (arith, empty_iff m.phone_number, empty_iff m.content)

-- `is_valid` accepts exactly the messages that both of the separate checks accept, the content
-- with the limit 160.
pub is_valid-eq-checks :
    (m : Message) → is_ok (is_valid m) ≡ (validate_phone_number m && is_ok (validate_content m 160))
unfolding is_valid validate_phone_number validate_content
is_valid-eq-checks m = ground arith

-- The content check depends on the limit only as a bound: what one limit accepts, every larger
-- limit accepts, and what it rejects for its length, every smaller limit rejects.
pub validate_content_mono :
    (m : Message) (k l : ℕ) → k ≤ l → validate_content m k ≡ ok tt → validate_content m l ≡ ok tt
unfolding validate_content
validate_content_mono m k l h e = ground arith
