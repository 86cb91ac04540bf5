-- ===== src/Tools/TestMessages/Form.antt =====
-- The made-up messages are fit to be dispatched.
use go_message_dispatcher.Base.{
  ℕ, suc, ◌+◌, ◌≤◌, ◌<◌, ◌^◌, ◌≡◌, refl, Bool, true, false, leb, if◌then◌else◌, [], ◌∷◌, arith,
  Text, bytes, is_empty, length, length-append, All, All-append, All-map, get_or, get_or-All, itoa,
  itoa-IsDigit, length-itoa, ℤ, pos, negsuc, ok,
}
use go_message_dispatcher.Domain.{Message}
use go_message_dispatcher.Domain.Validation.{is_valid}
use go_message_dispatcher.Repository.Postgres.{char_length, eligible}
use go_message_dispatcher.Repository.Postgres.Queue.{eligible-is_valid}
use go_message_dispatcher.Tools.TestMessages.{
  Dice, country_codes, subscriber_digits, lowest, span, phone_of, random_phone, test_content,
}

abbrev pub IsAscii : ℕ → Type 0
IsAscii c = c < 128

char_length-IsAscii : (s : Text) → All IsAscii s → char_length s ≡ length s
char_length-IsAscii [] h = refl
char_length-IsAscii (c ∷ s) (h, hs) = ground (arith, char_length-IsAscii s hs)

itoa-IsAscii : (n : ℕ) → All IsAscii (itoa n)
itoa-IsAscii n = All-map (λ c d. omega arith) (itoa n) (itoa-IsDigit n)

length_pos : (s : Text) → 1 ≤ length s → is_empty s ≡ false
length_pos [] h = absurd (omega arith)
length_pos (c ∷ s) h = refl

-- One to three digits.
abbrev IsCode : Text → Type 0
IsCode code = All IsAscii code × (1 ≤ length code) × (length code ≤ 3)

codes-IsCode : All IsCode country_codes
codes-IsCode = omega arith

-- The subscriber's number has as many digits as it should.
length-number :
    (long : Bool) (drawn : ℕ)
    → let digits = if◌then◌else◌ {A = ℕ} long 9 10 in
      drawn < span digits → length (itoa (drawn + lowest digits)) ≡ digits
length-number true drawn h = (length-itoa 8 (drawn + 100_000_000) (omega arith)).1 (omega arith)
length-number false drawn h = (length-itoa 9 (drawn + 1_000_000_000) (omega arith)).1 (omega arith)

digits_bounds :
    (code : Text)
    → IsCode code
    → (12 ≤ suc (length code + subscriber_digits code))
      × (suc (length code + subscriber_digits code) ≤ 13)
digits_bounds code (ascii, some_digit, short) = ground arith

-- A made-up number and a content that are ASCII and in bounds.
abbrev pub IsFit : Text → ℕ → ℕ → Type 0
IsFit s least most = All IsAscii s × (least ≤ length s) × (length s ≤ most)

phone_of-IsFit :
    (code : Text) (drawn : ℕ)
    → IsCode code
    → drawn < span (subscriber_digits code)
    → IsFit (phone_of code drawn) 12 13
phone_of-IsFit code drawn c h =
    let n = itoa (drawn + lowest (subscriber_digits code)) in
    let long = length-number (leb 3 (length code)) drawn h in
    let whole = length-append code n in
    let bounds = digits_bounds code c in
    (
      (omega arith, All-append IsAscii code n c.0 (itoa-IsAscii _)),
      omega (arith, long, whole, bounds),
      omega (arith, long, whole, bounds),
    )

random_phone-IsFit :
    {W : Type 0} (d : Dice W) (w : W)
    → ((n : ℕ) (v : W) → 0 < n → ((d.intn n v).0 < n) × ((d.int63n n v).0 < n))
    → IsFit (random_phone d w).0 12 13
unfolding random_phone
random_phone-IsFit d w fair =
    let code = get_or [] country_codes (d.intn 10 w).0 in
    let is_code =
      get_or-All IsCode [] country_codes (d.intn 10 w).0 codes-IsCode (fair 10 w (omega arith)).0 in
    phone_of-IsFit code _ is_code (fair (span (subscriber_digits code)) _ (ground arith)).1

-- The number of a message is a machine integer.
abbrev pub IsInt : ℤ → Type 0
IsInt (pos n) = n < 2 ^ 63
IsInt (negsuc n) = n < 2 ^ 63

test_content-IsFit : (z : ℤ) → IsInt z → IsFit (test_content z) 13 33
unfolding test_content
test_content-IsFit (pos n) h =
    let short = (length-itoa 18 n (omega arith)).0 in
    (
      All-append IsAscii (bytes "Test message ") (itoa n) (omega arith) (itoa-IsAscii n),
      omega arith,
      omega (arith, short),
    )
test_content-IsFit (negsuc n) h =
    let short = (length-itoa 18 (suc n) (omega arith)).0 in
    (
      All-append IsAscii (bytes "Test message -") (itoa (suc n)) (omega arith)
          (itoa-IsAscii (suc n)),
      omega arith,
      omega (arith, short),
    )

IsFit-eligible :
    (m : Message)
    → IsFit m.phone_number 12 13
    → IsFit m.content 13 33
    → m.sent ≡ false
    → (eligible m ≡ true) × (is_valid m ≡ ok tt)
unfolding eligible
IsFit-eligible m phone content unsent =
    let p = char_length-IsAscii m.phone_number phone.0 in
    let c = char_length-IsAscii m.content content.0 in
    let e : eligible m ≡ true =
      ground (arith, p, c, length_pos m.phone_number, length_pos m.content) in
    (e, eligible-is_valid m e p c)

-- A message with these texts is picked for dispatch and passes `IsValid` as long as it is unsent.
abbrev pub IsSendable : Text × Text → Type 0
IsSendable (phone, content) =
    (m : Message)
    → m.phone_number ≡ phone
    → m.content ≡ content
    → m.sent ≡ false
    → (eligible m ≡ true) × (is_valid m ≡ ok tt)

-- What `rand` promises.
abbrev pub IsFair : {W : Type 0} → Dice W → Type 0
IsFair {W} d = (n : ℕ) (w : W) → 0 < n → ((d.intn n w).0 < n) × ((d.int63n n w).0 < n)

pub made_up_IsSendable :
    {W : Type 0} (d : Dice W) (w : W) (number : ℤ)
    → IsFair d
    → IsInt number
    → IsSendable ((random_phone d w).0, test_content number)
made_up_IsSendable d w number fair bounded = λ m phone content unsent.
    IsFit-eligible m (rw phone (random_phone-IsFit d w fair))
      (rw content (test_content-IsFit number bounded)) unsent
