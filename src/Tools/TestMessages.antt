-- ===== src/Tools/TestMessages.antt =====
-- cmd/add-test-messages/main.go: made-up messages. The random numbers, the flags and the database are
-- parameters; a number from `rand.Intn(n)` or `rand.Int63n(n)` is below `n`.
pub mod Form
pub mod Loop
use go_message_dispatcher.Base.{
  ℕ, zero, suc, ◌+◌, List, [], ◌∷◌, ◌++◌, leb, ◌==◌, if◌then◌else◌, Text, bytes, itoa, ℤ, pos,
  negsuc, format_int, length, get_or, Action, ok, ◌>>◌, ◌-◌, ◌^◌, ◌%◌, ltb,
}
use go_message_dispatcher.Config.{Environment}
use go_message_dispatcher.Tools.{Pool, Run, status_of, on_database}

pub record Dice (W : Type 0) : Type 0 where
  pub intn : ℕ → W → ℕ × W
  pub int63n : ℕ → W → ℕ × W

abbrev pub country_codes : List Text
country_codes =
    bytes "1"
    ∷ bytes "44"
    ∷ bytes "49"
    ∷ bytes "90"
    ∷ bytes "359"
    ∷ bytes "86"
    ∷ bytes "91"
    ∷ bytes "33"
    ∷ bytes "39"
    ∷ bytes "81"
    ∷ []

abbrev pub subscriber_digits : Text → ℕ
subscriber_digits country_code = if leb 3 (length country_code) then 9 else 10

abbrev pub lowest : ℕ → ℕ
lowest digits = if digits == 10 then 1_000_000_000 else 100_000_000

abbrev pub span : ℕ → ℕ
span digits = if digits == 10 then 9_000_000_000 else 900_000_000

-- The number for a country code and a draw.
abbrev pub phone_of : Text → ℕ → Text
phone_of country_code drawn =
    bytes "+" ++ (country_code ++ itoa (drawn + lowest (subscriber_digits country_code)))

module _ {W : Type 0} (d : Dice W) where
  unfoldable pub random_phone : W → Text × W
  random_phone w =
      let c = d.intn (length country_codes) w in
      let country_code = get_or [] country_codes c.0 in
      let n = d.int63n (span (subscriber_digits country_code)) c.1 in
      (phone_of country_code n.0, n.1)

-- `fmt.Sprintf("Test message %d", number)`
unfoldable pub test_content : ℤ → Text
test_content number = bytes "Test message " ++ format_int number

-- `start + counter + 1` on 64-bit integers: a sum past the greatest one wraps around.
abbrev pub message_number : ℤ → ℕ → ℤ
message_number (pos n) counter =
    let m = n + counter + 1 in if ltb m (2 ^ 63) then pos m else negsuc (2 ^ 64 - 1 - m % 2 ^ 64)
message_number (negsuc n) counter =
    if leb n counter then pos (counter - n) else negsuc (n - counter - 1)

module _ {W : Type 0} (d : Dice W) (insert : Text → Text → Action W (Unit {0}))
    (start_number : ℤ) where
  -- The loop of `main`, with the rounds that are left and the counter: the first error ends it.
  unfoldable pub add_messages : ℕ → ℕ → Action W (Unit {0})
  add_messages zero counter w = (ok tt, w)
  add_messages (suc left) counter w =
      let p = random_phone d w in
      (insert p.0 (test_content (message_number start_number counter))
          >> add_messages left (counter + 1))
        p.1

  -- `range` over a number that is not positive makes no round.
  abbrev pub rounds : ℤ → ℕ
  rounds (pos n) = n
  rounds (negsuc n) = 0

  unfoldable pub add_test_messages : Pool W → ℤ → Environment → Run W
  add_test_messages pool msg_count env =
      on_database pool env
        (λ w. let r = add_messages (rounds msg_count) 0 w in (status_of r.0, r.1))
