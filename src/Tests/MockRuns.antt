-- ===== src/Tests/MockRuns.antt =====
-- The theorems on the mock of the SMS provider, at concrete inputs.
use go_message_dispatcher.Base.{
  ℕ, ◌+◌, ◌≡◌, refl, ◌∙◌, ap, sym, true, false, ◌||◌, [], ◌∷◌, ◌++◌, if◌then◌else◌, Text, bytes,
  is_empty, length, take, drop, Result, ok, err, message, external,
}
use go_message_dispatcher.Service.Provider.{HttpClient, send_message}
use go_message_dispatcher.MockApi.{Body, accepted, other, Host, SmsRequest, generate_message_id}
use go_message_dispatcher.MockApi.MessageId.{HasForm, generate_message_id-HasForm}
use go_message_dispatcher.MockApi.Protocol.{Wire, Speaks, provider, send_message-mock}

-- Two texts in one: the length of the first, the first, the second.
abbrev pub pack : Text → Text → Text
pack s t = length s ∷ s ++ t

abbrev unpack : Text → Text × Text
unpack [] = ([], [])
unpack (n ∷ cs) = (take n cs, drop n cs)

take-pack : (s t : Text) → take (length s) (s ++ t) ≡ s
take-pack [] t = refl
take-pack (c ∷ s) t = ap (λ l. c ∷ l) (take-pack s t)

drop-pack : (s t : Text) → drop (length s) (s ++ t) ≡ t
drop-pack [] t = refl
drop-pack (c ∷ s) t = drop-pack s t

-- Both texts have to be there.
abbrev pub bind_json : Text → Result SmsRequest
bind_json body =
    let (p, c) = unpack body in
    if is_empty p || is_empty c
    then err (external 1)
    else ok (record { phone_number = p; content = c })

-- The world counts the calls of `rand.Read`.
abbrev pub host : Host ℕ
host = record {
  bind_json = bind_json;
  read_random = λ n w. (ok (bytes "\0$%012345"), w + 1);
  unix_nano = λ w. (0, w);
  timestamp = λ w. ([], w);
  no_route = λ method path w. (record { code = 404; body = other [] }, w);
}

abbrev pub encode : Body → Text
encode (accepted r) = pack r.message r.message_id
encode _ = []

abbrev wire : Wire
wire = record { encode = encode; path_of = λ url. drop 9 url }

abbrev client : HttpClient ℕ
client = record {
  marshal = λ r. ok (pack r.phone_number r.content);
  new_request =
      λ method url body. ok (record { method = method; url = url; headers = []; body = body });
  perform = λ req w. (err (external 2), w);
  decode = λ body. let (m, i) = unpack body in ok (record { message = m; message_id = i });
}

pub bind_json-pack :
    (p c : Text)
    → bind_json (pack p c) ≡ (
        if is_empty p || is_empty c
        then err (external 1)
        else ok (record { phone_number = p; content = c }))
bind_json-pack p c = rw (take-pack p c, drop-pack p c) refl

unfoldable client-Speaks : Speaks client host wire (bytes "mock:8090/send")
client-Speaks = record {
  marshals = λ p c.
      (pack p c, refl, (λ h. bind_json-pack p c ∙ rw h refl), λ h. rw (bind_json-pack p c, h) refl);
  requests = λ body. (_, refl, refl, refl, refl);
  decodes = λ r. rw (take-pack r.message r.message_id, drop-pack r.message r.message_id) refl;
}

send_message-mock_example :
    let p =
      provider client host wire
        (bytes "mock:8090/send")
        []
        client-Speaks
        (bytes "+9055")
        (bytes "hi")
        0 in
    ((is_empty (bytes "+9055") || is_empty (bytes "hi")) ≡ false
      → send_message p (bytes "+9055") (bytes "hi") 0 ≡ (
        ok (record { message = bytes "Accepted"; message_id = (generate_message_id host 0).0 }),
        (generate_message_id host 0).1,
      ))
    × ((is_empty (bytes "+9055") || is_empty (bytes "hi")) ≡ true
        → send_message p (bytes "+9055") (bytes "hi") 0
          ≡ (err (message "SMS provider returned status %d" (400 ∷ [])), 0))
send_message-mock_example =
    send_message-mock client host wire (bytes "mock:8090/send") [] client-Speaks (bytes "+9055")
      (bytes "hi") 0

ok_inj : {A : Type 0} {a b : A} → ok a ≡ ok b → a ≡ b
ok_inj h = cc

nine : (b : Text) → (host.read_random 9 0).0 ≡ ok b → length b ≡ 9
nine b h = ap length (sym (ok_inj h))

generate_message_id-HasForm_example : HasForm (generate_message_id host 0).0
generate_message_id-HasForm_example = generate_message_id-HasForm host 0 nine
