-- ===== src/MockApi/Protocol.antt =====
-- The SMS provider of the dispatcher against the mock: the two ends of one protocol.
use go_message_dispatcher.Base.{
  ◌≡◌, refl, ◌∙◌, ap, true, false, ◌||◌, [], ◌∷◌, if◌then◌else◌, ◌==◌, Text, bytes, Bool-cases, inl,
  inr, is_empty, Result, ok, err, is_ok, message, wrap_err,
}
use go_message_dispatcher.Domain.{SmsDeliveryResponse}
use go_message_dispatcher.Service.Provider.{HttpClient, HttpSmsProvider, HttpRequest, send_message}
use go_message_dispatcher.MockApi.{
  SmsRequest, SmsResponse, Body, accepted, Reply, Host, accepted_reply, refused_reply,
  generate_message_id, send_sms_handler, health_handler, serve,
}

-- The JSON of a reply, and what the parser of net/url and the transport make of a request.
pub record Wire : Type 0 where
  pub encode : Body → Text
  pub path_of : Text → Text

-- A client whose requests the mock serves.
abbrev pub mock_client : {W : Type 0} → HttpClient W → Host W → Wire → HttpClient W
mock_client client host wire = record client {
  perform = λ req w.
      let r = serve host req.method (wire.path_of req.url) req.body w in
      (ok (record { status_code = r.0.code; body = wire.encode r.0.body }), r.1);
}

-- Both ends agree on the JSON and on the address: what the provider marshals is bound by the mock
-- exactly if both texts are there, and what the mock encodes is decoded by the provider.
pub record Speaks {W : Type 0} (client : HttpClient W) (host : Host W) (wire : Wire) (url : Text)
    : Type 0 where
  pub marshals :
      (phone content : Text)
      → (body : Text) × (client.marshal (record { phone_number = phone; content = content })
          ≡ ok body)
        × ((is_empty phone || is_empty content) ≡ false
            → host.bind_json body ≡ ok (record { phone_number = phone; content = content }))
        × ((is_empty phone || is_empty content) ≡ true → is_ok (host.bind_json body) ≡ false)
  pub requests :
      (body : Text)
      → (req : HttpRequest) × (client.new_request (bytes "POST") url body ≡ ok req)
        × (req.method ≡ bytes "POST")
        × (wire.path_of req.url ≡ bytes "/send")
        × (req.body ≡ body)
  pub decodes :
      (r : SmsResponse)
      → client.decode (wire.encode (accepted r))
        ≡ ok (record { message = r.message; message_id = r.message_id })

module _ {W : Type 0} (host : Host W) (w : W) where
  pub serve_send :
      (method path body : Text)
      → method ≡ bytes "POST"
      → path ≡ bytes "/send"
      → serve host method path body w ≡ send_sms_handler host body w
  unfolding serve
  serve_send method path body m p = rw m (rw p refl)

  pub serve_health :
      (method path body : Text)
      → method ≡ bytes "GET"
      → path ≡ bytes "/health"
      → serve host method path body w ≡ health_handler host w
  unfolding serve
  serve_health method path body m p = rw m (rw p refl)

  pub handler_bound :
      (body : Text) (r : Result SmsRequest)
      → host.bind_json body ≡ r
      → is_ok r ≡ true
      → send_sms_handler host body w
        ≡ (accepted_reply (generate_message_id host w).0, (generate_message_id host w).1)
  unfolding send_sms_handler
  handler_bound body (ok q) e good = rw (e, send_sms_handler) refl
  handler_bound body (err x) e good = absurd (cc)

  handler_unbound :
      (body : Text) (r : Result SmsRequest)
      → host.bind_json body ≡ r
      → is_ok r ≡ false
      → send_sms_handler host body w ≡ (refused_reply, w)
  unfolding send_sms_handler
  handler_unbound body (ok q) e bad = absurd (cc)
  handler_unbound body (err x) e bad = rw (e, send_sms_handler) refl

module _ {W : Type 0} (client : HttpClient W) (host : Host W) (wire : Wire) (url token : Text)
    (k : Speaks client host wire url) (phone content : Text) (w : W) where
  abbrev pub provider : HttpSmsProvider W
  provider = record { client = mock_client client host wire; base_url = url; token = token }

  -- What the provider makes of a reply of the mock.
  abbrev reading : Reply × W → Result SmsDeliveryResponse × W
  reading r =
      if r.0.code == 200
      then (wrap_err "failed to decode SMS response" [] (client.decode (wire.encode r.0.body)), r.1)
      else (err (message "SMS provider returned status %d" (r.0.code ∷ [])), r.1)

  through :
      (body : Text)
      → client.marshal (record { phone_number = phone; content = content }) ≡ ok body
      → send_message provider phone content w ≡ reading (send_sms_handler host body w)
  unfolding send_message
  through body e =
      let (req, built, method, path, same) = k.requests body in
      let served = serve_send host w req.method (wire.path_of req.url) req.body method path in
      rw (e, send_message, built, send_message, served, same)
        (elim (Bool-cases ((send_sms_handler host body w).0.code == 200)) [
          | inl fine ↦ rw fine refl
          | inr other ↦ rw other refl
        ])

  -- Against the mock, `SendMessage` succeeds exactly if the phone number and the content are not
  -- empty: it then returns the text `Accepted` and the identifier that the mock has generated, and
  -- otherwise the error for status 400, with nothing generated.
  pub send_message-mock :
      ((is_empty phone || is_empty content) ≡ false
        → send_message provider phone content w ≡ (
          ok (record { message = bytes "Accepted"; message_id = (generate_message_id host w).0 }),
          (generate_message_id host w).1,
        ))
      × ((is_empty phone || is_empty content) ≡ true
          → send_message provider phone content w
            ≡ (err (message "SMS provider returned status %d" (400 ∷ [])), w))
  send_message-mock =
      let (body, e, good, bad) = k.marshals phone content in
      (
        (λ there.
            through body e
            ∙ ap reading (handler_bound host w body _ (good there) refl)
            ∙ rw (k.decodes _) refl),
        (λ missing. through body e ∙ ap reading (handler_unbound host w body _ refl (bad missing))),
      )
