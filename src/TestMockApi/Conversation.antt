-- ===== src/TestMockApi/Conversation.antt =====
-- The tool against the mock, which serves both of its requests.
use go_message_dispatcher.Base.{ℕ, ◌≡◌, refl, ◌∙◌, ap, List, [], ◌∷◌, Text, bytes, ok}
use go_message_dispatcher.MockApi.{
  Host, Body, Reply, accepted, healthy, serve, health_handler, generate_message_id,
}
use go_message_dispatcher.MockApi.Protocol.{serve_send, serve_health, handler_bound}
use go_message_dispatcher.TestMockApi.{
  HttpRequest, HttpClient, Line, shown, sms_req, send_url, health_url, ask_health, main,
}

-- The JSON of a reply, the text of a status, and the path of an address.
pub record Wire : Type 0 where
  pub encode : Body → Text
  pub status_text : ℕ → Text
  pub path_of : Text → Text

abbrev pub mock_client : {W : Type 0} → HttpClient W → Host W → Wire → HttpClient W
mock_client client host wire = record client {
  perform = λ req w.
      let r = serve host req.method (wire.path_of req.url) req.body w in
      (ok (record { status = wire.status_text r.0.code; body = ok (wire.encode r.0.body) }), r.1);
}

-- The client marshals the message to a text that the mock binds, and builds requests with the
-- addresses and methods that it is given.
pub record Reaches {W : Type 0} (client : HttpClient W) (host : Host W) (wire : Wire) : Type 0 where
  pub json : Text
  pub marshals : client.marshal sms_req ≡ ok json
  pub binds :
      host.bind_json json
      ≡ ok (record { phone_number = sms_req.phone_number; content = sms_req.content })
  pub requests :
      (method url body : Text)
      → (req : HttpRequest) × (client.new_request method url body ≡ ok req)
        × (req.method ≡ method)
        × (req.url ≡ url)
        × (req.body ≡ body)
  pub send_path : wire.path_of send_url ≡ bytes "/send"
  pub health_path : wire.path_of health_url ≡ bytes "/health"

module _ {W : Type 0} (client : HttpClient W) (host : Host W) (wire : Wire)
    (k : Reaches client host wire) where
  abbrev told : Text → Text → Reply → List Line → List Line
  told status response r rest =
      shown status (wire.status_text r.code) ∷ shown response (wire.encode r.body) ∷ rest

  health_told :
      (w : W)
      → ask_health (mock_client client host wire) w ≡ (
        told (bytes "Health Status") (bytes "Health Response") (health_handler host w).0 [],
        (health_handler host w).1,
      )
  unfolding ask_health
  health_told w =
      let (req, built, method, url, _) = k.requests (bytes "GET") health_url [] in
      let path = ap wire.path_of url ∙ k.health_path in
      let served = serve_health host w req.method (wire.path_of req.url) req.body method path in
      rw (built, ask_health, served) refl

  -- Against the mock, the tool prints four lines and no error: status 200 with the text `Accepted`
  -- and the identifier that the mock has generated, and status 200 with the health of the mock at
  -- the time after that.
  pub main-mock :
      (w : W)
      → let (id, w') = generate_message_id host w in
        let (now, w'') = host.timestamp w' in
        main (mock_client client host wire) w ≡ (
          shown (bytes "Status") (wire.status_text 200)
              ∷ shown
                  (bytes "Response")
                  (wire.encode (accepted (record { message = bytes "Accepted"; message_id = id })))
              ∷ shown (bytes "Health Status") (wire.status_text 200)
              ∷ shown (bytes "Health Response") (
                  wire.encode (
                    healthy (record {
                      status = bytes "healthy";
                      service = bytes "mock-sms-api";
                      timestamp = now;
                    })))
              ∷ [],
          w'',
        )
  unfolding main health_handler
  main-mock w =
      let (req, built, method, url, same) = k.requests (bytes "POST") send_url k.json in
      let path = ap wire.path_of url ∙ k.send_path in
      let served = serve_send host w req.method (wire.path_of req.url) req.body method path in
      let bound : host.bind_json req.body ≡ _ = ap host.bind_json same ∙ k.binds in
      let handled = handler_bound host w req.body _ bound refl in
      rw (k.marshals, main, built, main, served, handled, health_told) refl
