-- ===== src/Tests/ProbeRuns.antt =====
-- The theorem on the tool that asks the mock, at a concrete client.
use go_message_dispatcher.Base.{ℕ, ◌≡◌, refl, [], ◌∷◌, bytes, drop, ok, err, external}
use go_message_dispatcher.MockApi.{accepted, healthy, generate_message_id}
use go_message_dispatcher.TestMockApi.{HttpClient, shown, sms_req, main}
use go_message_dispatcher.TestMockApi.Conversation.{Wire, mock_client, Reaches, main-mock}
use go_message_dispatcher.Tests.MockRuns.{pack, host, encode}

abbrev wire : Wire
wire = record { encode = encode; status_text = λ code. code ∷ []; path_of = λ url. drop 21 url }

abbrev client : HttpClient ℕ
client = record {
  marshal = λ r. ok (pack r.phone_number r.content);
  new_request =
      λ method url body. ok (record { method = method; url = url; headers = []; body = body });
  perform = λ req w. (err (external 2), w);
}

unfoldable client-Reaches : Reaches client host wire
client-Reaches = record {
  json = pack sms_req.phone_number sms_req.content;
  marshals = refl;
  binds = refl;
  requests = λ method url body. (_, refl, refl, refl, refl);
  send_path = refl;
  health_path = refl;
}

main-mock_example :
    let (id, w') = generate_message_id host 0 in
    let (now, w'') = host.timestamp w' in
    main (mock_client client host wire) 0 ≡ (
      shown (bytes "Status") (200 ∷ [])
          ∷ shown
              (bytes "Response")
              (encode (accepted (record { message = bytes "Accepted"; message_id = id })))
          ∷ shown (bytes "Health Status") (200 ∷ [])
          ∷ shown (bytes "Health Response") (
              encode (
                healthy (record {
                  status = bytes "healthy";
                  service = bytes "mock-sms-api";
                  timestamp = now;
                })))
          ∷ [],
      w'',
    )
main-mock_example = main-mock client host wire client-Reaches 0
