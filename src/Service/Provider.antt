-- ===== src/Service/Provider.antt =====
-- internal/service/message_service.go: `HTTPSMSProvider`. The client of net/http and encoding/json
-- are parameters; the request is built from the source.
use go_message_dispatcher.Base.{
  ℕ, ◌≡◌, refl, ◌↔◌, Bool, true, List, [], ◌∷◌, ◌++◌, arith, ◌==◌, if◌then◌else◌, Text, bytes,
  message, Result, ok, err, Action, fail, ◌>>=◌, lift, wrapping, wrap_err, continue,
}
use go_message_dispatcher.Domain.{SmsDeliveryResponse, SmsProvider}

pub record SmsRequest : Type 0 where
  pub phone_number : Text
  pub content : Text

pub record HttpRequest : Type 0 where
  pub method : Text
  pub url : Text
  pub headers : List (Text × Text)
  pub body : Text

pub record HttpResponse : Type 0 where
  pub status_code : ℕ
  pub body : Text

-- `http.NewRequestWithContext` checks the method and the URL.
pub record HttpClient (W : Type 0) : Type 0 where
  pub marshal : SmsRequest → Result Text
  pub new_request : Text → Text → Text → Result HttpRequest
  pub perform : HttpRequest → Action W HttpResponse
  pub decode : Text → Result SmsDeliveryResponse

pub record HttpSmsProvider (W : Type 0) : Type 0 where
  pub client : HttpClient W
  pub base_url : Text
  pub token : Text

-- The client that `NewHTTPSMSProvider` asks for: a time limit in nanoseconds, and whether the
-- certificate of the server goes unchecked.
pub record ClientOptions : Type 0 where
  pub timeout : ℕ
  pub insecure_skip_verify : Bool

abbrev pub new_http_sms_provider :
    {W : Type 0} → (ClientOptions → HttpClient W) → Text → Text → HttpSmsProvider W
new_http_sms_provider client base_url token = record {
  client = client (record { timeout = 6_000_000_000; insecure_skip_verify = true });
  base_url = base_url;
  token = token;
}

abbrev status_ok : ℕ
status_ok = 200

-- The two headers that every request carries.
abbrev pub with_headers : Text → HttpRequest → HttpRequest
with_headers token r = record r {
  headers =
      (bytes "Content-Type", bytes "application/json")
      ∷ (bytes "Authorization", bytes "Bearer " ++ token)
      ∷ [];
}

module _ {W : Type 0} (p : HttpSmsProvider W) where
  -- The part after the answer: only status 200 counts.
  abbrev read_response : HttpResponse → Action W SmsDeliveryResponse
  read_response resp =
      if resp.status_code == status_ok
      then wrapping "failed to decode SMS response" [] (lift (p.client.decode resp.body))
      else fail (message "SMS provider returned status %d" (resp.status_code ∷ []))

  unfoldable pub send_message : Text → Text → Action W SmsDeliveryResponse
  send_message phone_number content = do
    request_body ←
        wrapping "failed to marshal SMS request" []
          (lift (p.client.marshal (record { phone_number = phone_number; content = content })))
    http_req ←
        wrapping "failed to create HTTP request" []
          (lift (p.client.new_request (bytes "POST") p.base_url request_body))
    resp ←
        wrapping "failed to send SMS request" [] (p.client.perform (with_headers p.token http_req))
    read_response resp

  abbrev pub sms_provider : SmsProvider W
  sms_provider = record { send_message = send_message }

  read_response_iff :
      (resp : HttpResponse) (w : W) (r : SmsDeliveryResponse)
      → ((read_response resp w).0 ≡ ok r)
        ↔ ((resp.status_code ≡ 200) × (p.client.decode resp.body ≡ ok r))
  read_response_iff resp w r = ground arith

  read_response-world : (resp : HttpResponse) (w : W) → (read_response resp w).1 ≡ w
  read_response-world resp w = ground arith

  after_answer_world :
      (answer : Result HttpResponse) (w : W)
      → (continue read_response (wrap_err "failed to send SMS request" [] answer) w).1 ≡ w
  after_answer_world (ok resp) w = read_response-world resp w
  after_answer_world (err e) w = refl

  after_answer_iff :
      (answer : Result HttpResponse) (w : W) (r : SmsDeliveryResponse)
      → ((continue read_response (wrap_err "failed to send SMS request" [] answer) w).0 ≡ ok r) ↔ (
          (resp : HttpResponse) × (answer ≡ ok resp)
          × (resp.status_code ≡ 200)
          × (p.client.decode resp.body ≡ ok r))
  after_answer_iff (ok resp) w r = (
    (λ h.
        let (status, decoded) = (read_response_iff resp w r).0 h in (resp, refl, status, decoded)),
    (λ h. ground (arith, h.1, h.2, h.3)),
  )
  after_answer_iff (err e) w r = ((λ h. cc), (λ h. cc (h.1)))

  -- If the request can be built, then `send_message` performs exactly that one request, with the
  -- headers `Content-Type: application/json` and `Authorization: Bearer` with the token, and succeeds exactly if the answer has status 200 and a body that decodes, with the
  -- decoded body as its result.
  pub send_message_iff :
      (phone_number content body : Text) (req : HttpRequest) (w : W) (r : SmsDeliveryResponse)
      → p.client.marshal (record { phone_number = phone_number; content = content }) ≡ ok body
      → p.client.new_request (bytes "POST") p.base_url body ≡ ok req
      → let answer =
          p.client.perform
            (record req {
              headers =
                  (bytes "Content-Type", bytes "application/json")
                  ∷ (bytes "Authorization", bytes "Bearer " ++ p.token)
                  ∷ [];
            })
            w in
        ((send_message phone_number content w).1 ≡ answer.1)
        × (((send_message phone_number content w).0 ≡ ok r) ↔ (
            (resp : HttpResponse) × (answer.0 ≡ ok resp)
            × (resp.status_code ≡ 200)
            × (p.client.decode resp.body ≡ ok r)))
  unfolding send_message
  send_message_iff phone_number content body req w r marshalled built =
      let answer = p.client.perform (with_headers p.token req) w in
      rw (marshalled, send_message, built)
        (after_answer_world answer.0 answer.1, after_answer_iff answer.0 answer.1 r)
