-- ===== src/TestMockApi.antt =====
-- cmd/test-mock-api/main.go: two requests to the mock, and what is printed. net/http, encoding/json
-- and `io.ReadAll` are parameters; the time limit of the requests is left out.
pub mod Conversation
use go_message_dispatcher.Base.{List, [], ◌∷◌, Text, bytes, Error, Result, ok, err}

pub record SmsRequest : Type 0 where
  pub phone_number : Text
  pub content : Text

pub record HttpRequest : Type 0 where
  pub method : Text
  pub url : Text
  pub headers : List (Text × Text)
  pub body : Text

pub record HttpResponse : Type 0 where
  pub status : Text
  -- what `io.ReadAll` makes of the body
  pub body : Result Text

pub record HttpClient (W : Type 0) : Type 0 where
  pub marshal : SmsRequest → Result Text
  pub new_request : Text → Text → Text → Result HttpRequest
  pub perform : HttpRequest → W → Result HttpResponse × W

-- A printed line: a label with a text, or with an error.
pub data Line : Type 0 where
  shown : Text → Text → Line
  reported : Text → Error → Line

-- What is printed, and the world behind it.
abbrev pub Printing : Type 0 → Type 0
Printing W = W → List Line × W

module _ {W : Type 0} where
  -- `fmt.Printf`, before the rest.
  abbrev pub print : Line → Printing W → Printing W
  print line rest w = let r = rest w in (line ∷ r.0, r.1)

  -- `if err != nil { fmt.Printf(…, err); return }`, before the rest.
  abbrev pub or_report : {A : Type 0} → Text → Result A → (A → Printing W) → Printing W
  or_report label (ok a) rest w = rest a w
  or_report label (err e) rest w = (reported label e ∷ [], w)

abbrev pub sms_req : SmsRequest
sms_req = record { phone_number = bytes "+1234567890"; content = bytes "Test message" }

abbrev pub send_url : Text
send_url = bytes "http://localhost:3001/send"

abbrev pub health_url : Text
health_url = bytes "http://localhost:3001/health"

-- `httpReq.Header.Set`, on a request that starts with no header.
abbrev pub with_content_type : HttpRequest → HttpRequest
with_content_type r = record r { headers = (bytes "Content-Type", bytes "application/json") ∷ [] }

module _ {W : Type 0} (c : HttpClient W) where
  -- `client.Do`, then `io.ReadAll`, with the labels of their errors.
  abbrev pub answered : Text → Text → HttpRequest → (HttpResponse → Text → Printing W) → Printing W
  answered failed unread req rest w =
      let r = c.perform req w in
      or_report failed r.0 (λ resp. or_report unread resp.body (rest resp)) r.1

  -- The second request.
  unfoldable pub ask_health : Printing W
  ask_health =
      or_report (bytes "Error creating health request") (c.new_request (bytes "GET") health_url [])
        (λ req.
          answered (bytes "Error getting health") (bytes "Error reading health response") req
            (λ resp body.
              print (shown (bytes "Health Status") resp.status)
                (print (shown (bytes "Health Response") body) (λ w. ([], w)))))

  unfoldable pub main : Printing W
  main = or_report (bytes "Error marshaling JSON") (c.marshal sms_req) (λ json_data.
      or_report (bytes "Error creating request") (c.new_request (bytes "POST") send_url json_data)
        (λ req.
          answered (bytes "Error making request") (bytes "Error reading response")
            (with_content_type req)
            (λ resp body.
              print (shown (bytes "Status") resp.status)
                (print (shown (bytes "Response") body) ask_health))))
