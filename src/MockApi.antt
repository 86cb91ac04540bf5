-- ===== src/MockApi.antt =====
-- cmd/mock-api/main.go: the stand-in for the SMS provider. gin's binding of a body, the random bytes
-- and the clock are parameters; the delay before the answer is left out.
pub mod MessageId
pub mod Middleware
pub mod Protocol
use go_message_dispatcher.Base.{
  ℕ, ◌%◌, Bool, List, [], ◌∷◌, ◌++◌, map, ◌&&◌, if◌then◌else◌, Text, bytes, text_eq, itoa, length,
  get_or, Result, ok, err,
}

pub record SmsRequest : Type 0 where
  pub phone_number : Text
  pub content : Text

pub record SmsResponse : Type 0 where
  pub message : Text
  pub message_id : Text

pub record ErrorResponse : Type 0 where
  pub error : Text
  pub message : Text

pub record HealthResponse : Type 0 where
  pub status : Text
  pub service : Text
  pub timestamp : Text

pub data Body : Type 0 where
  accepted : SmsResponse → Body
  refused : ErrorResponse → Body
  healthy : HealthResponse → Body
  other : Text → Body

pub record Reply : Type 0 where
  pub code : ℕ
  pub body : Body

pub record Host (W : Type 0) : Type 0 where
  -- `c.ShouldBindJSON`, with the tags `binding:"required"`
  pub bind_json : Text → Result SmsRequest
  -- `rand.Read` of that many bytes
  pub read_random : ℕ → W → Result Text × W
  -- `time.Now().UnixNano()`
  pub unix_nano : W → ℕ × W
  -- `time.Now().Format(time.RFC3339)`
  pub timestamp : W → Text × W
  -- gin's answer where no route fits
  pub no_route : Text → Text → W → Reply × W

abbrev pub charset : Text
charset = bytes "abcdefghijklmnopqrstuvwxyz0123456789"

abbrev pub id_length : ℕ
id_length = 9

abbrev pub fallback_mod : ℕ
fallback_mod = 1_000_000_000

-- `charset[randomBytes[i]%byte(len(charset))]`
abbrev pub id_char : ℕ → ℕ
id_char r = get_or 0 charset (r % length charset)

abbrev pub id_of_bytes : Text → Text
id_of_bytes random_bytes = bytes "msg_" ++ map id_char random_bytes

abbrev pub id_of_time : ℕ → Text
id_of_time nanoseconds = bytes "msg_" ++ itoa (nanoseconds % fallback_mod)

abbrev pub accepted_reply : Text → Reply
accepted_reply id = record {
  code = 200;
  body = accepted (record { message = bytes "Accepted"; message_id = id });
}

abbrev pub refused_reply : Reply
refused_reply = record {
  code = 400;
  body = refused (record {
    error = bytes "Missing required fields";
    message = bytes "phone_number and content are required";
  });
}

module _ {W : Type 0} (h : Host W) where
  unfoldable pub generate_message_id : W → Text × W
  generate_message_id w =
      let r = h.read_random id_length w in
      elim r.0 [
        | ok random_bytes ↦ (id_of_bytes random_bytes, r.1)
        | err _ ↦ let t = h.unix_nano r.1 in (id_of_time t.0, t.1)
      ]

  unfoldable pub send_sms_handler : Text → W → Reply × W
  send_sms_handler body w = elim (h.bind_json body) [
    | err _ ↦ (refused_reply, w)
    | ok _ ↦ let id = generate_message_id w in (accepted_reply id.0, id.1)
  ]

  unfoldable pub health_handler : W → Reply × W
  health_handler w =
      let t = h.timestamp w in
      (
        record {
          code = 200;
          body = healthy (record {
            status = bytes "healthy";
            service = bytes "mock-sms-api";
            timestamp = t.0;
          });
        },
        t.1,
      )

  -- The routes of `main`.
  unfoldable pub serve : Text → Text → Text → W → Reply × W
  serve method path body w =
      if text_eq method (bytes "POST") && text_eq path (bytes "/send")
      then send_sms_handler body w
      else if text_eq method (bytes "GET") && text_eq path (bytes "/health")
      then health_handler w
      else h.no_route method path w
