-- ===== src/Handler.antt =====
-- internal/handler/message_handler.go: what each route answers. A reply is what `c.JSON` gets: the
-- status and the body. A request carries nothing that the routes look at.
pub mod Answers
use go_message_dispatcher.Base.{
  ℕ, Bool, true, false, not, List, ◌&&◌, if◌then◌else◌, Text, bytes, length, Error, Result, ok, err,
  is_ok, Action,
}
use go_message_dispatcher.Domain.{
  SentMessageResponse, MessageService, ProcessingController, HealthChecker,
}

pub record VersionInfo : Type 0 where
  pub version : Text
  pub build_time : Text
  pub git_commit : Text

pub record ControlResponse : Type 0 where
  pub status : Text
  pub message : Text

pub record SentMessagesResponse : Type 0 where
  pub messages : List SentMessageResponse
  pub total : ℕ

-- A text of the source, or the text of an error, `err.Error()`.
pub data Explanation : Type 0 where
  literal : Text → Explanation
  error_text : Error → Explanation

pub record ErrorResponse : Type 0 where
  pub error : Text
  pub message : Explanation

-- The map that `HealthCheck` fills.
pub record Health : Type 0 where
  pub status : Text
  pub processing_status : Text
  pub version : VersionInfo
  pub database : Text
  pub redis : Text

pub data Body : Type 0 where
  control : ControlResponse → Body
  failure : ErrorResponse → Body
  sent : SentMessagesResponse → Body
  health : Health → Body
  version_info : VersionInfo → Body

pub record Reply : Type 0 where
  pub code : ℕ
  pub body : Body

pub record MessageHandler (W : Type 0) : Type 0 where
  pub message_service : MessageService W
  pub processing_controller : ProcessingController W
  pub version : VersionInfo
  pub db_health_checker : HealthChecker W
  pub redis_health_checker : HealthChecker W

abbrev pub new_message_handler :
    {W : Type 0}
    → MessageService W
    → ProcessingController W
    → VersionInfo
    → HealthChecker W
    → HealthChecker W
    → MessageHandler W
new_message_handler service controller version db_checker redis_checker = record {
  message_service = service;
  processing_controller = controller;
  version = version;
  db_health_checker = db_checker;
  redis_health_checker = redis_checker;
}

abbrev pub controlled : Text → Text → Reply
controlled status message = record {
  code = 200;
  body = control (record { status = status; message = message });
}

abbrev pub failed : Text → Explanation → Reply
failed error message = record {
  code = 500;
  body = failure (record { error = error; message = message });
}

abbrev pub started_reply : Result (Unit {0}) → Reply
started_reply (ok _) = controlled (bytes "started") (bytes "Processing started")
started_reply (err e) = failed (bytes "start_failed") (error_text e)

abbrev pub stopped_reply : Result (Unit {0}) → Reply
stopped_reply (ok _) = controlled (bytes "stopped") (bytes "Processing stopped")
stopped_reply (err e) = failed (bytes "stop_failed") (error_text e)

abbrev pub sent_reply : Result (List SentMessageResponse) → Reply
sent_reply (ok messages) = record {
  code = 200;
  body = sent (record { messages = messages; total = length messages });
}
sent_reply (err e) =
    failed (bytes "retrieval_failed") (literal (bytes "Failed to retrieve sent messages"))

abbrev pub health_word : Bool → Text
health_word healthy = if healthy then bytes "healthy" else bytes "unhealthy"

module _ {W : Type 0} (h : MessageHandler W) where
  unfoldable pub start_processing : W → Reply × W
  start_processing w =
      let r = h.processing_controller.start w in
      if h.processing_controller.is_running w
      then (controlled (bytes "running") (bytes "Message processing is already running"), w)
      else (started_reply r.0, r.1)

  unfoldable pub stop_processing : W → Reply × W
  stop_processing w =
      let r = h.processing_controller.stop w in
      if not (h.processing_controller.is_running w)
      then (controlled (bytes "stopped") (bytes "Message processing is not running"), w)
      else (stopped_reply r.0, r.1)

  unfoldable pub get_sent_messages : W → Reply × W
  get_sent_messages w =
      let r = h.message_service.get_sent_messages_with_cache w in (sent_reply r.0, r.1)

  -- The database decides on the status code; each of the two makes the status a degraded one.
  unfoldable pub health_check : W → Reply × W
  health_check w =
      let d = h.db_health_checker.check_health w in
      let c = h.redis_health_checker.check_health d.1 in
      (
        record {
          code = if is_ok d.0 then 200 else 503;
          body = health (record {
            status = if is_ok d.0 && is_ok c.0 then bytes "healthy" else bytes "degraded";
            processing_status =
                if h.processing_controller.is_running w then bytes "running" else bytes "stopped";
            version = h.version;
            database = health_word (is_ok d.0);
            redis = health_word (is_ok c.0);
          });
        },
        c.1,
      )

  abbrev pub version_of : Reply
  version_of = record { code = 200; body = version_info h.version }
