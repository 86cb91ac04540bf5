-- ===== src/Server/Routes.antt =====
-- cmd/server/main.go: the routes of `setupHTTPServer`, and the handler that `NewApplication` makes. The
-- generated pages under `/swagger/` and gin's answer where no route fits are a parameter.
pub mod Control
use go_message_dispatcher.Base.{
  Bool, Option, none, some, ◌&&◌, if◌then◌else◌, Text, bytes, text_eq, Action,
}
use go_message_dispatcher.Domain.{MessageService, HealthChecker, ProcessingController}
use go_message_dispatcher.Handler.{
  VersionInfo, Reply, MessageHandler, new_message_handler, start_processing, stop_processing,
  get_sent_messages, health_check, version_of,
}
use go_message_dispatcher.Scheduler.Lifecycle.{controller}
use go_message_dispatcher.Server.Application.{Process, on_outside, on_life}

pub record Request : Type 0 where
  pub method : Text
  pub path : Text

abbrev pub fits : Request → Text → Text → Bool
fits r method path = text_eq r.method method && text_eq r.path path

module _ {W : Type 0} (h : MessageHandler W) where
  -- The handler that is registered for a request, if there is one.
  unfoldable pub own_route : Request → Option (W → Reply × W)
  own_route r =
      if fits r (bytes "GET") (bytes "/health")
      then some (health_check h)
      else if fits r (bytes "GET") (bytes "/version")
      then some (λ w. (version_of h, w))
      else if fits r (bytes "POST") (bytes "/api/messaging/start")
      then some (start_processing h)
      else if fits r (bytes "POST") (bytes "/api/messaging/stop")
      then some (stop_processing h)
      else if fits r (bytes "GET") (bytes "/api/messages/sent")
      then some (get_sent_messages h)
      else none

  unfoldable pub route : (Request → W → Reply × W) → Request → W → Reply × W
  route elsewhere r w = elim (own_route r) [ none ↦ elsewhere r w | some f ↦ f w ]

module _ {W : Type 0} where
  abbrev pub outside_service : MessageService W → MessageService (Process W)
  outside_service s = record {
    process_messages = on_outside s.process_messages;
    get_sent_messages_with_cache = on_outside s.get_sent_messages_with_cache;
  }

  abbrev pub outside_health : HealthChecker W → HealthChecker (Process W)
  outside_health c = record { check_health = on_outside c.check_health }

  abbrev pub process_controller : ProcessingController (Process W)
  process_controller = record {
    start = on_life controller.start;
    stop = on_life controller.stop;
    is_running = λ p. controller.is_running p.life;
  }

  abbrev pub message_handler :
      MessageService W
      → VersionInfo
      → HealthChecker W
      → HealthChecker W
      → MessageHandler (Process W)
  message_handler service version db redis =
      new_message_handler (outside_service service) process_controller version (outside_health db)
        (outside_health redis)
