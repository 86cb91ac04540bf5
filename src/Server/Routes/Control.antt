-- ===== src/Server/Routes/Control.antt =====
-- Which requests act on the workers.
use go_message_dispatcher.Base.{
  ◌≡◌, refl, ◌⊎◌, inl, inr, true, false, arith, Bool-cases, bytes, text_eq_iff,
}
use go_message_dispatcher.Domain.{MessageService, HealthChecker}
use go_message_dispatcher.Handler.{
  VersionInfo, Reply, MessageHandler, start_processing, stop_processing, get_sent_messages,
  health_check,
}
use go_message_dispatcher.Scheduler.Lifecycle.{start, stop}
use go_message_dispatcher.Server.Application.{Process}
use go_message_dispatcher.Server.Routes.{Request, route, own_route, message_handler}

module _ {W : Type 0} (service : MessageService W) (version : VersionInfo)
    (db redis : HealthChecker W) where
  abbrev pub handler : MessageHandler (Process W)
  handler = message_handler service version db redis

  start-life :
      (p : Process W)
      → ((start_processing handler p).1.life ≡ p.life)
        ⊎ ((p.life.running ≡ false) × ((start_processing handler p).1.life ≡ start p.life))
  unfolding start_processing
  start-life p = elim (Bool-cases p.life.running) [
    | inl on ↦ inl (rw on refl)
    | inr off ↦ inr (off, rw off refl)
  ]

  stop-life :
      (p : Process W)
      → ((stop_processing handler p).1.life ≡ p.life)
        ⊎ ((p.life.running ≡ true) × ((stop_processing handler p).1.life ≡ stop p.life))
  unfolding stop_processing
  stop-life p = elim (Bool-cases p.life.running) [
    | inl on ↦ inr (on, rw on refl)
    | inr off ↦ inl (rw off refl)
  ]

  health-life : (p : Process W) → (health_check handler p).1.life ≡ p.life
  unfolding health_check
  health-life p = refl

  sent-life : (p : Process W) → (get_sent_messages handler p).1.life ≡ p.life
  unfolding get_sent_messages
  sent-life p = refl

  -- A request leaves the workers and the flag of the scheduler alone, or it is the POST that starts a
  -- scheduler that does not run, or the POST that stops one that runs, and then it is one `Start` or
  -- one `Stop`.
  pub route_control :
      (elsewhere : Request → Process W → Reply × Process W)
      → ((r : Request) (p : Process W) → (elsewhere r p).1.life ≡ p.life)
      → (r : Request) (p : Process W)
      → let q = (route handler elsewhere r p).1 in
        (q.life ≡ p.life)
        ⊎ ((r.method ≡ bytes "POST")
            × (r.path ≡ bytes "/api/messaging/start")
            × (p.life.running ≡ false)
            × (q.life ≡ start p.life))
        ⊎ ((r.method ≡ bytes "POST")
            × (r.path ≡ bytes "/api/messaging/stop")
            × (p.life.running ≡ true)
            × (q.life ≡ stop p.life))
  unfolding route own_route
  route_control elsewhere quiet r p = ground (
    arith,
    quiet r p,
    start-life p,
    stop-life p,
    health-life p,
    sent-life p,
    text_eq_iff r.method (bytes "POST"),
    text_eq_iff r.path (bytes "/api/messaging/start"),
    text_eq_iff r.path (bytes "/api/messaging/stop"),
  )
