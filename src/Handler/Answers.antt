-- ===== src/Handler/Answers.antt =====
-- What the replies of the routes tell about the program.
use go_message_dispatcher.Base.{
  ◌≡◌, refl, sym, ap, ◌∙◌, true, false, List, map, arith, bytes, length, Result, ok, err,
  Bool-cases, inl, inr, length-map,
}
use go_message_dispatcher.Domain.{Message, SentMessageResponse, ProcessingController}
use go_message_dispatcher.Service.{Service, message_service}
use go_message_dispatcher.Service.Sent.{get_sent_messages_with_cache_lem}
use go_message_dispatcher.Handler.{
  sent, MessageHandler, controlled, started_reply, stopped_reply, sent_reply, start_processing,
  stop_processing, get_sent_messages,
}

-- What a controller promises of its flag.
pub record IsController {W : Type 0} (c : ProcessingController W) : Type 0 where
  pub start-ok : (w : W) → (c.start w).0 ≡ ok tt → c.is_running (c.start w).1 ≡ true
  pub stop-ok : (w : W) → (c.stop w).0 ≡ ok tt → c.is_running (c.stop w).1 ≡ false

started_ok : (r : Result (Unit {0})) → (started_reply r).code ≡ 200 → r ≡ ok tt
started_ok (ok _) e = refl
started_ok (err x) e = absurd (omega arith)

stopped_ok : (r : Result (Unit {0})) → (stopped_reply r).code ≡ 200 → r ≡ ok tt
stopped_ok (ok _) e = refl
stopped_ok (err x) e = absurd (omega arith)

module _ {W : Type 0} (h : MessageHandler W) (w : W) where
  start_processing_again :
      h.processing_controller.is_running w ≡ true
      → start_processing h w
        ≡ (controlled (bytes "running") (bytes "Message processing is already running"), w)
  unfolding start_processing
  start_processing_again up = rw up refl

  stop_processing_again :
      h.processing_controller.is_running w ≡ false
      → stop_processing h w
        ≡ (controlled (bytes "stopped") (bytes "Message processing is not running"), w)
  unfolding stop_processing
  stop_processing_again down = rw down refl

module _ {W : Type 0} (h : MessageHandler W) (k : IsController h.processing_controller)
    (w : W) where
  open h.processing_controller use {is_running}

  start_processing_running :
      (start_processing h w).0.code ≡ 200 → is_running (start_processing h w).1 ≡ true
  unfolding start_processing
  start_processing_running e = elim (Bool-cases (is_running w)) [
    | inl up ↦ rw up up
    | inr down ↦ rw down (k.start-ok w (started_ok _ (rw down at e)))
  ]

  -- If the route that starts the processing answers with status 200, then the processing is running,
  -- and a second call answers that it is already running and changes nothing.
  start_processing_twice :
      (start_processing h w).0.code ≡ 200
      → (is_running (start_processing h w).1 ≡ true)
        × (start_processing h (start_processing h w).1 ≡ (
          controlled (bytes "running") (bytes "Message processing is already running"),
          (start_processing h w).1,
        ))
  start_processing_twice e =
      let up = start_processing_running e in (up, start_processing_again h _ up)

  stop_processing_stopped :
      (stop_processing h w).0.code ≡ 200 → is_running (stop_processing h w).1 ≡ false
  unfolding stop_processing
  stop_processing_stopped e = elim (Bool-cases (is_running w)) [
    | inl up ↦ rw up (k.stop-ok w (stopped_ok _ (rw up at e)))
    | inr down ↦ rw down down
  ]

  -- If the route that stops the processing answers with status 200, then the processing is not
  -- running, and a second call answers so and changes nothing.
  stop_processing_twice :
      (stop_processing h w).0.code ≡ 200
      → (is_running (stop_processing h w).1 ≡ false)
        × (stop_processing h (stop_processing h w).1 ≡ (
          controlled (bytes "stopped") (bytes "Message processing is not running"),
          (stop_processing h w).1,
        ))
  stop_processing_twice e =
      let down = stop_processing_stopped e in (down, stop_processing_again h _ down)

  -- If the route that starts the processing answers with status 200, then the processing is running,
  -- and a second call answers that it is already running and changes nothing. If the route that stops
  -- it answers with status 200, then it is not running, and a second call answers so and changes
  -- nothing.
  pub processing_twice :
      ((start_processing h w).0.code ≡ 200
        → (is_running (start_processing h w).1 ≡ true)
          × (start_processing h (start_processing h w).1 ≡ (
            controlled (bytes "running") (bytes "Message processing is already running"),
            (start_processing h w).1,
          )))
      × ((stop_processing h w).0.code ≡ 200
          → (is_running (stop_processing h w).1 ≡ false)
            × (stop_processing h (stop_processing h w).1 ≡ (
              controlled (bytes "stopped") (bytes "Message processing is not running"),
              (stop_processing h w).1,
            )))
  processing_twice = (start_processing_twice, stop_processing_twice)

module _ {W : Type 0} (h : MessageHandler W) (s : Service W) (w : W) where
  -- The handler over the message service of the program.
  abbrev serving : MessageHandler W
  serving = record h { message_service = message_service s }

  -- If the sent messages can be read from the table, then the route answers with status 200, one
  -- response for each message in their order, and their number as the total, also if the cache fails.
  get_sent_messages_total :
      (ms : List Message)
      → (s.message_repo.get_sent_messages w).0 ≡ ok ms
      → (rs : List SentMessageResponse) × (map (λ r. r.message) rs ≡ ms)
        × ((get_sent_messages serving w).0
            ≡ record { code = 200; body = sent (record { messages = rs; total = length ms }) })
  unfolding get_sent_messages
  get_sent_messages_total ms e =
      let (rs, answer, same, _) = get_sent_messages_with_cache_lem s w ms e in
      (
        rs,
        same,
        ap sent_reply answer
            ∙ ap (λ n. record { code = 200; body = sent (record { messages = rs; total = n }) })
                (sym (length-map (λ r. r.message) rs) ∙ ap length same),
      )
