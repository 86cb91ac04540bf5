-- ===== src/Tests/Office.antt =====
-- A message service over collaborators in memory. The provider refuses an empty content; the
-- database loses updates while `stale` is set; the cache answers nothing while `cache_down` is set.
use go_message_dispatcher.Base.{
  ℕ, ◌+◌, refl, Bool, false, not, List, [], ◌∷◌, ◌++◌, arith, if◌then◌else◌, filter, take, Text,
  bytes, is_empty, external, message, ok, err, Action,
}
use go_message_dispatcher.Domain.{
  Message, SmsDeliveryResponse, CachedDelivery, DeliveryMap, find_delivery,
}
use go_message_dispatcher.Service.{Service}
use go_message_dispatcher.Service.Ledger.{Outgoing, set_sent, IsLedger}

pub record Office : Type 0 where
  pub rows : List Message
  pub sent : ℕ → Bool
  pub attempts : List Outgoing
  pub accepted : List Outgoing
  pub cache : DeliveryMap
  pub time : ℕ
  pub stale : Bool
  pub cache_down : Bool

abbrev pub send : Text → Text → Action Office SmsDeliveryResponse
send p c w =
    let tried = record w { attempts = w.attempts ++ (p, c) ∷ [] } in
    if is_empty c then (err (external 1), tried) else (
      ok (record { message = bytes "Accepted"; message_id = bytes "msg_1" }),
      record tried { accepted = w.accepted ++ (p, c) ∷ [] },
    )

abbrev pub mark : ℕ → Action Office (Unit {0})
mark n w =
    if w.stale
    then (err (external 2), w)
    else if w.sent n
    then (err (message "message %d was not found or already sent" (n ∷ [])), w)
    else (ok tt, record w { sent = set_sent n w.sent })

abbrev pub unsent : ℕ → Action Office (List Message)
unsent n w = (ok (take n (filter (λ m. not (w.sent m.id)) w.rows)), w)

abbrev pub remember : ℕ → CachedDelivery → Action Office (Unit {0})
remember n d w =
    if w.cache_down then (err (external 3), w) else (ok tt, record w { cache = (n, d) ∷ w.cache })

abbrev pub recall : Action Office DeliveryMap
recall w = if w.cache_down then (err (external 3), w) else (ok w.cache, w)

abbrev pub office : Service Office
office = record {
  message_repo = record {
    get_unsent_messages = unsent;
    mark_as_sent = mark;
    get_sent_messages = λ w. (ok (filter (λ m. w.sent m.id) w.rows), w);
    create_message = λ p c w. (err (external 4), w);
  };
  cache_repo = record {
    set_delivery_cache = remember;
    get_delivery_cache = λ n w. (ok (find_delivery n w.cache), w);
    get_multiple_delivery_cache = λ ns. recall;
  };
  sms_provider = record { send_message = send };
  now = λ w. (w.time, record w { time = w.time + 1 });
}

unfoldable pub office-IsLedger : IsLedger office
office-IsLedger = record {
  attempts = λ w. w.attempts;
  accepted = λ w. w.accepted;
  sent = λ w. w.sent;
  attempts-send = λ p c w. ground arith;
  accepted-send_ok = λ p c w r h. ground arith;
  accepted-send_err = λ p c w e h. ground arith;
  sent-send = λ p c w. ground arith;
  attempts-mark = λ n w. ground arith;
  accepted-mark = λ n w. ground arith;
  sent-mark_ok = λ n w h. ground arith;
  sent-mark_err = λ n w e h. ground arith;
  attempts-now = λ w. refl;
  accepted-now = λ w. refl;
  sent-now = λ w. refl;
  attempts-cache = λ n d w. ground arith;
  accepted-cache = λ n d w. ground arith;
  sent-cache = λ n d w. ground arith;
  attempts-select = λ n w. refl;
  accepted-select = λ n w. refl;
  sent-select = λ n w. refl;
}

abbrev pub note : ℕ → Text → Message
note n c = record {
  id = n;
  phone_number = bytes "+1234567890";
  content = c;
  sent = false;
  created_at = n;
}

-- Three messages: the provider refuses the second.
abbrev pub three : List Message
three = note 1 (bytes "Hi") ∷ note 2 [] ∷ note 3 (bytes "Yo") ∷ []

abbrev pub monday : Office
monday = record {
  rows = three;
  sent = λ _. false;
  attempts = [];
  accepted = [];
  cache = [];
  time = 10;
  stale = false;
  cache_down = false;
}
