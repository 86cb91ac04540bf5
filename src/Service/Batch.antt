-- ===== src/Service/Batch.antt =====
-- The batch loop: what is attempted, what is counted, what is marked.
use mathlib.Core.Bool.{false≢true}
use mathlib.Core.List.{append-nil}
use go_message_dispatcher.Base.{
  ℕ, ◌≡◌, refl, ◌∙◌, ◌⊎◌, inl, inr, Bool, true, List, [], ◌∷◌, ◌++◌, arith, Elem, Elem-append_left,
  Elem-append_right, Error, Result, ok, err, wrap, Result-cases, is_ok, ==_refl,
}
use go_message_dispatcher.Domain.{Message, SmsDeliveryResponse}
use go_message_dispatcher.Service.{Service, send, process_single_message}
use go_message_dispatcher.Service.Ledger.{Outgoing, set_sent, IsLedger}

abbrev pub outgoing : Message → Outgoing
outgoing m = (m.phone_number, m.content)

module _ {W : Type 0} (s : Service W) where
  abbrev pub after_send : Message → W → W
  after_send m w = (send s m w).1

  abbrev pub marking : Message → W → Result (Unit {0}) × W
  marking m w = s.message_repo.mark_as_sent m.id (after_send m w)

  -- The three ways in which the processing of one message can go.
  pub data Single (m : Message) (w : W) : Type 0 where
    rejected :
        (e : Error)
        → (send s m w).0 ≡ err e
        → process_single_message s m w
          ≡ (err (wrap "failed to send SMS for message %d" (m.id ∷ []) e), after_send m w)
        → Single m w
    unmarked :
        (r : SmsDeliveryResponse) (e : Error)
        → (send s m w).0 ≡ ok r
        → (marking m w).0 ≡ err e
        → process_single_message s m w
          ≡ (err (wrap "failed to mark message %d as sent" (m.id ∷ []) e), (marking m w).1)
        → Single m w
    delivered :
        (r : SmsDeliveryResponse)
        → (send s m w).0 ≡ ok r
        → (marking m w).0 ≡ ok tt
        → process_single_message s m w ≡ (
            let (t, w') = s.now (marking m w).1 in
            (
              ok tt,
              (s.cache_repo.set_delivery_cache m.id
                  (record { message_id = r.message_id; timestamp = t })
                  w').1,
            ))
        → Single m w

  Single-sent :
      (m : Message) (w : W) (r : SmsDeliveryResponse)
      → (send s m w).0 ≡ ok r
      → (o : Result (Unit {0})) → (marking m w).0 ≡ o
      → Single m w
  unfolding process_single_message
  Single-sent m w r sent (ok _) marked =
      delivered r sent marked (rw (sent, process_single_message, marked))
  Single-sent m w r sent (err e) marked =
      unmarked r e sent marked (rw (sent, process_single_message, marked))

  Single-from :
      (m : Message) (w : W) (o : Result SmsDeliveryResponse) → (send s m w).0 ≡ o → Single m w
  unfolding process_single_message
  Single-from m w (ok r) sent = Single-sent m w r sent (marking m w).0 refl
  Single-from m w (err e) refused = rejected e refused (rw (refused, process_single_message))

  pub single : (m : Message) (w : W) → Single m w
  single m w = Single-from m w (send s m w).0 refl

module _ {W : Type 0} (s : Service W) (l : IsLedger s) where
  open l use {attempts, accepted, sent}

  pub attempts-single :
      (m : Message) (w : W)
      → attempts (process_single_message s m w).1 ≡ attempts w ++ outgoing m ∷ []
  attempts-single m w = elim (single s m w) [
    | rejected e refused result ↦ rw result (l.attempts-send _ _ _)
    | unmarked r e sent_ok failed result ↦ rw (result, l.attempts-mark) (l.attempts-send _ _ _)
    | delivered r sent_ok marked result ↦
        rw (result, l.attempts-cache, l.attempts-now, l.attempts-mark) (l.attempts-send _ _ _)
  ]

  -- What one message adds to the texts that the provider has accepted, and to the sent rows.
  pub record Growth (ms : List Message) (w w' : W) : Type 0 where
    pub new : List Outgoing
    pub grown : accepted w' ≡ accepted w ++ new
    pub kept : (k : ℕ) → sent w k ≡ true → sent w' k ≡ true
    pub caused :
        (k : ℕ)
        → sent w' k ≡ true
        → (sent w k ≡ true) ⊎ ((m : Message) × Elem m ms × (m.id ≡ k) × Elem (outgoing m) new)

  set_sent_kept : (n k : ℕ) (f : ℕ → Bool) → f k ≡ true → set_sent n f k ≡ true
  set_sent_kept n k f h = ground arith

  set_sent_caused : (n k : ℕ) (f : ℕ → Bool) → set_sent n f k ≡ true → (f k ≡ true) ⊎ (n ≡ k)
  set_sent_caused n k f h = ground arith

  -- A world in which the accepted texts and the sent rows have not changed.
  pub Growth-none :
      (ms : List Message) (w w' : W) → accepted w' ≡ accepted w → sent w' ≡ sent w → Growth ms w w'
  Growth-none ms w w' a b = record {
    new = [];
    grown = rw append-nil a;
    kept = λ k h. rw b h;
    caused = λ k h. inl (rw b at h);
  }

  -- The text of `m` has been accepted, and no row has changed.
  Growth-accepted :
      (m : Message) (w w' : W)
      → accepted w' ≡ accepted w ++ outgoing m ∷ []
      → sent w' ≡ sent w
      → Growth (m ∷ []) w w'
  Growth-accepted m w w' a b = record {
    new = outgoing m ∷ [];
    grown = a;
    kept = λ k h. rw b h;
    caused = λ k h. inl (rw b at h);
  }

  -- The text of `m` has been accepted, and its row has been marked.
  Growth-marked :
      (m : Message) (w w' : W)
      → accepted w' ≡ accepted w ++ outgoing m ∷ []
      → sent w' ≡ set_sent m.id (sent w)
      → Growth (m ∷ []) w w'
  Growth-marked m w w' a b = record {
    new = outgoing m ∷ [];
    grown = a;
    kept = λ k h. rw b (set_sent_kept m.id k (sent w) h);
    caused = λ k h. elim (set_sent_caused m.id k (sent w) (rw b at h)) [
      | inl before ↦ inl before
      | inr now ↦ inr (m, inl refl, now, inl refl)
    ];
  }

  -- The provider keeps what it has accepted, and accepts a text if it says so.
  pub kept-after_send :
      (m : Message) (w : W) (o : Outgoing)
      → Elem o (accepted w)
      → Elem o (accepted (after_send s m w))
  kept-after_send m w o had = elim (Result-cases (send s m w).0) [
    | inl (r, e) ↦ rw (l.accepted-send_ok _ _ w r e) (Elem-append_left o _ _ had)
    | inr (x, e) ↦ elim (l.accepted-send_err _ _ w x e) [
      | inl lost ↦ rw lost had
      | inr arrived ↦ rw arrived (Elem-append_left o _ _ had)
    ]
  ]

  pub accepted-after_send :
      (m : Message) (w : W)
      → is_ok (send s m w).0 ≡ true
      → Elem (outgoing m) (accepted (after_send s m w))
  accepted-after_send m w sent = elim (Result-cases (send s m w).0) [
    | inl (r, e) ↦ rw (l.accepted-send_ok _ _ w r e) (Elem-append_right _ (accepted w) _ (inl refl))
    | inr (x, e) ↦ absurd (false≢true (rw e at sent))
  ]

  accepted-marking :
      (m : Message) (w : W) → accepted (marking s m w).1 ≡ accepted (after_send s m w)
  accepted-marking m w = l.accepted-mark _ _

  -- Marking the row of `m` leaves the rows that are sent, whatever it answers.
  pub kept-marking :
      (m : Message) (w : W) (k : ℕ) → sent w k ≡ true → sent (marking s m w).1 k ≡ true
  kept-marking m w k on = elim (Result-cases (marking s m w).0) [
    | inl (_, done) ↦ rw (l.sent-mark_ok _ _ done, l.sent-send) (set_sent_kept m.id k (sent w) on)
    | inr (e, failed) ↦ elim (l.sent-mark_err _ _ e failed) [
      | inl lost ↦ rw (lost, l.sent-send) on
      | inr committed ↦ rw (committed, l.sent-send) (set_sent_kept m.id k (sent w) on)
    ]
  ]

  pub sent-marking :
      (m : Message) (w : W) → is_ok (marking s m w).0 ≡ true → sent (marking s m w).1 m.id ≡ true
  sent-marking m w done = elim (Result-cases (marking s m w).0) [
    | inl (_, e) ↦ rw (l.sent-mark_ok _ _ e, ==_refl) refl
    | inr (x, e) ↦ absurd (false≢true (rw e at done))
  ]

  pub single-Growth : (m : Message) (w : W) → Growth (m ∷ []) w (process_single_message s m w).1
  single-Growth m w = elim (single s m w) [
    | rejected e refused result ↦ rw result (elim (l.accepted-send_err _ _ w e refused) [
      | inl lost ↦ Growth-none _ w _ lost (l.sent-send _ _ _)
      | inr arrived ↦ Growth-accepted m w _ arrived (l.sent-send _ _ _)
    ])
    | unmarked r e sent_ok failed result ↦ rw result (elim (l.sent-mark_err _ _ e failed) [
      | inl lost ↦
          Growth-accepted m w _ (rw l.accepted-mark (l.accepted-send_ok _ _ w r sent_ok))
            (lost ∙ l.sent-send _ _ _)
      | inr committed ↦
          Growth-marked m w _ (rw l.accepted-mark (l.accepted-send_ok _ _ w r sent_ok))
            (rw l.sent-send at committed)
    ])
    | delivered r sent_ok marked result ↦ rw result (
        Growth-marked m w _
          (rw (l.accepted-cache, l.accepted-now, l.accepted-mark)
            (l.accepted-send_ok _ _ w r sent_ok))
          (rw (l.sent-cache, l.sent-now) (rw l.sent-send at (l.sent-mark_ok _ _ marked))))
  ]
