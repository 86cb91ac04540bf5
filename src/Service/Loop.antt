-- ===== src/Service/Loop.antt =====
-- The loop of `ProcessMessages` over its batch, from any tally.
use mathlib.Core.Bool.{false≢true}
use mathlib.Core.List.{append-nil, append_assoc}
use go_message_dispatcher.Base.{
  ℕ, suc, ◌+◌, ◌≡◌, refl, ◌∙◌, inl, inr, Bool, true, false, List, [], ◌∷◌, ◌++◌, map, arith,
  Elem-append_left, Elem-append_right, All, if◌then◌else◌, ==_refl, length, is_ok,
}
use go_message_dispatcher.Domain.{Message}
use go_message_dispatcher.Service.{
  Service, Tally, count_failure, count_success, process_single_message, process_batch,
}
use go_message_dispatcher.Service.Ledger.{IsLedger}
use go_message_dispatcher.Service.Batch.{
  outgoing, Growth, Growth-none, single-Growth, attempts-single, rejected, unmarked, delivered,
  single,
}

-- The number of messages that failed.
pub failures : List Bool → ℕ
failures [] = 0
failures (true ∷ bs) = failures bs
failures (false ∷ bs) = suc (failures bs)

failures-cons : (b : Bool) (bs : List Bool) → failures (b ∷ bs) ≡ 0 → (b ≡ true) × (failures bs ≡ 0)
unfolding failures
failures-cons true bs h = (refl, h)
failures-cons false bs h = absurd (omega arith)

abbrev pub zero_tally : Tally
zero_tally = record { failed_count = 0; success_count = 0 }

module _ {W : Type 0} (s : Service W) where
  -- How each message of a batch ends, in turn.
  pub outcomes : List Message → W → List Bool
  outcomes [] w = []
  outcomes (m ∷ ms) w =
      is_ok (process_single_message s m w).0 ∷ outcomes ms (process_single_message s m w).1

  pub tally-process_batch :
      (ms : List Message) (t : Tally) (w : W)
      → ((process_batch s ms t w).0.failed_count ≡ t.failed_count + failures (outcomes ms w))
        × ((process_batch s ms t w).0.failed_count + (process_batch s ms t w).0.success_count
            ≡ t.failed_count + t.success_count + length ms)
  unfolding process_batch outcomes failures
  tally-process_batch [] t w = (omega arith, omega arith)
  tally-process_batch (m ∷ ms) t w =
      let next = (process_single_message s m w).1 in
      ground (
        arith,
        tally-process_batch ms (count_success t) next,
        tally-process_batch ms (count_failure t) next,
      )

module _ {W : Type 0} (s : Service W) (l : IsLedger s) where
  open l use {attempts, accepted, sent}

  pub attempts-process_batch :
      (ms : List Message) (t : Tally) (w : W)
      → attempts (process_batch s ms t w).1 ≡ attempts w ++ map outgoing ms
  unfolding process_batch
  attempts-process_batch [] t w = rw append-nil
  attempts-process_batch (m ∷ ms) t w =
      attempts-process_batch ms _ (process_single_message s m w).1
      ∙ rw (attempts-single s l m w, append_assoc)

  Growth-trans :
      (m : Message) (ms : List Message) (u v w : W)
      → Growth s l (m ∷ []) u v
      → Growth s l ms v w
      → Growth s l (m ∷ ms) u w
  Growth-trans m ms u v w f g = record {
    new = f.new ++ g.new;
    grown = rw (g.grown, f.grown, append_assoc);
    kept = λ k h. g.kept k (f.kept k h);
    caused = λ k h. elim (g.caused k h) [
      | inl earlier ↦ elim (f.caused k earlier) [
        | inl before ↦ inl before
        | inr (a, inl e, b, c) ↦ inr (a, inl e, b, Elem-append_left _ f.new g.new c)
        | inr (a, inr e, b, c) ↦ absurd e
      ]
      | inr (a, e, b, c) ↦ inr (a, inr e, b, Elem-append_right _ f.new g.new c)
    ];
  }

  pub process_batch-Growth :
      (ms : List Message) (t : Tally) (w : W) → Growth s l ms w (process_batch s ms t w).1
  unfolding process_batch
  process_batch-Growth [] t w = Growth-none s l [] w w refl refl
  process_batch-Growth (m ∷ ms) t w =
      Growth-trans m ms w (process_single_message s m w).1 _ (single-Growth s l m w)
        (process_batch-Growth ms _ (process_single_message s m w).1)

  pub single_ok :
      (m : Message) (w : W)
      → is_ok (process_single_message s m w).0 ≡ true
      → (accepted (process_single_message s m w).1 ≡ accepted w ++ outgoing m ∷ [])
        × (sent (process_single_message s m w).1 m.id ≡ true)
  single_ok m w done = elim (single s m w) [
    | rejected e refused result ↦ absurd (false≢true (rw result at done))
    | unmarked r e sent_ok failed result ↦ absurd (false≢true (rw result at done))
    | delivered r sent_ok marked result ↦ rw result (
      rw (l.accepted-cache, l.accepted-now, l.accepted-mark) (l.accepted-send_ok _ _ w r sent_ok),
      rw (l.sent-cache, l.sent-now, l.sent-mark_ok _ _ marked, ==_refl) refl,
    )
  ]

  pub process_batch_ok :
      (ms : List Message) (t : Tally) (w : W)
      → failures (outcomes s ms w) ≡ 0
      → (accepted (process_batch s ms t w).1 ≡ accepted w ++ map outgoing ms)
        × All (λ m. sent (process_batch s ms t w).1 m.id ≡ true) ms
  unfolding process_batch outcomes
  process_batch_ok [] t w h = (rw append-nil, tt)
  process_batch_ok (m ∷ ms) t w h =
      let next = (process_single_message s m w).1 in
      let (done, rest_ok) = failures-cons _ _ h in
      let (added, marked) = single_ok m w done in
      let t' =
        if is_ok (process_single_message s m w).0 then count_success t else count_failure t in
      let (all_added, all_marked) = process_batch_ok ms t' next rest_ok in
      (
        all_added ∙ rw (added, append_assoc),
        ((process_batch-Growth ms t' next).kept m.id marked, all_marked),
      )
