-- ===== src/Server/Assembly/Drain.antt =====
-- A run of `ProcessMessages` works off two rows of the backlog in the table, if PostgreSQL and the
-- provider answer.
use mathlib.Core.Path.{subst}
use mathlib.Core.List.{append_assoc, map-append}
use go_message_dispatcher.Base.{
  ℕ, suc, ◌+◌, ◌*◌, ◌≡◌, refl, sym, ap, ◌∙◌, true, none, List, [], ◌∷◌, ◌++◌, map, arith, take,
  drop, take-append-drop, take-add, drop-add, Text, Error, is_ok, ok, err, if◌then◌else◌,
}
use go_message_dispatcher.Domain.{Message, SmsDeliveryResponse, CacheRepository, SmsProvider}
use go_message_dispatcher.Repository.Postgres.{
  Db, Rows, mark_update, unsent_query, get_unsent_messages, mark_as_sent,
}
use go_message_dispatcher.Repository.Postgres.Server.{IsPostgres}
use go_message_dispatcher.Repository.Postgres.Queue.{
  table-get_unsent_messages, world-get_unsent_messages,
}
use go_message_dispatcher.Repository.Postgres.Marking.{mark_as_sent-answered}
use go_message_dispatcher.Repository.Postgres.Backlog.{
  IsBacklog, IsBacklog-marked, IsBacklog-found, get_unsent_messages-front,
  get_unsent_messages-answered,
}
use go_message_dispatcher.Service.{
  Service, Tally, batch_size, process_single_message, process_batch, process_messages, report,
  count_success, count_failure,
}
use go_message_dispatcher.Service.Ledger.{Outgoing}
use go_message_dispatcher.Service.Batch.{outgoing, rejected, unmarked, delivered, single}
use go_message_dispatcher.Service.Loop.{zero_tally}
use go_message_dispatcher.Service.Outcome.{process_messages_lem}
use go_message_dispatcher.Server.Assembly.{Outside, message_service}
use go_message_dispatcher.Server.Assembly.EndToEnd.{
  IsProvider, program, program-IsLedger, dispatched_batch,
}

-- From a state of the database with `Calm` on, no other transaction has locked a row, and the
-- statements of a run are answered without an error; with `Open` on the state of the provider, it
-- accepts all texts. Both stay so behind these calls.
pub record IsReliable {D P : Type 0} (db : Db D) (h : IsPostgres db) (provider : SmsProvider P)
    (Calm : D → Type 0) (Open : P → Type 0) : Type 0 where
  pub unlocked : (w : D) → Calm w → (m : Message) → h.free w m ≡ true
  pub query-answered :
      (w : D)
      → Calm w
      → (rows : Rows) × (ms : List Message) × ((db.query (unsent_query batch_size) w).0 ≡ ok rows)
        × (rows.error ≡ none)
        × (rows.scans ≡ map ok ms)
  pub exec-answered :
      (n : ℕ) (w : D) → Calm w → (k : ℕ) × ((db.exec (mark_update n) w).0 ≡ ok (ok k))
  pub send-answered :
      (n c : Text) (w : P)
      → Open w
      → (r : SmsDeliveryResponse) × ((provider.send_message n c w).0 ≡ ok r)
  pub query-calm : (w : D) → Calm w → Calm (db.query (unsent_query batch_size) w).1
  pub exec-calm : (n : ℕ) (w : D) → Calm w → Calm (db.exec (mark_update n) w).1
  pub send-open : (n c : Text) (w : P) → Open w → Open (provider.send_message n c w).1

pub err_not_ok : {A : Type 0} {e : Error} {a : A} → err e ≡ ok a → ⊥
err_not_ok h = cc

-- Two rows and 2 * n further ones are 2 * (n + 1).
pub take_more :
    (sent : List Outgoing) (n : ℕ) (q : List Message)
    → (sent ++ map outgoing (take 2 q)) ++ map outgoing (take (2 * n) (drop 2 q))
      ≡ sent ++ map outgoing (take (2 * suc n) q)
take_more sent n q =
    let two : 2 * suc n ≡ 2 + 2 * n = omega arith in
    rw (two, take-add 2 (2 * n) q, map-append, append_assoc) refl

pub drop_more : (n : ℕ) (q : List Message) → drop (2 * n) (drop 2 q) ≡ drop (2 * suc n) q
drop_more n q = let two : 2 * suc n ≡ 2 + 2 * n = omega arith in rw (two, drop-add 2 (2 * n) q) refl

module _ {D R P T : Type 0} (db : Db D) (h : IsPostgres db) (cache : CacheRepository R)
    (provider : SmsProvider P) (k : IsProvider provider) (now : T → ℕ × T) {Calm : D → Type 0}
    {Open : P → Type 0} (reliable : IsReliable db h provider Calm Open) where
  abbrev dispatcher : Service (Outside D R P T)
  dispatcher = program db h cache provider k now

  abbrev Ready : Outside D R P T → Type 0
  Ready w = Calm w.db × Open w.provider

  fetched-calm : (w : D) → Calm w → Calm (get_unsent_messages db batch_size w).1
  fetched-calm w calm =
      subst Calm (sym (world-get_unsent_messages db h batch_size w)) (reliable.query-calm w calm)

  marked-calm : (n : ℕ) (w : D) → Calm w → Calm (mark_as_sent db n w).1
  unfolding mark_as_sent
  marked-calm n w calm =
      let (c, e) = reliable.exec-answered n w calm in rw e (reliable.exec-calm n w calm)

  -- The first row of the backlog is processed without an error, and leaves the backlog.
  single_drained :
      (m : Message) (q : List Message) (w : Outside D R P T)
      → Ready w
      → IsBacklog (m ∷ q) (h.table w.db)
      → (is_ok (process_single_message dispatcher m w).0 ≡ true)
        × IsBacklog q (h.table (process_single_message dispatcher m w).1.db)
        × Ready (process_single_message dispatcher m w).1
  unfolding message_service
  single_drained m q w (calm, open_now) b =
      let (r, accepted) = reliable.send-answered m.phone_number m.content w.provider open_now in
      let (c, counted) = reliable.exec-answered m.id w.db calm in
      let (done, table) =
        mark_as_sent-answered db h m.id w.db c counted (IsBacklog-found m q (h.table w.db) b) in
      elim (single dispatcher m w) [
        | rejected x sent e ↦ absurd (err_not_ok (sym sent ∙ accepted))
        | unmarked _ x sent failed e ↦ absurd (err_not_ok (sym failed ∙ done))
        | delivered _ sent marked e ↦ (
          ap (λ o. is_ok o.0) e,
          subst (IsBacklog q) (sym (ap (λ o. h.table o.1.db) e ∙ table))
              (IsBacklog-marked m q (h.table w.db) b),
          subst (λ o. Ready o.1) (sym e)
              (marked-calm m.id w.db calm, reliable.send-open _ _ w.provider open_now),
        )
      ]

  -- No failure has been counted, `q` is the backlog, and the two still answer.
  abbrev Counted : List Message → Tally → Tally × Outside D R P T → Type 0
  Counted q t r = (r.0.failed_count ≡ t.failed_count) × IsBacklog q (h.table r.1.db) × Ready r.1

  batch_drained :
      (ms q : List Message) (t : Tally) (w : Outside D R P T)
      → Ready w
      → IsBacklog (ms ++ q) (h.table w.db)
      → Counted q t (process_batch dispatcher ms t w)
  unfolding process_batch
  batch_drained [] q t w ready b = (refl, b, ready)
  batch_drained (m ∷ ms) q t w ready b =
      let (succeeded, left, still) = single_drained m (ms ++ q) w ready b in
      let next = (process_single_message dispatcher m w).1 in
      subst
        (λ b.
          Counted q t
            (process_batch dispatcher ms (if b then count_success t else count_failure t) next))
        (sym succeeded) (batch_drained ms q (count_success t) next still left)

  report_none : (t : Tally) → t.failed_count ≡ 0 → report dispatcher t ≡ ok tt
  report_none t e = ground arith

  abbrev fetched_world : Outside D R P T → Outside D R P T
  fetched_world w = record w { db = (get_unsent_messages db 2 w.db).1 }

  -- A run of `ProcessMessages` works off the first two rows, and the two still answer.
  pub run_drained :
      (q : List Message) (w : Outside D R P T)
      → Ready w
      → IsBacklog q (h.table w.db)
      → (k.accepted (process_messages dispatcher w).1.provider
          ≡ k.accepted w.provider ++ map outgoing (take 2 q))
        × IsBacklog (drop 2 q) (h.table (process_messages dispatcher w).1.db)
        × Ready (process_messages dispatcher w).1
  unfolding message_service
  run_drained q w (calm, open_now) b =
      let (rows, ms, queried, clean, scanned) = reliable.query-answered w.db calm in
      let found = get_unsent_messages-answered db h w.db 2 rows ms queried clean scanned in
      let front =
        get_unsent_messages-front db h 2 w.db (reliable.unlocked w.db calm) q ms b found in
      let b' : IsBacklog (ms ++ drop 2 q) (h.table (get_unsent_messages db 2 w.db).1) =
        rw (front, take-append-drop 2 q, table-get_unsent_messages db h 2 w.db) b in
      let (count, rest, ready) =
        batch_drained ms (drop 2 q) zero_tally (fetched_world w) (fetched-calm w.db calm, open_now)
          b' in
      let whole =
        process_messages_lem dispatcher (program-IsLedger db h cache provider k now) w ms found in
      let done : (process_messages dispatcher w).0 ≡ ok tt =
        ap (λ r. r.0) whole ∙ report_none _ count in
      (
        (dispatched_batch db h cache provider k now w ms found done).0
            ∙ ap (λ l. k.accepted w.provider ++ map outgoing l) front,
        subst (IsBacklog (drop 2 q)) (sym (ap (λ r. h.table r.1.db) whole)) rest,
        subst (λ r. Ready r.1) (sym whole) ready,
      )
