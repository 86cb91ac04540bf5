-- ===== src/Server/Assembly/Resend.antt =====
-- What happens when the provider has accepted a text and the update of its row has failed.
use mathlib.Core.List.{append_assoc}
use go_message_dispatcher.Base.{
  ℕ, ◌≡◌, refl, sym, ap, ◌∙◌, false, List, [], ◌∷◌, ◌++◌, map, take, drop, Error, is_ok, ok, err,
}
use mathlib.Core.Path.{subst}
use go_message_dispatcher.Domain.{Message, SmsDeliveryResponse, CacheRepository, SmsProvider}
use go_message_dispatcher.Repository.Postgres.{Db, mark_update, mark_as_sent}
use go_message_dispatcher.Repository.Postgres.Server.{IsPostgres}
use go_message_dispatcher.Repository.Postgres.Backlog.{IsBacklog}
use go_message_dispatcher.Service.{Service, process_single_message, process_messages}
use go_message_dispatcher.Service.Batch.{outgoing, rejected, unmarked, delivered, single}
use go_message_dispatcher.Server.Assembly.{Outside, message_service}
use go_message_dispatcher.Server.Assembly.EndToEnd.{IsProvider, program}
use go_message_dispatcher.Server.Assembly.Drain.{IsReliable, run_drained, err_not_ok}

module _ {D R P T : Type 0} (db : Db D) (h : IsPostgres db) (cache : CacheRepository R)
    (provider : SmsProvider P) (k : IsProvider provider) (now : T → ℕ × T) where
  abbrev dispatcher : Service (Outside D R P T)
  dispatcher = program db h cache provider k now

  abbrev updated : Message → Outside D R P T → D
  updated m w = (db.exec (mark_update m.id) w.db).1

  mark_failed :
      (n : ℕ) (v : D) (e : Error)
      → (db.exec (mark_update n) v).0 ≡ err e
      → (is_ok (mark_as_sent db n v).0 ≡ false)
        × ((mark_as_sent db n v).1 ≡ (db.exec (mark_update n) v).1)
  unfolding mark_as_sent
  mark_failed n v e failed = (rw failed refl, rw failed refl)

  -- The message counts as failed, its row is as before, and the provider has the text.
  single_unmarked :
      (m : Message) (w : Outside D R P T) (r : SmsDeliveryResponse) (e : Error)
      → (provider.send_message m.phone_number m.content w.provider).0 ≡ ok r
      → (db.exec (mark_update m.id) w.db).0 ≡ err e
      → let (o, w') = process_single_message dispatcher m w in
        (is_ok o ≡ false)
        × (w'.db ≡ updated m w)
        × (k.accepted w'.provider ≡ k.accepted w.provider ++ outgoing m ∷ [])
  unfolding message_service
  single_unmarked m w r e accepted failed =
      let (refused, same) = mark_failed m.id w.db e failed in
      elim (single dispatcher m w) [
        | rejected x sent result ↦ absurd (err_not_ok (sym sent ∙ accepted))
        | delivered _ sent marked result ↦ absurd (cc)
        | unmarked _ x sent bad result ↦ (
          ap (λ o. is_ok o.0) result,
          ap (λ o. o.1.db) result ∙ same,
          ap (λ o. k.accepted o.1.provider) result
              ∙ k.accepted-send_ok m.phone_number m.content w.provider r accepted,
        )
      ]

  -- A message stands at the front of the backlog. The provider accepts its text, and the update of its
  -- row fails and leaves the table as it is. Then the message counts as failed. Let `v` be a later
  -- state, with the same table and the same accepted texts, from which on PostgreSQL and the provider
  -- answer and no other transaction locks rows. The next `ProcessMessages` picks the message again,
  -- and has its text accepted a second time, and then that of the next row of the backlog.
  pub resent_after_failed_mark :
      {Calm : D → Type 0} {Open : P → Type 0}
      → IsReliable db h provider Calm Open
      → (m : Message) (q : List Message) (w v : Outside D R P T) (r : SmsDeliveryResponse)
        (e : Error)
      → IsBacklog (m ∷ q) (h.table w.db)
      → (provider.send_message m.phone_number m.content w.provider).0 ≡ ok r
      → (db.exec (mark_update m.id) w.db).0 ≡ err e
      → h.table (updated m w) ≡ h.table w.db
      → h.table v.db ≡ h.table (process_single_message dispatcher m w).1.db
      → k.accepted v.provider ≡ k.accepted (process_single_message dispatcher m w).1.provider
      → Calm v.db
      → Open v.provider
      → (is_ok (process_single_message dispatcher m w).0 ≡ false)
        × (k.accepted (process_messages dispatcher v).1.provider
            ≡ k.accepted w.provider ++ outgoing m ∷ outgoing m ∷ map outgoing (take 1 q))
        × IsBacklog (drop 1 q) (h.table (process_messages dispatcher v).1.db)
  resent_after_failed_mark reliable m q w v r e b accepted failed kept same_table same_texts calm
        open_now =
      let (refused, there, once) = single_unmarked m w r e accepted failed in
      let left : h.table v.db ≡ h.table w.db = same_table ∙ ap h.table there ∙ kept in
      let (again, rest, _) =
        run_drained db h cache provider k now reliable (m ∷ q) v (calm, open_now)
          (subst (IsBacklog (m ∷ q)) (sym left) b) in
      (
        refused,
        again
            ∙ ap (λ l. l ++ outgoing m ∷ map outgoing (take 1 q)) (same_texts ∙ once)
            ∙ append_assoc (k.accepted w.provider) (outgoing m ∷ []) _,
        rest,
      )
