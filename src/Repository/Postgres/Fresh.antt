-- ===== src/Repository/Postgres/Fresh.antt =====
-- A row that counts as sent is not picked again.
use go_message_dispatcher.Base.{
  ℕ, ◌≡◌, refl, ap, ◌∙◌, inl, inr, true, false, List, [], ◌∷◌, arith, ==_refl, All, All-both,
  All-Elem, Elem, ok,
}
use go_message_dispatcher.Domain.{Message}
use go_message_dispatcher.Repository.Postgres.{Db, eligible, get_unsent_messages}
use go_message_dispatcher.Repository.Postgres.Server.{IsPostgres}
use go_message_dispatcher.Repository.Postgres.Queue.{
  All-perm, All-left, All-kept, get_unsent_messages_lem, get_unsent_messages_eligible,
}
use go_message_dispatcher.Repository.Postgres.Marking.{row_sent, has_row}

-- No key comes twice, as `PRIMARY KEY` demands.
abbrev pub Keyed : List Message → Type 0
Keyed [] = Unit
Keyed (m ∷ ms) = (has_row m.id ms ≡ false) × Keyed ms

row_sent_absent : (k : ℕ) (ms : List Message) → has_row k ms ≡ false → row_sent ms k ≡ false
row_sent_absent k [] h = refl
row_sent_absent k (m ∷ ms) h = ground (arith, row_sent_absent k ms)

pub has_row-Elem : (m : Message) (ms : List Message) → Elem m ms → has_row m.id ms ≡ true
has_row-Elem m [] h = absurd h
has_row-Elem m (x ∷ xs) (inl e) = rw (← e) (rw ==_refl refl)
has_row-Elem m (x ∷ xs) (inr h) = ground (arith, has_row-Elem m xs h)

unsent_row :
    (m : Message) (ms : List Message)
    → Keyed ms
    → Elem m ms
    → m.sent ≡ false
    → row_sent ms m.id ≡ false
unsent_row m [] k e h = absurd e
unsent_row m (x ∷ xs) (fresh, k) (inl e) h =
    ground
      (arith, row_sent_absent m.id xs (ap (λ y. has_row y.id xs) e ∙ fresh), ap (λ y. y.sent) e)
unsent_row m (x ∷ xs) (fresh, k) (inr e) h = ground (
  arith,
  fresh,
  unsent_row m xs k e h,
  has_row-Elem m xs e,
  λ (same : x.id ≡ m.id). ap (λ n. has_row n xs) same,
)

pub eligible_unsent : (m : Message) → eligible m ≡ true → m.sent ≡ false
unfolding eligible
eligible_unsent m h = ground arith

module _ {W : Type 0} (db : Db W) (h : IsPostgres db) (limit : ℕ) (w : W) where
  -- If no key comes twice in the table, then `GetUnsentMessages` returns only rows whose keys do not
  -- count as sent: what has been marked is not picked again.
  pub get_unsent_messages_fresh :
      (ms : List Message)
      → Keyed (h.table w)
      → (get_unsent_messages db limit w).0 ≡ ok ms
      → All (λ m. row_sent (h.table w) m.id ≡ false) ms
  get_unsent_messages_fresh ms keyed e =
      let (rest, perm, _, _, _) = (get_unsent_messages_lem db h limit w ms e).1 in
      let settled : All (λ m. m.sent ≡ false → row_sent (h.table w) m.id ≡ false) (h.table w) =
        All-Elem (h.table w) (λ m place unsent. unsent_row m (h.table w) keyed place unsent) in
      let picked : All (λ m. m.sent ≡ false → row_sent (h.table w) m.id ≡ false) ms =
        All-left _ ms rest (All-perm _ perm (All-kept _ _ (h.table w) settled)) in
      All-both (λ m v f. f (eligible_unsent m v)) ms
        (get_unsent_messages_eligible db h limit w ms e) picked
