-- ===== src/Repository/Postgres/Marking.antt =====
-- `MarkAsSent` in terms of the `sent` column, as the message service assumes it.
use mathlib.Core.Bool.{false≢true}
use mathlib.Core.Path.{fun_ext}
use go_message_dispatcher.Base.{
  ℕ, zero, suc, ◌<◌, ◌≡◌, refl, sym, ap, ◌∙◌, ◌⊎◌, inl, inr, Bool, true, false, not, ◌&&◌, ◌||◌,
  List, [], ◌∷◌, map, arith, ◌==◌, filter, length, Error, Result, ok, err, is_ok, Bool-cases,
}
use go_message_dispatcher.Domain.{Message}
use go_message_dispatcher.Repository.Postgres.{Db, mark_update, require_row, mark_as_sent}
use go_message_dispatcher.Repository.Postgres.Server.{updated, IsPostgres}
use go_message_dispatcher.Service.Ledger.{set_sent}

ok_of : (r : Result (Unit {0})) → is_ok r ≡ true → r ≡ ok tt
ok_of (ok _) h = refl
ok_of (err e) h = absurd (cc)

-- Whether the row `k` is marked as sent.
abbrev pub row_sent : List Message → ℕ → Bool
row_sent [] k = false
row_sent (m ∷ ms) k = m.id == k && m.sent || row_sent ms k

abbrev pub has_row : ℕ → List Message → Bool
has_row n [] = false
has_row n (m ∷ ms) = m.id == n || has_row n ms

-- The rows that `MarkAsSent` would change.
abbrev pub unsent_rows : ℕ → List Message → List Message
unsent_rows n = filter (λ m. m.id == n && not m.sent)

abbrev pub marked : ℕ → List Message → List Message
marked n = map (updated (mark_update n))

row_sent-marked :
    (n k : ℕ) (ms : List Message)
    → row_sent (marked n ms) k ≡ (row_sent ms k || k == n && has_row n ms)
row_sent-marked n k [] = ground arith
row_sent-marked n k (m ∷ ms) = ground (arith, row_sent-marked n k ms)

has_row_of_unsent :
    (n : ℕ) (ms : List Message) → 0 < length (unsent_rows n ms) → has_row n ms ≡ true
has_row_of_unsent n [] h = absurd (omega arith)
has_row_of_unsent n (m ∷ ms) h = ground (arith, has_row_of_unsent n ms)

marked_none : (n : ℕ) (ms : List Message) → length (unsent_rows n ms) ≡ 0 → marked n ms ≡ ms
marked_none n [] h = refl
marked_none n (m ∷ ms) h = ground (arith, marked_none n ms)

unsent_rows-marked : (n : ℕ) (ms : List Message) → unsent_rows n (marked n ms) ≡ []
unsent_rows-marked n [] = refl
unsent_rows-marked n (m ∷ ms) = ground (arith, unsent_rows-marked n ms)

row_sent-set_sent :
    (n : ℕ) (ms : List Message)
    → 0 < length (unsent_rows n ms)
    → row_sent (marked n ms) ≡ set_sent n (row_sent ms)
row_sent-set_sent n ms h =
    fun_ext λ k. ground (arith, row_sent-marked n k ms, has_row_of_unsent n ms h)

-- The column after an update that has been executed, whatever the number of rows it found.
column_either :
    (n : ℕ) (ms : List Message)
    → (row_sent (marked n ms) ≡ row_sent ms) ⊎ (row_sent (marked n ms) ≡ set_sent n (row_sent ms))
column_either n ms = from (length (unsent_rows n ms)) refl
  where
    from :
        (c : ℕ)
        → length (unsent_rows n ms) ≡ c
        → (row_sent (marked n ms) ≡ row_sent ms)
          ⊎ (row_sent (marked n ms) ≡ set_sent n (row_sent ms))
    from zero e = inl (ap row_sent (marked_none n ms e))
    from (suc c) e = inr (row_sent-set_sent n ms (omega arith))

module _ {W : Type 0} (db : Db W) (h : IsPostgres db) (n : ℕ) (w : W) where
  open h use {table}

  -- How a call of `MarkAsSent` can go.
  data Marked : Type 0 where
    failed :
        (e : Error)
        → (db.exec (mark_update n) w).0 ≡ err e
        → is_ok (mark_as_sent db n w).0 ≡ false
        → (mark_as_sent db n w).1 ≡ (db.exec (mark_update n) w).1
        → Marked
    uncounted :
        (e : Error)
        → (db.exec (mark_update n) w).0 ≡ ok (err e)
        → is_ok (mark_as_sent db n w).0 ≡ false
        → (mark_as_sent db n w).1 ≡ (db.exec (mark_update n) w).1
        → Marked
    counted :
        (c : ℕ)
        → (db.exec (mark_update n) w).0 ≡ ok (ok c)
        → mark_as_sent db n w ≡ (require_row n c, (db.exec (mark_update n) w).1)
        → Marked

  Marked-from : (r : Result (Result ℕ)) → (db.exec (mark_update n) w).0 ≡ r → Marked
  unfolding mark_as_sent
  Marked-from (err e) x = failed e x (rw (x, mark_as_sent)) (rw (x, mark_as_sent))
  Marked-from (ok (err e)) x = uncounted e x (rw (x, mark_as_sent)) (rw (x, mark_as_sent))
  Marked-from (ok (ok c)) x = counted c x (rw (x, mark_as_sent))

  marking : Marked
  marking = Marked-from (db.exec (mark_update n) w).0 refl

  abbrev after : W
  after = (mark_as_sent db n w).1

  ok_counted : (c : ℕ) → require_row n c ≡ ok tt → 0 < c
  ok_counted zero e = absurd (cc)
  ok_counted (suc c) e = omega arith

  -- The table is as it was, or the update has been executed.
  pub table-mark_as_sent : (table after ≡ table w) ⊎ (table after ≡ marked n (table w))
  table-mark_as_sent = elim marking [
    | failed e x bad same ↦ elim (h.exec-err (mark_update n) w e x) [
      | inl kept ↦ inl (ap table same ∙ kept)
      | inr changed ↦ inr (ap table same ∙ changed)
    ]
    | uncounted e x bad same ↦ inr (ap table same ∙ h.exec-ok (mark_update n) w _ x)
    | counted c x result ↦ inr (ap (λ r. table r.1) result ∙ h.exec-ok (mark_update n) w _ x)
  ]

  row_required : (c : ℕ) → 0 < c → require_row n c ≡ ok tt
  row_required zero e = absurd (omega arith)
  row_required (suc c) e = refl

  -- An update that is answered and finds the row marks it.
  pub mark_as_sent-answered :
      (k : ℕ)
      → (db.exec (mark_update n) w).0 ≡ ok (ok k)
      → 0 < length (unsent_rows n (table w))
      → ((mark_as_sent db n w).0 ≡ ok tt) × (table (mark_as_sent db n w).1 ≡ marked n (table w))
  mark_as_sent-answered k done found = elim marking [
    | failed e x bad same ↦ absurd (cc)
    | uncounted e x bad same ↦ absurd (cc)
    | counted c x result ↦ (
      ap (λ r. r.0) result
          ∙ row_required c (omega (arith, found, h.exec-affected (mark_update n) w c x)),
      ap (λ r. table r.1) result ∙ h.exec-ok (mark_update n) w _ x,
    )
  ]

  -- `MarkAsSent` succeeds only if there was an unsent row with that key. Then the row counts as
  -- sent, no other row has changed its mark, and no unsent row with that key is left.
  pub mark_as_sent_ok :
      (mark_as_sent db n w).0 ≡ ok tt
      → (0 < length (unsent_rows n (table w)))
        × (row_sent (table after) ≡ set_sent n (row_sent (table w)))
        × (unsent_rows n (table after) ≡ [])
  mark_as_sent_ok done = elim marking [
    | failed e x bad same ↦ absurd (false≢true (sym bad ∙ ap is_ok done))
    | uncounted e x bad same ↦ absurd (false≢true (sym bad ∙ ap is_ok done))
    | counted c x result ↦
        let positive = ok_counted c (sym (ap (λ r. r.0) result) ∙ done) in
        let some_row : 0 < length (unsent_rows n (table w)) =
          omega (arith, positive, h.exec-affected (mark_update n) w c x) in
        let changed : table after ≡ marked n (table w) =
          ap (λ r. table r.1) result ∙ h.exec-ok (mark_update n) w _ x in
        (
          some_row,
          ap row_sent changed ∙ row_sent-set_sent n (table w) some_row,
          ap (unsent_rows n) changed ∙ unsent_rows-marked n (table w),
        )
  ]

  -- If `MarkAsSent` fails, then either no row has changed its mark, or the row with that key now
  -- counts as sent and no other has changed.
  pub mark_as_sent_err :
      (e : Error)
      → (mark_as_sent db n w).0 ≡ err e
      → (row_sent (table after) ≡ row_sent (table w))
        ⊎ (row_sent (table after) ≡ set_sent n (row_sent (table w)))
  mark_as_sent_err e refused = elim table-mark_as_sent [
    | inl same ↦ inl (ap row_sent same)
    | inr changed ↦ elim (column_either n (table w)) [
      | inl e ↦ inl (ap row_sent changed ∙ e)
      | inr e ↦ inr (ap row_sent changed ∙ e)
    ]
  ]

-- After a success of `MarkAsSent`, a second call for the same key fails.
pub mark_as_sent_twice :
    {W : Type 0} (db : Db W) (h : IsPostgres db) (n : ℕ) (w : W)
    → (mark_as_sent db n w).0 ≡ ok tt
    → is_ok (mark_as_sent db n (mark_as_sent db n w).1).0 ≡ false
mark_as_sent_twice {W} db h n w done = elim (Bool-cases (is_ok (mark_as_sent db n w').0)) [
  | inl again ↦ absurd (
      omega (
        arith,
        (mark_as_sent_ok db h n w' (ok_of _ again)).0,
        ap length (mark_as_sent_ok db h n w done).2,
      ))
  | inr refused ↦ refused
]
  where
    w' : W
    w' = (mark_as_sent db n w).1
