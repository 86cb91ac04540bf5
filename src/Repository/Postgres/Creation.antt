-- ===== src/Repository/Postgres/Creation.antt =====
-- What `CreateMessage` lets into the table.
use mathlib.Core.Bool.{false≢true}
use go_message_dispatcher.Base.{
  ℕ, ◌≢◌, List, refl, All, All-map, ◌⊎◌, ◌≤◌, ◌<◌, ◌≡◌, ◌∙◌, sym, ap, Bool, true, false, not, ◌&&◌,
  [], ◌∷◌, ◌++◌, arith, ltb, Text, length, is_empty, is_ok, Result, ok, err, wrap_err, Bool-cases,
  inl, inr,
}
use go_message_dispatcher.Domain.{Message}
use go_message_dispatcher.Domain.Validation.{empty_iff}
use go_message_dispatcher.Repository.Postgres.{
  Db, char_length, eligible, create_message, get_unsent_messages,
}
use go_message_dispatcher.Repository.Postgres.Server.{IsPostgres}
use go_message_dispatcher.Repository.Postgres.Queue.{get_unsent_messages_eligible}

ineligible : (m : Message) → char_length m.phone_number < 10 → eligible m ≡ false
unfolding eligible
ineligible m h = ground arith

module _ {W : Type 0} (db : Db W) (phone_number content : Text) (w : W) where
  -- Whether the two checks let the content pass.
  abbrev passes : Bool
  passes = not (ltb 160 (length content)) && not (is_empty content)

  create_passing :
      passes ≡ true
      → create_message db phone_number content w ≡ (
        wrap_err "failed to create message" [] (db.insert phone_number content w).0,
        (db.insert phone_number content w).1,
      )
  unfolding create_message
  create_passing h = ground arith

  create_refused :
      passes ≡ false
      → (is_ok (create_message db phone_number content w).0 ≡ false)
        × ((create_message db phone_number content w).1 ≡ w)
  unfolding create_message
  create_refused h = ground arith

  wrap_ok :
      (r : Result Message) (m : Message)
      → wrap_err "failed to create message" [] r ≡ ok m
      → r ≡ ok m
  wrap_ok (ok a) m e = e
  wrap_ok (err x) m e = absurd (cc)

  -- If `CreateMessage` succeeds, then the content has 1 to 160 bytes, and the table has exactly one
  -- more row, the returned one, which has the given texts and is unsent.
  pub create_message_ok :
      (h : IsPostgres db) (m : Message)
      → (create_message db phone_number content w).0 ≡ ok m
      → (1 ≤ length content)
        × (length content ≤ 160)
        × (h.table (create_message db phone_number content w).1 ≡ h.table w ++ m ∷ [])
        × (m.phone_number ≡ phone_number)
        × (m.content ≡ content)
        × (m.sent ≡ false)
  create_message_ok h m done = elim (Bool-cases passes) [
    | inl p ↦
        let inserted =
          wrap_ok (db.insert phone_number content w).0 m
            (sym (ap (λ r. r.0) (create_passing p)) ∙ done) in
        let (a, b, c, d) = h.insert-ok phone_number content w m inserted in
        (
          ground (arith, empty_iff content),
          ground arith,
          ap (λ r. h.table r.1) (create_passing p) ∙ a,
          b,
          c,
          ground arith,
        )
    | inr p ↦ absurd (false≢true (sym (create_refused p).0 ∙ ap is_ok done))
  ]

  -- A content with 0 bytes or more than 160 makes `CreateMessage` fail without a change of the world.
  pub create_message_refused :
      (length content ≡ 0) ⊎ (160 < length content)
      → (is_ok (create_message db phone_number content w).0 ≡ false)
        × ((create_message db phone_number content w).1 ≡ w)
  create_message_refused bad = create_refused (ground (arith, empty_iff content))

  -- If the content has 1 to 160 bytes and the INSERT is answered with a row, then `CreateMessage`
  -- succeeds also for a phone number with fewer than 10 characters, and the row is in the table. But no
  -- batch that `GetUnsentMessages` returns, in whatever state, has a message for that number.
  pub created_stranded :
      (h : IsPostgres db) (m : Message)
      → 1 ≤ length content
      → length content ≤ 160
      → char_length phone_number < 10
      → (db.insert phone_number content w).0 ≡ ok m
      → ((create_message db phone_number content w).0 ≡ ok m)
        × (h.table (create_message db phone_number content w).1 ≡ h.table w ++ m ∷ [])
        × ((limit : ℕ) (v : W) (ms : List Message)
            → (get_unsent_messages db limit v).0 ≡ ok ms
            → All (λ n. n.phone_number ≢ phone_number) ms)
  created_stranded h m low high odd inserted =
      let created = create_passing (ground (arith, empty_iff content)) in
      (
        rw created (rw inserted refl),
        rw created (h.insert-ok phone_number content w m inserted).0,
        (λ limit v ms picked.
            All-map (λ n on same. absurd (false≢true (sym (ineligible n (rw same odd)) ∙ on))) ms
              (get_unsent_messages_eligible db h limit v ms picked)),
      )
