-- ===== src/Repository/Postgres/Server.antt =====
-- What the repository relies on of PostgreSQL and its driver, in terms of the rows of the table.
-- A call sees the table as the call before it has left it; other clients are steps of Fleet.antt.
use mathlib.Core.List.{Permᴰ}
use go_message_dispatcher.Base.{
  ℕ, ◌≡◌, ◌⊎◌, Bool, true, not, ◌&&◌, ◌||◌, Option, none, some, List, [], ◌∷◌, ◌++◌, map,
  if◌then◌else◌, Text, All, filter, take, length, Error, Result, ok, err,
}
use go_message_dispatcher.Domain.{Message}
use go_message_dispatcher.Repository.Postgres.{Select, Update, Rows, Db}

abbrev pub Sorted : (Message → Message → Bool) → List Message → Type 0
Sorted before [] = Unit
Sorted before (m ∷ ms) = All (λ n. before m n ≡ true) ms × Sorted before ms

abbrev pub limited : Option ℕ → List Message → List Message
limited none ms = ms
limited (some n) ms = take n ms

abbrev pub updated : Update → Message → Message
updated u m = if u.where_clause m then u.set_clause m else m

-- The rows that a query may return: under SKIP LOCKED not those that another transaction has locked.
abbrev pub visible : Select → (Message → Bool) → Message → Bool
visible q free m = q.where_clause m && (not q.skip_locked || free m)

-- A query that scans all its rows without an error returns the matching rows in an order that ORDER
-- BY allows, cut at LIMIT. A statement that fails may have been executed, or not.
pub record IsPostgres {W : Type 0} (db : Db W) : Type 0 where
  pub table : W → List Message
  -- rows that no other transaction has locked
  pub free : W → Message → Bool
  pub table-query : (q : Select) (w : W) → table (db.query q w).1 ≡ table w
  pub query-rows :
      (q : Select) (w : W) (rows : Rows) (ms : List Message)
      → (db.query q w).0 ≡ ok rows
      → rows.error ≡ none
      → rows.scans ≡ map ok ms
      → (l : List Message) × Permᴰ l (filter (visible q (free w)) (table w))
        × Sorted q.before l
        × (ms ≡ limited q.limit l)
  pub exec-ok :
      (u : Update) (w : W) (r : Result ℕ)
      → (db.exec u w).0 ≡ ok r
      → table (db.exec u w).1 ≡ map (updated u) (table w)
  pub exec-affected :
      (u : Update) (w : W) (n : ℕ)
      → (db.exec u w).0 ≡ ok (ok n)
      → n ≡ length (filter u.where_clause (table w))
  pub exec-err :
      (u : Update) (w : W) (e : Error)
      → (db.exec u w).0 ≡ err e
      → (table (db.exec u w).1 ≡ table w) ⊎ (table (db.exec u w).1 ≡ map (updated u) (table w))
  pub insert-ok :
      (p c : Text) (w : W) (m : Message)
      → (db.insert p c w).0 ≡ ok m
      → (table (db.insert p c w).1 ≡ table w ++ m ∷ [])
        × (m.phone_number ≡ p)
        × (m.content ≡ c)
        × (not m.sent ≡ true)
