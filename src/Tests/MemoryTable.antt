-- ===== src/Tests/MemoryTable.antt =====
-- A database that keeps the table in memory, with rows that other transactions have locked. It
-- refuses a query when its sort does not end in the order that the query asks for.
use mathlib.Core.Path.{subst}
use mathlib.Core.List.{Permᴰ}
use go_message_dispatcher.Base.{
  ℕ, ◌+◌, ◌≡◌, refl, sym, ◌∙◌, Bool, true, false, not, ◌&&◌, none, List, [], ◌∷◌, ◌++◌, map, arith,
  if◌then◌else◌, Text, All, filter, length, Result, ok, err, external, Action, Bool-cases, inl, inr,
}
use go_message_dispatcher.Domain.{Message}
use go_message_dispatcher.Repository.Postgres.{Select, Update, Rows, Db}
use go_message_dispatcher.Repository.Postgres.Server.{Sorted, limited, updated, visible, IsPostgres}

pub record Table : Type 0 where
  pub rows : List Message
  pub locked : Message → Bool
  pub next_id : ℕ

abbrev pub insert_by : (Message → Message → Bool) → Message → List Message → List Message
insert_by before m [] = m ∷ []
insert_by before m (n ∷ ns) = if before m n then m ∷ n ∷ ns else n ∷ insert_by before m ns

abbrev pub sort_by : (Message → Message → Bool) → List Message → List Message
sort_by before [] = []
sort_by before (m ∷ ms) = insert_by before m (sort_by before ms)

abbrev pub all_after : (Message → Message → Bool) → Message → List Message → Bool
all_after before m [] = true
all_after before m (n ∷ ns) = before m n && all_after before m ns

abbrev pub is_sorted : (Message → Message → Bool) → List Message → Bool
is_sorted before [] = true
is_sorted before (m ∷ ms) = all_after before m ms && is_sorted before ms

abbrev pub matching : Select → Table → List Message
matching q w = sort_by q.before (filter (visible q (λ m. not (w.locked m))) w.rows)

abbrev pub query : Select → Action Table Rows
query q w =
    if is_sorted q.before (matching q w)
    then (ok (record { scans = map ok (limited q.limit (matching q w)); error = none }), w)
    else (err (external 1), w)

abbrev pub exec : Update → Action Table (Result ℕ)
exec u w =
    (ok (ok (length (filter u.where_clause w.rows))), record w { rows = map (updated u) w.rows })

-- The row that is added.
abbrev pub new_row : Text → Text → Table → Message
new_row p c w = record {
  id = w.next_id;
  phone_number = p;
  content = c;
  sent = false;
  created_at = w.next_id;
}

abbrev pub insert : Text → Text → Action Table Message
insert p c w =
    (ok (new_row p c w), record w { rows = w.rows ++ new_row p c w ∷ []; next_id = w.next_id + 1 })

abbrev pub table : Db Table
table = record { query = query; exec = exec; insert = insert; ping = λ w. (ok tt, w) }

perm_refl : (ms : List Message) → Permᴰ ms ms
perm_refl [] = Permᴰ.nil
perm_refl (m ∷ ms) = Permᴰ.cons refl (perm_refl ms)

insert_by-perm :
    (before : Message → Message → Bool) (m : Message) (ms : List Message)
    → Permᴰ (insert_by before m ms) (m ∷ ms)
insert_by-perm before m [] = perm_refl (m ∷ [])
insert_by-perm before m (n ∷ ns) = elim (Bool-cases (before m n)) [
  | inl e ↦ rw e (perm_refl (m ∷ n ∷ ns))
  | inr e ↦ rw e (Permᴰ.trans (Permᴰ.cons refl (insert_by-perm before m ns)) (Permᴰ.swap refl refl))
]

pub sort_by-perm :
    (before : Message → Message → Bool) (ms : List Message) → Permᴰ (sort_by before ms) ms
sort_by-perm before [] = perm_refl []
sort_by-perm before (m ∷ ms) =
    Permᴰ.trans (insert_by-perm before m (sort_by before ms))
      (Permᴰ.cons refl (sort_by-perm before ms))

all_after-All :
    (before : Message → Message → Bool) (m : Message) (ms : List Message)
    → all_after before m ms ≡ true
    → All (λ n. before m n ≡ true) ms
all_after-All before m [] h = tt
all_after-All before m (n ∷ ns) h = (ground arith, all_after-All before m ns (ground arith))

pub is_sorted-Sorted :
    (before : Message → Message → Bool) (ms : List Message)
    → is_sorted before ms ≡ true
    → Sorted before ms
is_sorted-Sorted before [] h = tt
is_sorted-Sorted before (m ∷ ms) h =
    (all_after-All before m ms (ground arith), is_sorted-Sorted before ms (ground arith))

same_scans : (xs ys : List Message) → map {B = Result Message} ok xs ≡ map ok ys → ys ≡ xs
same_scans [] [] h = refl
same_scans [] (y ∷ ys) h = absurd (cc)
same_scans (x ∷ xs) [] h = absurd (cc)
same_scans (x ∷ xs) (y ∷ ys) h =
    let e : y ≡ x = cc in
    let r : map {B = Result Message} ok xs ≡ map ok ys = cc in let ih = same_scans xs ys r in cc

pub answer :
    (q : Select) (w : Table) (rows : Rows) (ms : List Message)
    → (query q w).0 ≡ ok rows
    → rows.scans ≡ map ok ms
    → (l : List Message) × Permᴰ l (filter (visible q (λ m. not (w.locked m))) w.rows)
      × Sorted q.before l
      × (ms ≡ limited q.limit l)
answer q w rows ms e scanned = elim (Bool-cases (is_sorted q.before (matching q w))) [
  | inl s ↦
      let same : rows.scans ≡ map ok (limited q.limit (matching q w)) = cc (rw s at e) in
      (
        matching q w,
        sort_by-perm q.before _,
        is_sorted-Sorted q.before _ s,
        same_scans _ ms (sym same ∙ scanned),
      )
  | inr s ↦ absurd (cc (rw s at e))
]

pub inserted :
    (p c : Text) (w : Table) (m : Message)
    → (insert p c w).0 ≡ ok m
    → (w.rows ++ new_row p c w ∷ [] ≡ w.rows ++ m ∷ [])
      × (m.phone_number ≡ p)
      × (m.content ≡ c)
      × (not m.sent ≡ true)
inserted p c w m e =
    let same : new_row p c w ≡ m = cc in
    subst
      (λ n.
        (w.rows ++ new_row p c w ∷ [] ≡ w.rows ++ n ∷ [])
        × (n.phone_number ≡ p)
        × (n.content ≡ c)
        × (not n.sent ≡ true))
      same (refl, refl, refl, refl)

unfoldable pub table-IsPostgres : IsPostgres table
table-IsPostgres = record {
  table = λ w. w.rows;
  free = λ w m. not (w.locked m);
  table-query = λ q w. ground arith;
  query-rows = λ q w rows ms e clean scanned. answer q w rows ms e scanned;
  exec-ok = λ u w r e. refl;
  exec-affected = λ u w n e. cc;
  exec-err = λ u w x e. absurd (cc);
  insert-ok = λ p c w m e. inserted p c w m e;
}
