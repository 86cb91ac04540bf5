-- ===== src/Repository/Postgres/Backlog.antt =====
-- The backlog: the eligible rows in the order of the queue. A batch is its front, and a marked row
-- leaves it.
use mathlib.Core.List.{Permᴰ, append-nil, append_assoc}
use mathlib.Core.Path.{subst}
use go_message_dispatcher.Base.{
  ℕ, ◌<◌, ◌≡◌, refl, sym, ap, ◌∙◌, inl, inr, Bool, true, false, not, ◌&&◌, none, List, [], ◌∷◌,
  ◌++◌, map, arith, ◌==◌, ==_refl, Bool-cases, Elem, filter, take, length, ok,
}
use go_message_dispatcher.Domain.{Message}
use go_message_dispatcher.Repository.Postgres.{
  Rows, Db, eligible, unsent_query, mark_update, scan_rows, collect, get_unsent_messages,
}
use go_message_dispatcher.Repository.Postgres.Server.{updated, IsPostgres}
use go_message_dispatcher.Repository.Postgres.Queue.{waiting, get_unsent_messages-sorted}
use go_message_dispatcher.Repository.Postgres.Marking.{has_row, marked, unsent_rows}
use go_message_dispatcher.Repository.Postgres.Fresh.{Keyed, eligible_unsent}
use go_message_dispatcher.Repository.Postgres.Keys.{Keyed-perm, Keyed-filter, Keyed-marked}
use go_message_dispatcher.Repository.Postgres.Order.{
  Ordered, Ordered-Sorted, sorted_perm, filter-perm, Elem-perm,
}

-- `q` lists the eligible rows of a table in the order of the queue.
pub record IsBacklog (q table : List Message) : Type 0 where
  pub listed : Permᴰ q (filter eligible table)
  pub ordered : Ordered q
  pub keyed : Keyed table

abbrev without : ℕ → List Message → List Message
without n = filter (λ m. not (m.id == n))

eligible-updated :
    (n : ℕ) (m : Message) → eligible (updated (mark_update n) m) ≡ (not (m.id == n) && eligible m)
unfolding eligible
eligible-updated n m = ground arith

updated_other : (n : ℕ) (m : Message) → (m.id == n) ≡ false → updated (mark_update n) m ≡ m
updated_other n m other = rw other refl

without_first :
    (n : ℕ) (m : Message) (ms : List Message)
    → (m.id == n) ≡ true
    → without n (m ∷ ms) ≡ without n ms
without_first n m ms same = rw same refl

eligible-marked :
    (n : ℕ) (ms : List Message) → filter eligible (marked n ms) ≡ without n (filter eligible ms)
eligible-marked n [] = refl
eligible-marked n (m ∷ ms) = elim (Bool-cases (m.id == n)) [
  | inl same ↦
      let gone : eligible (updated (mark_update n) m) ≡ false =
        eligible-updated n m ∙ rw same refl in
      rw gone (elim (Bool-cases (eligible m)) [
        | inl on ↦ rw on (eligible-marked n ms ∙ sym (without_first n m (filter eligible ms) same))
        | inr off ↦ rw off (eligible-marked n ms)
      ])
  | inr other ↦ rw (updated_other n m other) (elim (Bool-cases (eligible m)) [
    | inl on ↦ rw on (rw other (ap (λ l. m ∷ l) (eligible-marked n ms)))
    | inr off ↦ rw off (eligible-marked n ms)
  ])
]

without_absent : (n : ℕ) (ms : List Message) → has_row n ms ≡ false → without n ms ≡ ms
without_absent n [] h = refl
without_absent n (m ∷ ms) h = ground (arith, without_absent n ms)

-- The first row of the backlog leaves it when it is marked.
pub IsBacklog-marked :
    (m : Message) (q table : List Message)
    → IsBacklog (m ∷ q) table
    → IsBacklog q (marked m.id table)
IsBacklog-marked m q table b =
    let (fresh, _) : Keyed (m ∷ q) = Keyed-perm b.listed (Keyed-filter eligible table b.keyed) in
    let rest : without m.id (m ∷ q) ≡ q = rw ==_refl (without_absent m.id q fresh) in
    record {
      listed =
          subst (λ l. Permᴰ l (filter eligible (marked m.id table))) rest
            (subst (Permᴰ (without m.id (m ∷ q))) (sym (eligible-marked m.id table))
              (filter-perm _ b.listed));
      ordered = b.ordered.1;
      keyed = Keyed-marked m.id table b.keyed;
    }

unsent_found :
    (m : Message) (ms : List Message)
    → Elem m (filter eligible ms)
    → 0 < length (unsent_rows m.id ms)
unsent_found m [] e = absurd e
unsent_found m (x ∷ xs) e = elim (Bool-cases (eligible x)) [
  | inl on ↦ elim (rw on at e) [
    | inl same ↦ ground (arith, eligible_unsent x on, ap (λ y. y.id) same)
    | inr later ↦ ground (arith, unsent_found m xs later)
  ]
  | inr off ↦ ground (arith, unsent_found m xs (rw off at e))
]

-- The first row of the backlog is one that `MarkAsSent` finds.
pub IsBacklog-found :
    (m : Message) (q table : List Message)
    → IsBacklog (m ∷ q) table
    → 0 < length (unsent_rows m.id table)
IsBacklog-found m q table b = unsent_found m table (Elem-perm m b.listed (inl refl))

filter_same :
    (p r : Message → Bool) (ms : List Message)
    → ((m : Message) → p m ≡ r m)
    → filter p ms ≡ filter r ms
filter_same p r [] h = refl
filter_same p r (m ∷ ms) h = rw (h m, filter_same p r ms h) refl

module _ {W : Type 0} (db : Db W) (h : IsPostgres db) (limit : ℕ) (w : W)
    (unlocked : (m : Message) → h.free w m ≡ true) where
  -- If no other transaction has locked a row, then a batch is the front of the backlog.
  pub get_unsent_messages-front :
      (q ms : List Message)
      → IsBacklog q (h.table w)
      → (get_unsent_messages db limit w).0 ≡ ok ms
      → ms ≡ take limit q
  get_unsent_messages-front q ms b e =
      let (l, perm, sorted, cut) = get_unsent_messages-sorted db h limit w ms e in
      let all : waiting db h limit w ≡ filter eligible (h.table w) =
        filter_same _ eligible (h.table w) (λ m. ground (arith, unlocked m)) in
      let same : l ≡ q =
        sorted_perm (subst (Permᴰ l) all perm) b.listed sorted (Ordered-Sorted q b.ordered)
          (Keyed-filter eligible (h.table w) b.keyed) in
      cut ∙ ap (take limit) same

scan_rows-ok : (ms acc : List Message) → scan_rows (map ok ms) acc ≡ ok (acc ++ ms)
unfolding scan_rows
scan_rows-ok [] acc = rw append-nil refl
scan_rows-ok (m ∷ ms) acc = scan_rows-ok ms (acc ++ m ∷ []) ∙ rw append_assoc refl

module _ {W : Type 0} (db : Db W) (h : IsPostgres db) (w : W) where
  -- A query that is answered without an error gives a batch.
  pub get_unsent_messages-answered :
      (limit : ℕ) (rows : Rows) (ms : List Message)
      → (db.query (unsent_query limit) w).0 ≡ ok rows
      → rows.error ≡ none
      → rows.scans ≡ map ok ms
      → (get_unsent_messages db limit w).0 ≡ ok ms
  unfolding get_unsent_messages collect
  get_unsent_messages-answered limit rows ms queried clean scanned =
      rw (queried, get_unsent_messages) (rw (scanned, collect, scan_rows-ok, clean) refl)
