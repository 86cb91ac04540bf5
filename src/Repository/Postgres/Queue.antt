-- ===== src/Repository/Postgres/Queue.antt =====
-- What `GetUnsentMessages` returns: the front of the queue.
use mathlib.Core.List.{Permᴰ, append-nil, append_assoc}
use go_message_dispatcher.Base.{
  ℕ, zero, suc, ◌≤◌, ◌<◌, ◌≡◌, refl, sym, ap, ◌∙◌, ◌⊎◌, inl, inr, Bool, true, false, ◌&&◌, Option,
  none, some, String, is_ok, List, [], ◌∷◌, ◌++◌, map, arith, Text, is_empty, All, All-map,
  All-take, All-drop, filter, drop, take-append-drop, take, length, length-take-le, Error, message,
  Result, ok, err, wrap_err, continue, lift, Bool-cases,
}
use go_message_dispatcher.Domain.{Message}
use go_message_dispatcher.Domain.Validation.{is_valid, empty_iff}
use go_message_dispatcher.Repository.Postgres.{
  Rows, Db, char_length, eligible, fifo, unsent_query, scan_rows, checked, collect,
  get_unsent_messages, create_message,
}
use go_message_dispatcher.Repository.Postgres.Server.{Sorted, visible, IsPostgres}

ok_inj : {a b : List Message} → ok a ≡ ok b → a ≡ b
ok_inj h = cc

scan_rows_ok :
    (rs : List (Result Message)) (acc ms : List Message)
    → scan_rows rs acc ≡ ok ms
    → (ks : List Message) × (rs ≡ map ok ks) × (ms ≡ acc ++ ks)
unfolding scan_rows
scan_rows_ok [] acc ms h = ([], refl, (sym (ok_inj h) ∙ sym (append-nil acc)))
scan_rows_ok (ok m ∷ rs) acc ms h =
    let (ks, a, b) = scan_rows_ok rs (acc ++ m ∷ []) ms h in
    (m ∷ ks, ap (λ l. ok m ∷ l) a, b ∙ append_assoc acc (m ∷ []) ks)
scan_rows_ok (err e ∷ rs) acc ms h = absurd (cc)

checked_ok :
    {W : Type 0} (o : Option Error) (r : Result (List Message)) (w : W) (ms : List Message)
    → (continue (λ l. lift (checked o l)) r w).0 ≡ ok ms
    → (o ≡ none) × (r ≡ ok ms)
checked_ok none (ok l) w ms h = (refl, h)
checked_ok (some e) (ok l) w ms h = absurd (cc)
checked_ok none (err e) w ms h = absurd (cc)
checked_ok (some f) (err e) w ms h = absurd (cc)

-- The rows are all good if the collected list is returned.
pub collect_ok :
    {W : Type 0} (db : Db W) (rows : Rows) (w : W) (ms : List Message)
    → (collect db rows w).0 ≡ ok ms
    → (rows.error ≡ none) × (rows.scans ≡ map ok ms)
unfolding collect
collect_ok db rows w ms h =
    let (clean, scanned) = checked_ok rows.error (scan_rows rows.scans []) w ms h in
    let (ks, all, same) = scan_rows_ok rows.scans [] ms scanned in
    (clean, all ∙ ap (map ok) (sym same))

pub collect-world : {W : Type 0} (db : Db W) (rows : Rows) (w : W) → (collect db rows w).1 ≡ w
unfolding collect
collect-world db rows w = ground arith

-- A permutation keeps what holds of all elements.
pub All-perm : (P : Message → Type 0) {xs ys : List Message} → Permᴰ xs ys → All P ys → All P xs
All-perm P Permᴰ.nil h = tt
All-perm P (Permᴰ.cons e p) (h, hs) = (rw e h, All-perm P p hs)
All-perm P (Permᴰ.swap e f) (a, (b, hs)) = (rw e b, (rw f a, hs))
All-perm P (Permᴰ.trans p q) h = All-perm P p (All-perm P q h)

All-filter : (p : Message → Bool) (ms : List Message) → All (λ m. p m ≡ true) (filter p ms)
All-filter p [] = tt
All-filter p (m ∷ ms) = elim (Bool-cases (p m)) [
  | inl e ↦ rw e (e, All-filter p ms)
  | inr e ↦ rw e (All-filter p ms)
]

pub All-kept :
    (P : Message → Type 0) (p : Message → Bool) (ms : List Message) → All P ms → All P (filter p ms)
All-kept P p [] h = tt
All-kept P p (m ∷ ms) (h, hs) = elim (Bool-cases (p m)) [
  | inl e ↦ rw e (h, All-kept P p ms hs)
  | inr e ↦ rw e (All-kept P p ms hs)
]

pub All-left : (P : Message → Type 0) (xs ys : List Message) → All P (xs ++ ys) → All P xs
All-left P [] ys h = tt
All-left P (x ∷ xs) ys (a, h) = (a, All-left P xs ys h)

and_left : (a b : Bool) → (a && b) ≡ true → a ≡ true
and_left a b h = ground arith

-- Each of the first messages comes before each of the rest.
abbrev pub Ahead : List Message → List Message → Type 0
Ahead ms rest = All (λ m. All (λ r. fifo m r ≡ true) rest) ms

Ahead-take :
    (n : ℕ) (l : List Message)
    → Sorted fifo l
    → Ahead (take n l) (drop n l) × Sorted fifo (take n l)
Ahead-take zero l s = (tt, tt)
Ahead-take (suc n) [] s = (tt, tt)
Ahead-take (suc n) (m ∷ l) (first, s) =
    let (a, b) = Ahead-take n l s in ((All-drop _ n l first, a), (All-take _ n l first, b))

full_or_empty : (n : ℕ) (l : List Message) → (length (take n l) ≡ n) ⊎ (drop n l ≡ [])
full_or_empty zero l = inl refl
full_or_empty (suc n) [] = inr refl
full_or_empty (suc n) (m ∷ l) = elim (full_or_empty n l) [ inl e ↦ inl (ap suc e) | inr e ↦ inr e ]

module _ {W : Type 0} (db : Db W) (h : IsPostgres db) (limit : ℕ) (w : W) where
  open h use {table, free}

  -- The rows that may be picked: those that are eligible and not locked by another transaction.
  abbrev pub waiting : List Message
  waiting = filter (visible (unsent_query limit) (free w)) (table w)

  front :
      (ms l : List Message)
      → Permᴰ l waiting
      → Sorted fifo l
      → ms ≡ take limit l
      → (rest : List Message) × Permᴰ (ms ++ rest) waiting
        × Sorted fifo ms
        × Ahead ms rest
        × ((length ms ≡ limit) ⊎ ((length ms ≤ limit) × (rest ≡ [])))
  front ms l perm sorted cut =
      let (ahead, prefix) = Ahead-take limit l sorted in
      (
        drop limit l,
        rw cut (rw (take-append-drop limit l) perm),
        rw cut prefix,
        rw cut ahead,
        rw cut (elim (full_or_empty limit l) [
          | inl full ↦ inl full
          | inr none_left ↦ inr (length-take-le limit l, none_left)
        ]),
      )

  query_ok :
      (text : String) (r : Result Rows) (v : W) (ms : List Message)
      → (continue (collect db) (wrap_err text [] r) v).0 ≡ ok ms
      → (rows : Rows) × (r ≡ ok rows) × ((collect db rows v).0 ≡ ok ms)
  query_ok text (ok rows) v ms e = (rows, refl, e)
  query_ok text (err x) v ms e = absurd (cc)

  query_world :
      (text : String) (r : Result Rows) (v : W)
      → (continue (collect db) (wrap_err text [] r) v).1 ≡ v
  query_world text (ok rows) v = collect-world db rows v
  query_world text (err x) v = refl

  pub world-get_unsent_messages :
      (get_unsent_messages db limit w).1 ≡ (db.query (unsent_query limit) w).1
  unfolding get_unsent_messages
  world-get_unsent_messages = query_world _ (db.query (unsent_query limit) w).0 _

  -- `GetUnsentMessages` leaves the table as it is, also if it fails.
  pub table-get_unsent_messages : table (get_unsent_messages db limit w).1 ≡ table w
  table-get_unsent_messages = ap table world-get_unsent_messages ∙ h.table-query _ w

  -- The returned rows are the first of a sorted list of all that may be picked.
  pub get_unsent_messages-sorted :
      (ms : List Message)
      → (get_unsent_messages db limit w).0 ≡ ok ms
      → (l : List Message) × Permᴰ l waiting × Sorted fifo l × (ms ≡ take limit l)
  unfolding get_unsent_messages
  get_unsent_messages-sorted ms e =
      let (rows, queried, collected) = query_ok _ (db.query (unsent_query limit) w).0 _ ms e in
      let (clean, scanned) = collect_ok db rows (db.query (unsent_query limit) w).1 ms collected in
      h.query-rows (unsent_query limit) w rows ms queried clean scanned

  -- If `GetUnsentMessages` succeeds, then it returns the front of the queue: the rows that it returns
  -- and some rest are together the rows that are eligible and not locked, each once. The returned
  -- rows are in the order of creation, with equal times by their keys, and each comes before each of
  -- the rest. There are `limit` of them, or fewer and no rest. The table is unchanged.
  pub get_unsent_messages_lem :
      (ms : List Message)
      → (get_unsent_messages db limit w).0 ≡ ok ms
      → (table (get_unsent_messages db limit w).1 ≡ table w)
        × ((rest : List Message) × Permᴰ (ms ++ rest) waiting
            × Sorted fifo ms
            × Ahead ms rest
            × ((length ms ≡ limit) ⊎ ((length ms ≤ limit) × (rest ≡ []))))
  get_unsent_messages_lem ms e =
      let (l, perm, sorted, cut) = get_unsent_messages-sorted ms e in
      (table-get_unsent_messages, front ms l perm sorted cut)

  -- Every message that `GetUnsentMessages` returns is eligible.
  pub get_unsent_messages_eligible :
      (ms : List Message)
      → (get_unsent_messages db limit w).0 ≡ ok ms
      → All (λ m. eligible m ≡ true) ms
  get_unsent_messages_eligible ms e =
      let (rest, perm, _, _, _) = (get_unsent_messages_lem ms e).1 in
      All-left _ ms rest
        (All-perm _ perm (All-map (λ m v. and_left _ _ v) waiting (All-filter _ (table w))))

-- A row that is eligible and whose texts are ASCII passes `IsValid`.
pub eligible-is_valid :
    (m : Message)
    → eligible m ≡ true
    → char_length m.phone_number ≡ length m.phone_number
    → char_length m.content ≡ length m.content
    → is_valid m ≡ ok tt
unfolding eligible is_valid
eligible-is_valid m e p c = ground (arith, empty_iff m.phone_number, empty_iff m.content)

char_length_empty : (t : Text) → is_empty t ≡ true → char_length t ≡ 0
char_length_empty [] h = refl
char_length_empty (c ∷ cs) h = absurd (cc)

-- An unsent row with a phone number of 10 to 20 characters, whose content has at most 160 characters in
-- more than 160 bytes, is eligible for a batch. But `IsValid` rejects it, and `CreateMessage` refuses
-- its texts without a call to the database, as longer than 160 characters.
pub eligible_multibyte :
    {W : Type 0} (db : Db W) (m : Message) (w : W)
    → m.sent ≡ false
    → 10 ≤ char_length m.phone_number
    → char_length m.phone_number ≤ 20
    → char_length m.content ≤ 160
    → 160 < length m.content
    → (eligible m ≡ true)
      × (is_ok (is_valid m) ≡ false)
      × (create_message db m.phone_number m.content w ≡ (
        err (
            message "content exceeds maximum length of 160 characters (got %d)"
              (length m.content ∷ [])),
        w,
      ))
unfolding eligible is_valid create_message
eligible_multibyte db m w unsent low high few long =
    let filled : is_empty m.phone_number ≡ false =
      ground (arith, char_length_empty m.phone_number) in
    ground (arith, filled, empty_iff m.content)
