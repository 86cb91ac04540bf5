-- ===== src/Repository/Postgres/Keys.antt =====
-- The keys of the rows: the calls of the repository keep them apart, and a batch holds each row once.
use mathlib.Core.List.{Permᴰ}
use mathlib.Core.Path.{subst}
use go_message_dispatcher.Base.{
  ℕ, ◌≡◌, refl, sym, ap, ◌∙◌, ◌≢◌, inl, inr, Bool, false, ◌||◌, List, [], ◌∷◌, ◌++◌, arith, filter,
  ◌==◌, ==_iff, Bool-cases, All, ok,
}
use go_message_dispatcher.Domain.{Message}
use go_message_dispatcher.Repository.Postgres.{Db, mark_update, get_unsent_messages, mark_as_sent}
use go_message_dispatcher.Repository.Postgres.Server.{updated, IsPostgres}
use go_message_dispatcher.Repository.Postgres.Queue.{
  table-get_unsent_messages, get_unsent_messages_lem,
}
use go_message_dispatcher.Repository.Postgres.Marking.{has_row, marked, table-mark_as_sent}
use go_message_dispatcher.Repository.Postgres.Fresh.{Keyed}
use go_message_dispatcher.Service.Ledger.{Distinct}

has_row-perm : (k : ℕ) {xs ys : List Message} → Permᴰ xs ys → has_row k xs ≡ has_row k ys
has_row-perm k Permᴰ.nil = refl
has_row-perm k (Permᴰ.cons {b = b} e p) = rw e (ap (λ t. b.id == k || t) (has_row-perm k p))
has_row-perm k (Permᴰ.swap e f) = rw e (rw f (ground arith))
has_row-perm k (Permᴰ.trans p q) = has_row-perm k p ∙ has_row-perm k q

pub Keyed-perm : {xs ys : List Message} → Permᴰ xs ys → Keyed ys → Keyed xs
Keyed-perm Permᴰ.nil h = tt
Keyed-perm (Permᴰ.cons {b = b} e p) (fresh, h) = rw e (has_row-perm b.id p ∙ fresh, Keyed-perm p h)
Keyed-perm (Permᴰ.swap {l = l} e f) (a, (b, h)) =
    let p = ap (λ m. m.id) e in
    let q = ap (λ m. m.id) f in
    let x = ap (λ n. has_row n l) p in
    let y = ap (λ n. has_row n l) q in (ground (arith, p, q, x, y), (ground (arith, y), h))
Keyed-perm (Permᴰ.trans p q) h = Keyed-perm p (Keyed-perm q h)

has_row-filter :
    (k : ℕ) (p : Message → Bool) (ms : List Message)
    → has_row k ms ≡ false
    → has_row k (filter p ms) ≡ false
has_row-filter k p [] h = refl
has_row-filter k p (m ∷ ms) h = ground (arith, has_row-filter k p ms)

pub Keyed-filter : (p : Message → Bool) (ms : List Message) → Keyed ms → Keyed (filter p ms)
Keyed-filter p [] h = tt
Keyed-filter p (m ∷ ms) (fresh, h) = elim (Bool-cases (p m)) [
  | inl e ↦ rw e (has_row-filter m.id p ms fresh, Keyed-filter p ms h)
  | inr e ↦ rw e (Keyed-filter p ms h)
]

has_row-left : (k : ℕ) (xs ys : List Message) → has_row k (xs ++ ys) ≡ false → has_row k xs ≡ false
has_row-left k [] ys h = refl
has_row-left k (x ∷ xs) ys h = ground (arith, has_row-left k xs ys)

Keyed-left : (xs ys : List Message) → Keyed (xs ++ ys) → Keyed xs
Keyed-left [] ys h = tt
Keyed-left (x ∷ xs) ys (fresh, h) = (has_row-left x.id xs ys fresh, Keyed-left xs ys h)

apart_of : (k : ℕ) (ms : List Message) → has_row k ms ≡ false → All (λ n. n.id ≢ k) ms
apart_of k [] h = tt
apart_of k (m ∷ ms) h = (ground (arith, ==_iff m.id k), apart_of k ms (ground arith))

Keyed-Distinct : (ms : List Message) → Keyed ms → Distinct ms
Keyed-Distinct [] h = tt
Keyed-Distinct (m ∷ ms) (fresh, h) = (apart_of m.id ms fresh, Keyed-Distinct ms h)

has_row-marked : (n k : ℕ) (ms : List Message) → has_row k (marked n ms) ≡ has_row k ms
has_row-marked n k [] = refl
has_row-marked n k (m ∷ ms) = ground (arith, has_row-marked n k ms)

id-updated : (n : ℕ) (m : Message) → (updated (mark_update n) m).id ≡ m.id
id-updated n m = ground arith

pub Keyed-marked : (n : ℕ) (ms : List Message) → Keyed ms → Keyed (marked n ms)
Keyed-marked n [] h = tt
Keyed-marked n (m ∷ ms) (fresh, h) = (
  ap (λ k. has_row k (marked n ms)) (id-updated n m) ∙ has_row-marked n m.id ms ∙ fresh,
  Keyed-marked n ms h,
)

module _ {W : Type 0} (db : Db W) (h : IsPostgres db) (w : W) (keyed : Keyed (h.table w)) where
  pub get_unsent_messages-Keyed : (limit : ℕ) → Keyed (h.table (get_unsent_messages db limit w).1)
  get_unsent_messages-Keyed limit = subst Keyed (sym (table-get_unsent_messages db h limit w)) keyed

  pub mark_as_sent-Keyed : (n : ℕ) → Keyed (h.table (mark_as_sent db n w).1)
  mark_as_sent-Keyed n = elim (table-mark_as_sent db h n w) [
    | inl same ↦ subst Keyed (sym same) keyed
    | inr changed ↦ subst Keyed (sym changed) (Keyed-marked n (h.table w) keyed)
  ]

  -- If no key comes twice in the table, then none comes twice in a batch.
  pub get_unsent_messages-Distinct :
      (limit : ℕ) (ms : List Message) → (get_unsent_messages db limit w).0 ≡ ok ms → Distinct ms
  get_unsent_messages-Distinct limit ms e =
      let (rest, perm, _, _, _) = (get_unsent_messages_lem db h limit w ms e).1 in
      Keyed-Distinct ms (Keyed-left ms rest (Keyed-perm perm (Keyed-filter _ (h.table w) keyed)))
