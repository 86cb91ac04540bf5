-- ===== src/Repository/Postgres/Order.antt =====
-- The order of the queue: with keys that are kept apart it has only one sorted list.
use mathlib.Core.List.{Permᴰ}
use mathlib.Core.List.Permᴰ
use mathlib.Core.Bool.{false≢true}
use go_message_dispatcher.Base.{
  ◌≡◌, refl, sym, ap, ◌∙◌, inl, inr, Bool, true, List, [], ◌∷◌, arith, All, All-map, ◌<◌, ◌≤◌, ◌⊎◌,
  ◌↔◌, All-Elem, Elem, filter, Bool-cases,
}
use go_message_dispatcher.Domain.{Message}
use go_message_dispatcher.Repository.Postgres.{fifo}
use go_message_dispatcher.Repository.Postgres.Server.{Sorted}
use go_message_dispatcher.Repository.Postgres.Queue.{All-perm}
use go_message_dispatcher.Repository.Postgres.Marking.{has_row}
use go_message_dispatcher.Repository.Postgres.Fresh.{Keyed, has_row-Elem}
use go_message_dispatcher.Repository.Postgres.Keys.{Keyed-perm}

-- `a` was created before `b`, or at the same time with a key that is not larger.
abbrev pub Earlier : Message → Message → Type 0
Earlier a b = (a.created_at < b.created_at) ⊎ ((a.created_at ≡ b.created_at) × (a.id ≤ b.id))

pub fifo_iff : (a b : Message) → (fifo a b ≡ true) ↔ Earlier a b
unfolding fifo
fifo_iff a b = ground arith

-- The oldest first.
abbrev pub Ordered : List Message → Type 0
Ordered [] = Unit
Ordered (m ∷ ms) = All (λ n. Earlier m n) ms × Ordered ms

pub Ordered-Sorted : (ms : List Message) → Ordered ms → Sorted fifo ms
Ordered-Sorted [] h = tt
Ordered-Sorted (m ∷ ms) (first, rest) =
    (All-map (λ n e. (fifo_iff m n).1 e) ms first, Ordered-Sorted ms rest)

pub Sorted-Ordered : (ms : List Message) → Sorted fifo ms → Ordered ms
Sorted-Ordered [] h = tt
Sorted-Ordered (m ∷ ms) (first, rest) =
    (All-map (λ n e. (fifo_iff m n).0 e) ms first, Sorted-Ordered ms rest)

fifo_both : (a b : Message) → fifo a b ≡ true → fifo b a ≡ true → a.id ≡ b.id
unfolding fifo
fifo_both a b h g = ground arith

pub All-at : (P : Message → Type 0) (m : Message) (xs : List Message) → All P xs → Elem m xs → P m
All-at P m [] h e = absurd e
All-at P m (x ∷ xs) (h, hs) (inl e) = rw e h
All-at P m (x ∷ xs) (h, hs) (inr e) = All-at P m xs hs e

pub Elem-perm : {xs ys : List Message} (m : Message) → Permᴰ xs ys → Elem m xs → Elem m ys
Elem-perm {xs} {ys} m p e =
    All-at _ m xs (All-perm (λ x. Elem x ys) p (All-Elem ys (λ x place. place))) e

-- An element of a list of different keys that has the key of the first is the first.
is_first :
    (m x : Message) (xs : List Message) → Keyed (x ∷ xs) → Elem m (x ∷ xs) → m.id ≡ x.id → m ≡ x
is_first m x xs k (inl e) same = e
is_first m x xs (fresh, k) (inr e) same =
    absurd (false≢true (sym fresh ∙ ap (λ n. has_row n xs) (sym same) ∙ has_row-Elem m xs e))

ahead_of_all :
    (x m : Message) (xs : List Message) → Sorted fifo (x ∷ xs) → Elem m (x ∷ xs) → fifo x m ≡ true
unfolding fifo
ahead_of_all x m xs (first, s) (inl e) = rw e (ground arith)
ahead_of_all x m xs (first, s) (inr e) = All-at _ m xs first e

-- What is in the rest of one list is in the rest of the other.
in_tail :
    (x : Message) (xs ys : List Message)
    → Keyed (x ∷ xs)
    → ((m : Message) → Elem m (x ∷ xs) → Elem m (x ∷ ys))
    → (m : Message) → Elem m xs
    → Elem m ys
in_tail x xs ys (fresh, k) f m place = elim (f m (inr place)) [
  | inl same ↦
      absurd
        (false≢true (sym fresh ∙ ap (λ n. has_row n.id xs) (sym same) ∙ has_row-Elem m xs place))
  | inr later ↦ later
]

-- Two sorted lists of different keys that have the same elements are the same.
sorted_unique :
    (xs ys : List Message)
    → Sorted fifo xs
    → Sorted fifo ys
    → Keyed xs
    → Keyed ys
    → ((m : Message) → Elem m xs → Elem m ys)
    → ((m : Message) → Elem m ys → Elem m xs)
    → xs ≡ ys
sorted_unique [] [] s t k d f g = refl
sorted_unique [] (y ∷ ys) s t k d f g = absurd (g y (inl refl))
sorted_unique (x ∷ xs) [] s t k d f g = absurd (f x (inl refl))
sorted_unique (x ∷ xs) (y ∷ ys) s t k d f g =
    let x_in = f x (inl refl) in
    let y_in = g y (inl refl) in
    let same : x ≡ y =
      is_first x y ys d x_in
        (fifo_both x y (ahead_of_all x y xs s y_in) (ahead_of_all y x ys t x_in)) in
    let k' : Keyed (y ∷ xs) = rw same at k in
    let f' : (m : Message) → Elem m (y ∷ xs) → Elem m (y ∷ ys) = rw same at f in
    let g' : (m : Message) → Elem m (y ∷ ys) → Elem m (y ∷ xs) = rw same at g in
    rw same (
      ap (λ l. y ∷ l)
        (sorted_unique xs ys s.1 t.1 k.1 d.1 (in_tail y xs ys k' f') (in_tail y ys xs d g')))

-- A sorted list of rows with different keys is the only sorted permutation of them.
pub sorted_perm :
    {xs ys zs : List Message}
    → Permᴰ xs zs
    → Permᴰ ys zs
    → Sorted fifo xs
    → Sorted fifo ys
    → Keyed zs
    → xs ≡ ys
sorted_perm {xs} {ys} p q s t k =
    sorted_unique xs ys s t (Keyed-perm p k) (Keyed-perm q k)
      (λ m e. Elem-perm m (Permᴰ.symm q) (Elem-perm m p e))
      (λ m e. Elem-perm m (Permᴰ.symm p) (Elem-perm m q e))

filter-swap :
    (p : Message → Bool) (a b : Message) (l : List Message)
    → Permᴰ (filter p (a ∷ b ∷ l)) (filter p (b ∷ a ∷ l))
filter-swap p a b l = elim (Bool-cases (p a)) [
  | inl x ↦ elim (Bool-cases (p b)) [
    | inl y ↦ rw (x, y) (Permᴰ.swap refl refl)
    | inr y ↦ rw (x, y) (Permᴰ.refl (a ∷ filter p l))
  ]
  | inr x ↦ rw x (Permᴰ.refl _)
]

pub filter-perm :
    (p : Message → Bool) {xs ys : List Message} → Permᴰ xs ys → Permᴰ (filter p xs) (filter p ys)
filter-perm p Permᴰ.nil = Permᴰ.nil
filter-perm p (Permᴰ.cons {b = b} e q) = elim (Bool-cases (p b)) [
  | inl on ↦ rw (e, on) (Permᴰ.cons refl (filter-perm p q))
  | inr off ↦ rw (e, off) (filter-perm p q)
]
filter-perm p (Permᴰ.swap {l = l} e f) = rw (e, f) (filter-swap p _ _ l)
filter-perm p (Permᴰ.trans q r) = Permᴰ.trans (filter-perm p q) (filter-perm p r)
