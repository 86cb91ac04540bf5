-- ===== src/Fleet/Invariant.antt =====
-- What holds of a fleet at all times, and that each step keeps it.
use go_message_dispatcher.Base.{
  ℕ, ◌≡◌, refl, ◌∙◌, sym, ap, Bool, true, false, Option, none, some, List, [], ◌∷◌, ◌++◌, Elem,
  ◌==◌, Bool-cases, inl, inr, Text, All, All-map, Result, ok, err,
}
use mathlib.Core.Bool.{false≢true}
use mathlib.Core.Path.{subst}
use go_message_dispatcher.Domain.{Message}
use go_message_dispatcher.Redis.{RedisClient, IsRedis}
use go_message_dispatcher.Lock.{Locked, acquire, release, extend}
use go_message_dispatcher.Lock.Cluster.{view, put, update}
use go_message_dispatcher.Service.{Service, batch_size}
use go_message_dispatcher.Service.Ledger.{Outgoing, Distinct, IsLedger}
use go_message_dispatcher.Service.Batch.{outgoing}
use go_message_dispatcher.Fleet.{
  Fleet, History, batch_of, moved, taken, fetched, freed, renewed, Outer,
}
use go_message_dispatcher.Fleet.Shared.{SameLedger, IsShared}

-- No attempt for the message with that key has succeeded.
abbrev pub Clean : ℕ → History → Type 0
Clean n older = All (λ e. e.0.id ≡ n → e.1 ≡ false) older

-- All attempts for a message that are older than another one have failed.
abbrev pub Settled : History → Type 0
Settled [] = Unit
Settled ((m, done) ∷ older) = Clean m.id older × Settled older

-- What has been handed to the provider, in order.
abbrev pub texts : History → List Outgoing
texts [] = []
texts ((m, done) ∷ older) = texts older ++ outgoing m ∷ []

pub same_batch : {a b : List Message} → some a ≡ some b → a ≡ b
same_batch e = cc

module _ {W : Type 0} (c : RedisClient W) (h : IsRedis c) (key : Text) (s : Service W)
    (l : IsLedger s) (Good : W → Type 0) where
  -- A batch of different messages, none of which has been processed.
  abbrev pub Pending : History → List Message → Type 0
  Pending hs ms = All (λ m. Clean m.id hs) ms × Distinct ms

  pub record Inv (before : List Outgoing) (f : Fleet W) : Type 0 where
    pub good : Good f.cluster.world
    pub marked : All (λ e. e.1 ≡ true → l.sent f.cluster.world e.0.id ≡ true) f.history
    pub delivered :
        All (λ e. e.1 ≡ true → Elem (outgoing e.0) (l.accepted f.cluster.world)) f.history
    pub settled : Settled f.history
    pub logged : l.attempts f.cluster.world ≡ before ++ texts f.history
    pub pending :
        (i : ℕ) (ms : List Message)
        → f.cluster.busy i ≡ true
        → f.todo i ≡ some ms
        → Pending f.history ms

  -- The batch of one instance changes, and those of the others stay.
  pub Pending-update :
      (todo : ℕ → Option (List Message)) (busy : ℕ → Bool) (i : ℕ) (x : Option (List Message))
      (hs : History)
      → ((ms : List Message) → x ≡ some ms → Pending hs ms)
      → ((j : ℕ) (ms : List Message)
          → (j == i) ≡ false
          → busy j ≡ true
          → todo j ≡ some ms
          → Pending hs ms)
      → (j : ℕ) (ms : List Message) → busy j ≡ true
      → update todo i x j ≡ some ms
      → Pending hs ms
  Pending-update todo busy i x hs own others j ms on e = elim (Bool-cases (j == i)) [
    | inl same ↦ own ms (rw same at e)
    | inr other ↦ others j ms other on (rw other at e)
  ]

  -- The history stays while the world goes on.
  pub on_world :
      {before : List Outgoing} {f g : Fleet W}
      → Inv before f
      → g.history ≡ f.history
      → l.attempts g.cluster.world ≡ l.attempts f.cluster.world
      → ((o : Outgoing) → Elem o (l.accepted f.cluster.world) → Elem o (l.accepted g.cluster.world))
      → ((n : ℕ) → l.sent f.cluster.world n ≡ true → l.sent g.cluster.world n ≡ true)
      → (Good f.cluster.world → Good g.cluster.world)
      → ((i : ℕ) (ms : List Message)
          → g.cluster.busy i ≡ true
          → g.todo i ≡ some ms
          → Pending f.history ms)
      → Inv before g
  on_world {before} {f} {g} inv same attempts accepted kept good pending = record {
    good = good inv.good;
    marked = rw same (All-map (λ e was done. kept e.0.id (was done)) f.history inv.marked);
    delivered =
        rw same
          (All-map (λ e was done. accepted (outgoing e.0) (was done)) f.history inv.delivered);
    settled = rw same inv.settled;
    logged = attempts ∙ inv.logged ∙ rw same refl;
    pending = rw same pending;
  }

  -- The calls of the lock leave the table and the provider alone.
  module _ (k : IsShared c h key s l Good) (t : Locked W) where
    SameLedger-refl : SameLedger c h key s l Good t.world t.world
    SameLedger-refl = record { attempts = refl; accepted = refl; sent = refl; good = λ g. g }

    acquire-SameLedger : SameLedger c h key s l Good t.world (acquire c t).1.world
    unfolding acquire
    acquire-SameLedger = k.set_nx-SameLedger _ _ _ t.world

    release-SameLedger : SameLedger c h key s l Good t.world (release c t).1.world
    unfolding release
    release-SameLedger = elim (Bool-cases t.lock.acquired) [
      | inl on ↦ simp on (k.eval-SameLedger _ _ _ _ t.world)
      | inr off ↦ simp off SameLedger-refl
    ]

    extend-SameLedger : SameLedger c h key s l Good t.world (extend c t).1.world
    unfolding extend
    extend-SameLedger = elim (Bool-cases t.lock.acquired) [
      | inl on ↦ simp on (k.eval-SameLedger _ _ _ _ t.world)
      | inr off ↦ simp off SameLedger-refl
    ]

  module _ (k : IsShared c h key s l Good) {before : List Outgoing} (f : Fleet W)
      (inv : Inv before f) where
    -- A call of the lock of instance `i`, which then has no batch that it has read.
    on_lock :
        (i : ℕ) (t : Locked W) (working : Bool) (todo : ℕ → Option (List Message))
        → SameLedger c h key s l Good f.cluster.world t.world
        → ((j : ℕ) (ms : List Message)
            → update f.cluster.busy i working j ≡ true
            → todo j ≡ some ms
            → Pending f.history ms)
        → Inv before (record f { cluster = put f.cluster i t working; todo = todo })
    on_lock i t working todo same pending =
        on_world inv refl same.attempts (λ o had. subst (Elem o) (sym same.accepted) had)
          (λ n on. ap (λ r. r n) same.sent ∙ on) same.good pending

    others_wait :
        (i : ℕ) (b : Bool) (j : ℕ) (ms : List Message)
        → (j == i) ≡ false
        → update f.cluster.busy i b j ≡ true
        → f.todo j ≡ some ms
        → Pending f.history ms
    others_wait i b j ms other on = inv.pending j ms (rw other at on)

    released-Pending :
        (i : ℕ) (b : Bool) (j : ℕ) (ms : List Message)
        → update f.cluster.busy i b j ≡ true
        → update f.todo i none j ≡ some ms
        → Pending f.history ms
    released-Pending i b =
        Pending-update f.todo (update f.cluster.busy i b) i none f.history (λ ms e. absurd (cc))
          (others_wait i b)

    pub takes-Inv : (i : ℕ) → Inv before (taken c s f i)
    takes-Inv i =
        on_lock i _ _ (update f.todo i none) (acquire-SameLedger k (view f.cluster i))
          (released-Pending i _)

    pub frees-Inv : (i : ℕ) → Inv before (freed c s f i)
    frees-Inv i =
        on_lock i _ _ (update f.todo i none) (release-SameLedger k (view f.cluster i))
          (released-Pending i _)

    still_busy : (i j : ℕ) → update f.cluster.busy i false j ≡ true → f.cluster.busy j ≡ true
    still_busy i j on = elim (Bool-cases (j == i)) [
      | inl same ↦ absurd (false≢true (rw same at on))
      | inr other ↦ rw other at on
    ]

    pub renews-Inv : (i : ℕ) → Inv before (renewed c s f i)
    renews-Inv i =
        on_lock i _ _ f.todo (extend-SameLedger k (view f.cluster i))
          (λ j ms on e. inv.pending j ms (still_busy i j on) e)

    pub Outer-Inv :
        (w : W)
        → Outer c h key s l Good f.cluster.world w
        → Inv before (record f { cluster = moved f.cluster w })
    Outer-Inv w o = on_world inv refl o.attempts o.accepted o.kept o.good inv.pending

    -- The row of a message is unmarked, so no attempt for it has succeeded.
    Clean-unmarked : (n : ℕ) → l.sent f.cluster.world n ≡ false → Clean n f.history
    Clean-unmarked n unmarked =
        All-map
          (λ e was same. elim (Bool-cases e.1) [
            | inl done ↦
                absurd
                  (false≢true (sym unmarked ∙ ap (l.sent f.cluster.world) (sym same) ∙ was done))
            | inr failed ↦ failed
          ])
          f.history inv.marked

    read-Pending :
        (r : Result (List Message))
        → (s.message_repo.get_unsent_messages batch_size f.cluster.world).0 ≡ r
        → Pending f.history (batch_of r)
    read-Pending (ok ms) e =
        let (unmarked, distinct) = k.select-fresh f.cluster.world ms inv.good e in
        (All-map (λ m u. Clean-unmarked m.id u) ms unmarked, distinct)
    read-Pending (err x) e = (tt, tt)

    pub reads-Inv : (i : ℕ) → Inv before (fetched c s f i)
    reads-Inv i =
        let world = f.cluster.world in
        let r = (s.message_repo.get_unsent_messages batch_size world).0 in
        on_world inv refl (l.attempts-select _ world)
          (λ o had. subst (Elem o) (sym (l.accepted-select _ world)) had)
          (λ n on. ap (λ t. t n) (l.sent-select _ world) ∙ on) (k.select-good world)
          (Pending-update f.todo f.cluster.busy i (some (batch_of r)) f.history
            (λ ms e. subst (Pending f.history) (same_batch e) (read-Pending r refl))
            (λ j ms other on e. inv.pending j ms on e))
