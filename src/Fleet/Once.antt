-- ===== src/Fleet/Once.antt =====
-- A message that has been processed without an error is never handed to the provider again.
use go_message_dispatcher.Base.{ℕ, ◌≡◌, ◌∙◌, sym, true, List, [], ◌++◌, Text, All, Elem}
use mathlib.Core.Bool.{false≢true}
use mathlib.Core.List.{append-nil}
use go_message_dispatcher.Redis.{RedisClient, IsRedis}
use go_message_dispatcher.Lock.Cluster
use go_message_dispatcher.Lock.Cluster.{Cluster, view, put, update, IsStart}
use go_message_dispatcher.Lock.Cluster.Exclusion.{mutual_exclusion}
use go_message_dispatcher.Service.{Service}
use go_message_dispatcher.Service.Ledger.{Outgoing, IsLedger}
use go_message_dispatcher.Service.Batch.{outgoing}
use go_message_dispatcher.Fleet.{
  Fleet, Step, takes, reads, sends, frees, renews, crashes, cuts_unmarked, cuts_uncached, outside,
  lapses, Reach, here, next,
}
use go_message_dispatcher.Fleet.Shared.{IsShared}
use go_message_dispatcher.Fleet.Invariant.{
  Settled, texts, Inv, takes-Inv, frees-Inv, renews-Inv, Outer-Inv, reads-Inv,
}
use go_message_dispatcher.Fleet.Attempts.{
  sends-Inv, crashes-Inv, cuts_unmarked-Inv, cuts_uncached-Inv,
}

module _ {W : Type 0} (c : RedisClient W) (h : IsRedis c) (key : Text) (s : Service W)
    (l : IsLedger s) (Good : W → Type 0) where
  one : {s t : Cluster W} → Cluster.Step c h key s t → Cluster.Reach c h key s t
  one st = Cluster.next Cluster.here st

  -- The locks of a fleet go through the steps of `Lock.Cluster`.
  Step-cluster :
      IsShared c h key s l Good
      → {f g : Fleet W} → Step c h key s l Good f g
      → Cluster.Reach c h key f.cluster g.cluster
  Step-cluster k (takes i idle) = one (Cluster.begin i idle)
  Step-cluster k {f} (reads i on e) = one (Cluster.elsewhere _ (k.select-value f.cluster.world))
  Step-cluster k {f} (sends i m ms on e) =
      one (Cluster.elsewhere _ (k.single-value m f.cluster.world))
  Step-cluster k (frees i on e) = one (Cluster.finish i on)
  Step-cluster k (renews i idle) = one (Cluster.renew i idle)
  Step-cluster k (crashes i) = one (Cluster.crash i)
  Step-cluster k {f} (cuts_unmarked i m ms on e) =
      Cluster.next (one (Cluster.elsewhere _ (k.send-value m f.cluster.world))) (Cluster.crash i)
  Step-cluster k {f} (cuts_uncached i m ms on e sent) =
      Cluster.next
        (one (Cluster.elsewhere _ (k.mark-value m.id _ ∙ k.send-value m f.cluster.world)))
        (Cluster.crash i)
  Step-cluster k (outside w same o) = one (Cluster.elsewhere w same)
  Step-cluster k (lapses w gone outlived o) = one (Cluster.lapse w gone outlived)

  pub Reach-cluster :
      IsShared c h key s l Good
      → {f g : Fleet W} → Reach c h key s l Good f g
      → Cluster.Reach c h key f.cluster g.cluster
  Reach-cluster k here = Cluster.here
  Reach-cluster k (next r st) = Cluster.Reach-append c h key (Reach-cluster k r) (Step-cluster k st)

  -- Nothing runs, and nothing has been handed to the provider yet.
  pub record IsFresh (f : Fleet W) : Type 0 where
    pub start : IsStart c h key f.cluster
    pub good : Good f.cluster.world
    pub unused : f.history ≡ []

  abbrev Kept : List Outgoing → Fleet W → Type 0
  Kept = Inv c h key s l Good

  fresh-Inv : (f : Fleet W) → IsFresh f → Kept (l.attempts f.cluster.world) f
  fresh-Inv f fresh = record {
    good = fresh.good;
    marked = rw fresh.unused tt;
    delivered = rw fresh.unused tt;
    settled = rw fresh.unused tt;
    logged = rw (fresh.unused, append-nil);
    pending = λ i ms on. absurd (false≢true (sym (fresh.start.quiet i) ∙ on));
  }

  module _ (k : IsShared c h key s l Good) (f : Fleet W) (fresh : IsFresh f) where
    only_one :
        {g : Fleet W}
        → Reach c h key s l Good f g
        → (i j : ℕ) → g.cluster.busy i ≡ true
        → g.cluster.busy j ≡ true
        → i ≡ j
    only_one {g} r =
        (mutual_exclusion c h key f.cluster g.cluster fresh.start (Reach-cluster k r)).0

    Step-Inv :
        {before : List Outgoing} {g u : Fleet W}
        → ((i j : ℕ) → g.cluster.busy i ≡ true → g.cluster.busy j ≡ true → i ≡ j)
        → Step c h key s l Good g u
        → Kept before g
        → Kept before u
    Step-Inv {g = g} only (takes i idle) inv = takes-Inv c h key s l Good k g inv i
    Step-Inv {g = g} only (reads i on e) inv = reads-Inv c h key s l Good k g inv i
    Step-Inv {g = g} only (sends i m ms on e) inv =
        sends-Inv c h key s l Good k g inv only i m ms on e
    Step-Inv {g = g} only (frees i on e) inv = frees-Inv c h key s l Good k g inv i
    Step-Inv {g = g} only (renews i idle) inv = renews-Inv c h key s l Good k g inv i
    Step-Inv {g = g} only (crashes i) inv = crashes-Inv c h key s l Good k g inv i
    Step-Inv {g = g} only (cuts_unmarked i m ms on e) inv =
        cuts_unmarked-Inv c h key s l Good k g inv only i m ms on e
    Step-Inv {g = g} only (cuts_uncached i m ms on e sent) inv =
        cuts_uncached-Inv c h key s l Good k g inv only i m ms on e sent
    Step-Inv {g = g} only (outside w same o) inv = Outer-Inv c h key s l Good k g inv w o
    Step-Inv {g = g} only (lapses w gone outlived o) inv = Outer-Inv c h key s l Good k g inv w o

    Reach-Inv : {g : Fleet W} → Reach c h key s l Good f g → Kept (l.attempts f.cluster.world) g
    Reach-Inv here = fresh-Inv f fresh
    Reach-Inv (next r st) = Step-Inv (only_one r) st (Reach-Inv r)

    -- Whatever the interleaving of the calls of all instances and of the rest of the world, and
    -- whenever instances die, what the provider has been handed since the start is what the history
    -- tells, in order; in it, all attempts for a message that are older than another one have failed;
    -- and a message for which an attempt has succeeded has been accepted, and its row is marked.
    pub never_again :
        (g : Fleet W)
        → Reach c h key s l Good f g
        → (l.attempts g.cluster.world ≡ l.attempts f.cluster.world ++ texts g.history)
          × Settled g.history
          × All (λ e. e.1 ≡ true → Elem (outgoing e.0) (l.accepted g.cluster.world)) g.history
          × All (λ e. e.1 ≡ true → l.sent g.cluster.world e.0.id ≡ true) g.history
    never_again g r = let inv = Reach-Inv r in (inv.logged, inv.settled, inv.delivered, inv.marked)
