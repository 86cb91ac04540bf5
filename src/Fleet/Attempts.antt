-- ===== src/Fleet/Attempts.antt =====
-- The steps of a fleet that hand a message to the provider, and those in which an instance dies.
use go_message_dispatcher.Base.{
  ℕ, ◌≡◌, refl, ◌∙◌, sym, ap, Bool, true, false, some, List, [], ◌∷◌, ◌++◌, Elem, Elem-append_left,
  Elem-append_right, ◌==◌, ==_iff, Bool-cases, inl, inr, Text, All-map, All-both, is_ok,
}
use mathlib.Core.Bool.{false≢true}
use mathlib.Core.Path.{subst}
use mathlib.Core.List.{append_assoc}
use go_message_dispatcher.Domain.{Message}
use go_message_dispatcher.Redis.{RedisClient, IsRedis}
use go_message_dispatcher.Lock.Cluster.{update}
use go_message_dispatcher.Service.{Service, send, process_single_message}
use go_message_dispatcher.Service.Ledger.{Outgoing, IsLedger}
use go_message_dispatcher.Service.Batch.{
  outgoing, marking, single-Growth, attempts-single, kept-marking, sent-marking, kept-after_send,
  accepted-after_send,
}
use go_message_dispatcher.Service.Loop.{single_ok}
use go_message_dispatcher.Fleet.{Fleet, History, handled, crashed, cut_unmarked, cut_uncached}
use go_message_dispatcher.Fleet.Shared.{IsShared}
use go_message_dispatcher.Fleet.Invariant.{
  Clean, texts, same_batch, Pending, Pending-update, Inv, on_world,
}

module _ {W : Type 0} (c : RedisClient W) (h : IsRedis c) (key : Text) (s : Service W)
    (l : IsLedger s) (Good : W → Type 0) (k : IsShared c h key s l Good) {before : List Outgoing}
    (f : Fleet W) (inv : Inv c h key s l Good before f) where
  abbrev Waiting : History → List Message → Type 0
  Waiting = Pending c h key s l Good

  abbrev Kept : Fleet W → Type 0
  Kept = Inv c h key s l Good before

  -- The instance that has died is not busy, and the others have what they had.
  still_alive :
      (i j : ℕ)
      → update f.cluster.busy i false j ≡ true
      → ((j == i) ≡ false) × (f.cluster.busy j ≡ true)
  still_alive i j on = elim (Bool-cases (j == i)) [
    | inl same ↦ absurd (false≢true (rw same at on))
    | inr other ↦ (other, rw other at on)
  ]

  pub crashes-Inv : (i : ℕ) → Kept (crashed s f i)
  crashes-Inv i =
      on_world c h key s l Good inv refl refl (λ o had. had) (λ n on. on) (λ g. g)
        (λ j ms on e.
          let (other, busy) = still_alive i j on in inv.pending j ms busy (rw other at e))

  -- A message of which no attempt has succeeded is handed to the provider. If the attempt is to count
  -- as one that has succeeded, its text is accepted and its row is marked.
  attempted :
      (g : Fleet W) (m : Message) (b : Bool)
      → Clean m.id f.history
      → g.history ≡ (m, b) ∷ f.history
      → Good g.cluster.world
      → l.attempts g.cluster.world ≡ l.attempts f.cluster.world ++ outgoing m ∷ []
      → ((o : Outgoing) → Elem o (l.accepted f.cluster.world) → Elem o (l.accepted g.cluster.world))
      → (b ≡ true → Elem (outgoing m) (l.accepted g.cluster.world))
      → ((n : ℕ) → l.sent f.cluster.world n ≡ true → l.sent g.cluster.world n ≡ true)
      → (b ≡ true → l.sent g.cluster.world m.id ≡ true)
      → ((i : ℕ) (ms : List Message)
          → g.cluster.busy i ≡ true
          → g.todo i ≡ some ms
          → Waiting ((m, b) ∷ f.history) ms)
      → Kept g
  attempted g m b clean longer good added held taken kept done pending = record {
    good = good;
    marked = rw longer (done, All-map (λ e was on. kept e.0.id (was on)) f.history inv.marked);
    delivered =
        rw longer
          (taken, All-map (λ e was on. held (outgoing e.0) (was on)) f.history inv.delivered);
    settled = rw longer (clean, inv.settled);
    logged =
        added
        ∙ ap (λ t. t ++ outgoing m ∷ []) inv.logged
        ∙ append_assoc before (texts f.history) (outgoing m ∷ [])
        ∙ rw longer refl;
    pending = rw longer pending;
  }

  module _ (only : (i j : ℕ) → f.cluster.busy i ≡ true → f.cluster.busy j ≡ true → i ≡ j) (i : ℕ)
      (m : Message) (ms : List Message) (on : f.cluster.busy i ≡ true)
      (e : f.todo i ≡ some (m ∷ ms)) where
    -- No other instance has a batch.
    no_other : {A : Type 0} (j : ℕ) → (j == i) ≡ false → f.cluster.busy j ≡ true → A
    no_other j other busy = absurd (false≢true (sym other ∙ (==_iff j i).1 (only j i busy on)))

    rest-Pending : (b : Bool) → Waiting ((m, b) ∷ f.history) ms
    rest-Pending b =
        let ((clean, cleans), (apart, distinct)) = inv.pending i (m ∷ ms) on e in
        (All-both (λ n c d. ((λ same. absurd (d (sym same))), c)) ms cleans apart, distinct)

    next-Clean : Clean m.id f.history
    next-Clean = (inv.pending i (m ∷ ms) on e).0.0

    pub sends-Inv : Kept (handled c s f i m ms)
    sends-Inv =
        let w = f.cluster.world in
        let b = is_ok (process_single_message s m w).0 in
        attempted (handled c s f i m ms) m b next-Clean refl (k.single-good m w inv.good)
          (attempts-single s l m w)
          (λ o had. rw (single-Growth s l m w).grown (Elem-append_left o _ _ had))
          (λ done. rw (single_ok s l m w done).0 (Elem-append_right _ (l.accepted w) _ (inl refl)))
          (single-Growth s l m w).kept (λ done. (single_ok s l m w done).1)
          (Pending-update c h key s l Good f.todo f.cluster.busy i (some ms) ((m, b) ∷ f.history)
            (λ ms' e'. subst (Waiting ((m, b) ∷ f.history)) (same_batch e') (rest-Pending b))
            (λ j ms' other busy e'. no_other j other busy))

    none_busy : {A : Type 0} (j : ℕ) → update f.cluster.busy i false j ≡ true → A
    none_busy j at_work = let (other, busy) = still_alive i j at_work in no_other j other busy

    pub cuts_unmarked-Inv : Kept (cut_unmarked s f i m)
    cuts_unmarked-Inv =
        let w = f.cluster.world in
        attempted (cut_unmarked s f i m) m false next-Clean refl (k.send-good m w inv.good)
          (l.attempts-send _ _ w) (λ o had. kept-after_send s l m w o had) (λ x. cc)
          (λ n was. ap (λ r. r n) (l.sent-send _ _ w) ∙ was) (λ x. cc)
          (λ j ms' at_work e'. none_busy j at_work)

    pub cuts_uncached-Inv : is_ok (send s m f.cluster.world).0 ≡ true → Kept (cut_uncached s f i m)
    cuts_uncached-Inv sent =
        let w = f.cluster.world in
        attempted (cut_uncached s f i m) m (is_ok (marking s m w).0) next-Clean refl
          (k.mark-good m.id _ (k.send-good m w inv.good))
          (l.attempts-mark _ _ ∙ l.attempts-send _ _ w)
          (λ o had. rw l.accepted-mark (kept-after_send s l m w o had))
          (λ done. rw l.accepted-mark (accepted-after_send s l m w sent)) (kept-marking s l m w)
          (sent-marking s l m w) (λ j ms' at_work e'. none_busy j at_work)
