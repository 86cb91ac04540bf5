-- ===== src/Scheduler/Lifecycle/Return.antt =====
-- A `Stop` of a polite caller can always return.
use go_message_dispatcher.Base.{◌<◌, ◌≡◌, ap, ◌∙◌, Bool-cases, inl, inr, true, List, [], ◌∷◌, arith}
use go_message_dispatcher.Scheduler.Lifecycle.{
  Worker, busy, selecting, Life, idle, batch_done, returned, Within, stays, goes, moves,
}
use go_message_dispatcher.Scheduler.Lifecycle.Sequential.{
  PoliteReach, Current, PoliteReach-Inv, idle-Inv,
}

abbrev with_workers : Life → List Worker → Life
with_workers s ws = record s { workers = ws }

-- The workers of a waiting `Stop` of a polite caller can all return, within two moves.
without_workers :
    (s : Life) (ws : List Worker)
    → Current s.made ws
    → s.cancelled s.made ≡ true
    → Within 2 (with_workers s ws) (with_workers s [])
without_workers s [] c gone = stays
without_workers s (busy ∷ []) c gone = goes (moves batch_done) (goes (moves (returned gone)) stays)
without_workers s (busy ∷ p ∷ ws) c gone = absurd (cc)
without_workers s (selecting n ∷ []) (c, e) gone =
    goes (moves (returned (ap s.cancelled e ∙ gone))) stays
without_workers s (selecting n ∷ p ∷ ws) (c, e) gone = absurd (cc)

pub workers_can_return :
    (s : Life) → PoliteReach idle s → 0 < s.waiting → Within 2 s (record s { workers = [] })
workers_can_return s r some_wait = elim (Bool-cases s.running) [
  | inl on ↦ absurd (omega (arith, ((PoliteReach-Inv r idle-Inv).live on).1))
  | inr off ↦
      let inv = PoliteReach-Inv r idle-Inv in
      without_workers s s.workers inv.current (inv.ending off some_wait).1
]
