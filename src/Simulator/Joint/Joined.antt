-- ===== src/Simulator/Joint/Joined.antt =====
-- `run` outlives the publisher of the labels, and waits for it no longer than it runs.
use mathlib.Core.List.{append-nil}
use learn_go_project.Prelude.{
  ltb, ◌&&◌, not, Bool-cases, inl, inr, ◌≡◌, refl, sym, ◌∙◌, true, false, Option, none, some, List,
  [], ◌∷◌, length, arith,
}
use learn_go_project.Errors.{Error}
use learn_go_project.Domain.{FraudLabel}
use learn_go_project.Simulator.Joint.{
  Main, emitting, offering, stopping, joining, returning, finished, Publisher, receiving, holding,
  exited, Joint, queue_capacity, Step, complete, offer_failed, queue_label, close, join, return,
  receive, exhaust, publish, Reachable,
}
use learn_go_project.Simulator.Joint.Invariant.{
  has_exited, has_joined, has_finished, is_empty, IsJoined, Reachable-IsOrderly,
}

-- The producer is closed only when the publisher of the labels has returned, so none is sent through
-- a closed client.
pub Reachable-has_exited :
    {s : Joint} → Reachable s → s.is_producer_closed ≡ true → has_exited s.publisher ≡ true
Reachable-has_exited r closed =
    let h = (Reachable-IsOrderly r).joined in h.ended (h.closed_last closed)

-- When `run` is about to return without an error and the context was not cancelled, every label that
-- was queued has been published, in the order in which it was queued.
pub Reachable-published :
    {s : Joint}
    → Reachable s
    → s.main ≡ returning none
    → s.is_cancelled ≡ false
    → s.published ≡ s.queued
Reachable-published {s} r at running =
    let h = Reachable-IsOrderly r in
    let d = h.faithful.success (rw at refl) running in
    sym (h.carried ∙ rw (d.nothing_queued, d.nothing_held) (append-nil s.published))

-- Some step is possible.
abbrev pub CanProceed : Joint → Type 0
CanProceed s = (t : Joint) × Step s t

module _ (s : Joint) (h : IsJoined s) where
  -- The publisher can go on, unless its result is there or its queue is empty and open.
  publisher_proceeds :
      (p : Publisher) (q : List FraudLabel)
      → s.publisher ≡ p
      → s.queue ≡ q
      → has_joined s.main ≡ false
      → s.result ≡ none
      → is_empty q && not s.is_closed ≡ false
      → CanProceed s
  publisher_proceeds receiving [] at nothing waits silent busy =
      (_, exhaust at nothing (ground arith))
  publisher_proceeds receiving (l ∷ rest) at first waits silent busy = (_, receive l rest at first)
  publisher_proceeds (holding l) q at first waits silent busy = (_, publish l at)
  publisher_proceeds (exited l) q at first waits silent busy = absurd (ground (arith, h.unread))

  main_proceeds :
      (m : Main) (r : Option (Option Error))
      → s.main ≡ m
      → s.result ≡ r
      → has_finished m ≡ false
      → CanProceed s
  main_proceeds emitting r at e running = (_, complete at)
  main_proceeds (offering l) (some e) at e' running = (_, offer_failed l e at e')
  main_proceeds (offering l) none at silent running =
      elim (Bool-cases (ltb (length s.queue) queue_capacity)) [
        | inl room ↦ (_, queue_label l at (ground (arith, room)))
        | inr full ↦
            publisher_proceeds s.publisher s.queue refl refl (rw at refl) silent
              (not_empty s.queue full)
      ]
    where
      not_empty :
          (q : List FraudLabel)
          → ltb (length q) queue_capacity ≡ false
          → is_empty q && not s.is_closed ≡ false
      not_empty [] full = absurd (ground (arith, full))
      not_empty (l ∷ rest) full = refl
  main_proceeds (stopping cause) r at e running = (_, close cause at)
  main_proceeds (joining cause) (some r) at got running = (_, join cause r at got)
  main_proceeds (joining cause) none at silent running =
      publisher_proceeds s.publisher s.queue refl refl (rw at refl) silent (ground (arith, h.shut))
  main_proceeds (returning r) q at e running = (_, return r at)
  main_proceeds (finished r) q at e running = absurd (ground arith)

-- The two are never stuck: until `run` has returned, one of them can take a step.
pub Reachable-CanProceed : {s : Joint} → Reachable s → has_finished s.main ≡ false → CanProceed s
Reachable-CanProceed {s} r running =
    main_proceeds s (Reachable-IsOrderly r).joined s.main s.result refl refl running
