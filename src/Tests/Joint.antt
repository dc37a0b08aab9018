-- ===== src/Tests/Joint.antt =====
-- The two goroutines of the simulator at a concrete run: one label, and a clean end.
use learn_go_project.Prelude.{◌≡◌, refl, true, none, [], ◌∷◌, arith}
use learn_go_project.Simulator.Command.{stop_result}
use learn_go_project.Simulator.Joint.{
  Joint, both_started, emitting, returning, holding, exited, offer, complete, queue_label, close,
  join, return, receive, exhaust, publish, Reachable, at_start, after,
}
use learn_go_project.Simulator.Joint.Invariant.{has_exited}
use learn_go_project.Simulator.Joint.Joined.{
  CanProceed, Reachable-has_exited, Reachable-published, Reachable-CanProceed,
}
use learn_go_project.Tests.Sample.{fraud}

abbrev waiting : Joint
waiting = record both_started { main = emitting; publisher = holding fraud; queued = fraud ∷ [] }

waiting-Reachable : Reachable waiting
waiting-Reachable =
    after (after (after at_start (offer fraud refl)) (queue_label fraud refl (omega arith)))
      (receive fraud [] refl refl)

abbrev joined : Joint
joined = record both_started {
  main = returning none;
  publisher = exited none;
  is_closed = true;
  queued = fraud ∷ [];
  published = fraud ∷ [];
}

joined-Reachable : Reachable joined
unfolding stop_result
joined-Reachable =
    after
      (after
        (after (after (after waiting-Reachable (publish fraud refl)) (complete refl))
          (close none refl))
        (exhaust refl refl refl))
      (join none none refl refl)

Reachable-published_example : joined.published ≡ joined.queued
Reachable-published_example = Reachable-published joined-Reachable refl refl

Reachable-has_exited_example : has_exited joined.publisher ≡ true
Reachable-has_exited_example = Reachable-has_exited (after joined-Reachable (return none refl)) refl

Reachable-CanProceed_example : CanProceed waiting
Reachable-CanProceed_example = Reachable-CanProceed waiting-Reachable refl
