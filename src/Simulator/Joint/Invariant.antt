-- ===== src/Simulator/Joint/Invariant.antt =====
-- What the two goroutines of the simulator keep.
use mathlib.Core.List.{append_assoc}
use learn_go_project.Prelude.{
  ◌≡◌, refl, sym, ◌∙◌, ap, Bool, true, false, Option, none, some, List, [], ◌∷◌, ◌++◌, arith,
}
use learn_go_project.Errors.{Error}
use learn_go_project.Domain.{FraudLabel}
use learn_go_project.Simulator.Command.{stop_result, failed_result}
use learn_go_project.Simulator.Joint.{
  Main, emitting, offering, stopping, joining, returning, finished, Publisher, receiving, holding,
  exited, Joint, Step, offer, send_failed, complete, wait_failed, offer_failed, offer_interrupted,
  queue_label, close, join, return, receive, exhaust, publish, publish_failed, give_up, Reachable,
  at_start, after, interrupted,
}

abbrev pub has_exited : Publisher → Bool
has_exited (exited l) = true
has_exited _ = false

-- `run` has the result of the publisher.
abbrev pub has_joined : Main → Bool
has_joined (returning r) = true
has_joined (finished r) = true
has_joined _ = false

-- `run` has not closed the queue.
abbrev pub is_before_close : Main → Bool
is_before_close emitting = true
is_before_close (offering l) = true
is_before_close (stopping cause) = true
is_before_close _ = false

-- `run` waits for the publisher.
abbrev pub is_joining : Main → Bool
is_joining (joining cause) = true
is_joining _ = false

-- `run` has returned.
abbrev pub has_finished : Main → Bool
has_finished (finished r) = true
has_finished _ = false

abbrev pub is_empty : List FraudLabel → Bool
is_empty [] = true
is_empty (l ∷ rest) = false

-- The label that the publisher has, or had when it ended.
abbrev pub in_hand : Publisher → List FraudLabel
in_hand receiving = []
in_hand (holding l) = l ∷ []
in_hand (exited none) = []
in_hand (exited (some l)) = l ∷ []

abbrev pub has_result : Option (Option Error) → Bool
has_result none = false
has_result (some r) = true

-- A result stands in `labelErr` from the end of the publisher until `run` takes it; the queue is open
-- until `stop` closes it.
pub record IsJoined (s : Joint) : Type 0 where
  pub sent : has_result s.result ≡ true → has_exited s.publisher ≡ true
  pub unread :
      has_exited s.publisher ≡ true → has_result s.result ≡ false → has_joined s.main ≡ true
  pub ended : has_joined s.main ≡ true → has_exited s.publisher ≡ true
  -- `run` waits behind the close only
  pub shut : is_joining s.main ≡ true → s.is_closed ≡ true
  pub unclosed : is_before_close s.main ≡ true → s.is_closed ≡ false
  pub closed_last : s.is_producer_closed ≡ true → has_joined s.main ≡ true

Step-IsJoined : {s t : Joint} → Step s t → IsJoined s → IsJoined t
Step-IsJoined (offer l at) h = ground arith
Step-IsJoined (send_failed e at) h = ground arith
Step-IsJoined (complete at) h = ground arith
Step-IsJoined (wait_failed e at r) h = ground arith
Step-IsJoined (offer_failed l e at r) h = ground arith
Step-IsJoined (offer_interrupted l at c) h = ground arith
Step-IsJoined (queue_label l at room) h = ground arith
Step-IsJoined (close cause at) h = ground arith
Step-IsJoined (join cause r at got) h = ground arith
Step-IsJoined (return r at) h = ground arith
Step-IsJoined (receive l rest at first) h = ground arith
Step-IsJoined (exhaust at nothing closed) h = ground arith
Step-IsJoined (publish l at) h = ground arith
Step-IsJoined (publish_failed l e at) h = ground arith
Step-IsJoined (give_up l e at c) h = ground arith

-- Each label that was queued is published, in hand or in the queue, in the order of the queue.
abbrev pub IsCarried : Joint → Type 0
IsCarried s = s.queued ≡ s.published ++ (in_hand s.publisher ++ s.queue)

-- A publisher that moves keeps that, if what it has and what it published still make up the same.
moved :
    (s : Joint) (p : Publisher) (queue published : List FraudLabel)
    → IsCarried s
    → published ++ (in_hand p ++ queue) ≡ s.published ++ (in_hand s.publisher ++ s.queue)
    → s.queued ≡ published ++ (in_hand p ++ queue)
moved s p queue published h e = h ∙ sym e

Step-IsCarried : {s t : Joint} → Step s t → IsCarried s → IsCarried t
Step-IsCarried (offer l at) h = h
Step-IsCarried (send_failed e at) h = h
Step-IsCarried (complete at) h = h
Step-IsCarried (wait_failed e at r) h = h
Step-IsCarried (offer_failed l e at r) h = h
Step-IsCarried (offer_interrupted l at c) h = h
Step-IsCarried {s} (queue_label l at room) h =
    ap (λ (ls : List FraudLabel). ls ++ l ∷ []) h
    ∙ append_assoc s.published (in_hand s.publisher ++ s.queue) (l ∷ [])
    ∙ ap (λ (ls : List FraudLabel). s.published ++ ls)
        (append_assoc (in_hand s.publisher) s.queue (l ∷ []))
Step-IsCarried (close cause at) h = h
Step-IsCarried (join cause r at got) h = h
Step-IsCarried (return r at) h = h
Step-IsCarried {s} (receive l rest at first) h =
    moved s (holding l) rest s.published h (rw (at, first) refl)
Step-IsCarried {s} (exhaust at nothing closed) h =
    moved s (exited none) s.queue s.published h (rw at refl)
Step-IsCarried {s} (publish l at) h =
    moved s receiving s.queue (s.published ++ l ∷ []) h
      (append_assoc s.published (l ∷ []) s.queue ∙ rw at refl)
Step-IsCarried {s} (publish_failed l e at) h =
    moved s (exited (some l)) s.queue s.published h (rw at refl)
Step-IsCarried {s} (give_up l e at c) h =
    moved s (exited (some l)) s.queue s.published h (rw at refl)

-- The publisher ended without an error.
abbrev pub is_clean : Option (Option Error) → Bool
is_clean (some none) = true
is_clean _ = false

-- `run` is about to return none.
abbrev pub is_success : Main → Bool
is_success (returning none) = true
is_success _ = false

-- Nothing is left to publish.
pub record IsDrained (s : Joint) : Type 0 where
  pub nothing_queued : s.queue ≡ []
  pub nothing_held : in_hand s.publisher ≡ []
  pub closed : s.is_closed ≡ true

pub record IsFaithful (s : Joint) : Type 0 where
  pub clean : is_clean s.result ≡ true → IsDrained s
  pub success : is_success s.main ≡ true → s.is_cancelled ≡ false → IsDrained s

Step-IsFaithful : {s t : Joint} → Step s t → IsJoined s → IsFaithful s → IsFaithful t
unfolding failed_result stop_result
Step-IsFaithful (offer l at) j h = ground arith
Step-IsFaithful (send_failed e at) j h = ground arith
Step-IsFaithful (complete at) j h = ground arith
Step-IsFaithful (wait_failed e at r) j h = ground arith
Step-IsFaithful (offer_failed l e at r) j h = ground arith
Step-IsFaithful (offer_interrupted l at c) j h = ground arith
Step-IsFaithful (queue_label l at room) j h = ground arith
Step-IsFaithful (close cause at) j h = ground arith
Step-IsFaithful (join cause r at got) j h = ground arith
Step-IsFaithful (return r at) j h = ground arith
Step-IsFaithful (receive l rest at first) j h = ground arith
Step-IsFaithful (exhaust at nothing closed) j h = ground arith
Step-IsFaithful (publish l at) j h = ground arith
Step-IsFaithful (publish_failed l e at) j h = ground arith
Step-IsFaithful (give_up l e at c) j h = ground arith

pub record IsOrderly (s : Joint) : Type 0 where
  pub joined : IsJoined s
  pub carried : IsCarried s
  pub faithful : IsFaithful s

interrupted-IsOrderly : (s : Joint) → IsOrderly s → IsOrderly (record s { is_cancelled = true })
interrupted-IsOrderly s h = record {
  joined = ground (arith, h.joined);
  carried = h.carried;
  faithful = record {
    clean = λ e.
        let d = h.faithful.clean e in
        record {
          nothing_queued = d.nothing_queued;
          nothing_held = d.nothing_held;
          closed = d.closed;
        };
    success = λ won c. absurd (ground arith);
  };
}

pub Reachable-IsOrderly : {s : Joint} → Reachable s → IsOrderly s
Reachable-IsOrderly at_start = record {
  joined = ground arith;
  carried = refl;
  faithful = ground arith;
}
Reachable-IsOrderly (after r step) =
    let h = Reachable-IsOrderly r in
    record {
      joined = Step-IsJoined step h.joined;
      carried = Step-IsCarried step h.carried;
      faithful = Step-IsFaithful step h.joined h.faithful;
    }
Reachable-IsOrderly (interrupted r) = interrupted-IsOrderly _ (Reachable-IsOrderly r)
