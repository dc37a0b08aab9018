-- ===== src/Service/System.antt =====
-- The service as a whole: one database, one broker and one set of counters, which the handlers of the
-- two topics, the consumers' dead letters and the outbox loop of cmd/fraud-service change in turn.
pub mod Soundness
pub mod Readable
use learn_go_project.Prelude.{ℕ, Bool, []}
use learn_go_project.Errors.{Result}
use learn_go_project.Exec.{Commit}
use learn_go_project.Float.{Float64}
use learn_go_project.Platform.{Bytes}
use learn_go_project.Domain.{Time}
use learn_go_project.Store.Tables.{no_tables}
use learn_go_project.Store.Evaluate.{Faults}
use learn_go_project.Store.Outbox.{OutboxFaults}
use learn_go_project.Stream.Producer.{Network}
use learn_go_project.Stream.Consumer.{Record, publish_dead_letter}
use learn_go_project.Service.Metrics.{new_metrics}
use learn_go_project.Service.Processor.{Processor, World, handle_transaction, handle_label}
use learn_go_project.Service.Outbox.{Site, flush, count_failure}

-- An empty database and an empty broker.
abbrev pub initial : {F : Type 0} → Site F
initial = record { world = record { tables = no_tables; metrics = new_metrics }; broker = [] }

module _ {F : Type 0} where
  abbrev pub with_world : Site F → World F → Site F
  with_world s w = record s { world = w }

module _ {F : Type 0} ⦃f : Float64 F⦄ (P : Processor F) where
  -- One step of the service, from a state to the next: a delivery of a transaction or of a label, a
  -- dead letter of a consumer, or a flush of the outbox; the arguments say what fails meanwhile.
  pub data Step (s : Site F) : Site F → Type 0 where
    transaction_delivered :
        (faults : Faults) (now : Time) (payload : Bytes)
        → Step s (with_world s (handle_transaction P faults now payload s.world).1)
    label_delivered :
        (c : Commit) (payload : Bytes)
        → Step s (with_world s (handle_label P.platform c payload s.world).1)
    dead_lettered :
        (net : Network) (letter : Result Bytes) (r : Record)
        → Step s (record s { broker = (publish_dead_letter net letter r s.broker).1 })
    flushed :
        (net : Network) (locked : ℕ → Bool) (faults : OutboxFaults)
        → Step s (count_failure (flush net locked faults s))

  -- The states that the service can come to from the initial one.
  pub data Reachable : Site F → Type 0 where
    at_start : Reachable initial
    after : {s t : Site F} → Reachable s → Step s t → Reachable t
