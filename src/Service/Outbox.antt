-- ===== src/Service/Outbox.antt =====
-- `Outbox.flush` and `Outbox.Run` of internal/service/outbox.go.
use learn_go_project.Prelude.{ℕ, ◌+◌, Bool, true, false, Option, none, some, List, [], ◌∷◌}
use learn_go_project.Errors.{Error}
use learn_go_project.Store.Outbox.{OutboxFaults, Published, publish_outbox}
use learn_go_project.Store.Outbox.Batch.{send_event}
use learn_go_project.Stream.Producer.{Broker, Network}
use learn_go_project.Service.Processor.{World}

abbrev pub batch_size : ℕ
batch_size = 100

-- What the loop changes: the database and the counters, and the broker.
pub record Site (F : Type 0) : Type 0 where
  pub world : World F
  pub broker : Broker

module _ {F : Type 0} where
  -- behind `PublishOutbox`: the counter, and the error that is passed on
  unfoldable pub counted : World F → Published F Broker → Option Error × Site F
  counted w out = (
    out.error,
    record {
      world = record w {
        tables = out.tables;
        metrics = record w.metrics { outbox_published = w.metrics.outbox_published + out.count };
      };
      broker = out.broker;
    },
  )

  -- `flush`
  unfoldable pub flush : Network → (ℕ → Bool) → OutboxFaults → Site F → Option Error × Site F
  unfolding counted
  flush net locked faults s =
      counted s.world
        (publish_outbox (send_event net) locked faults batch_size s.broker s.world.tables)

  abbrev pub count_failure : Option Error × Site F → Site F
  count_failure (none, s) = s
  count_failure (some e, s) = record s {
    world = record s.world {
      metrics = record s.world.metrics { outbox_failures = s.world.metrics.outbox_failures + 1 };
    };
  }

-- A tick of the loop: the network, the rows that other replicas hold, how the database fails, and
-- whether the context is cancelled by the next tick.
pub record Tick : Type 0 where
  pub network : Network
  pub locked : ℕ → Bool
  pub faults : OutboxFaults
  pub cancelled : Bool

module _ {F : Type 0} where
  -- `Run`, over the ticks that come
  unfoldable pub run : List Tick → Site F → Site F
  unfolding flush
  run [] s = s
  run (t ∷ ts) s =
      let s' = count_failure (flush t.network t.locked t.faults s) in
      let rest = run ts s' in elim t.cancelled [ true ↦ s' | false ↦ rest ]
