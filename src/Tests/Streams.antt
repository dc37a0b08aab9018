-- ===== src/Tests/Streams.antt =====
-- Consumers, producers and batches at concrete inputs.
use learn_go_project.Prelude.{
  ℕ, join_with, split_on, trim, trim_left, trim_right, has_char, ◌≡◌, refl, String, Bool, false,
  none, some, ℤ, pos, List, [], ◌∷◌, All, length, map, arith,
}
use learn_go_project.Errors.{Error, text, permanent_error, Result, ok, err, is_permanent}
use learn_go_project.Exec.{committed}
use learn_go_project.Float.{Whole, whole}
use learn_go_project.Platform.{Bytes}
use learn_go_project.Store.Tables.{OutboxRow, Tables, no_tables, outbox_row}
use learn_go_project.Store.Outbox.{publish_outbox, with_rows}
use learn_go_project.Store.Outbox.Batch.{send_event, row_message, IsCovered}
use learn_go_project.Store.Outbox.Delivery.{publish_outbox-IsCovered}
use learn_go_project.Store.Outbox.Progress.{
  steady, no_outbox_faults, with_published, waiting, publish_outbox-delivers,
}
use learn_go_project.Service.Snapshot.{Metric}
use learn_go_project.Stream.Brokers.{
  Entry, written, collect_brokers, parse_brokers, parse_brokers-join_with,
}
use learn_go_project.Stream.Producer.{Network, delivered, unconfirmed}
use learn_go_project.Stream.Consumer.{Record, Round, State, returned, handle_record, handle_from}
use learn_go_project.Stream.Consumer.Offsets.{Justified, handle_record-Justified}
use learn_go_project.Stream.Consumer.Backoff.{
  IsTransient, worlds, schedule, backoff_closed, handle_record-transient, handle_record-recovers,
}

abbrev sample_record : Record
sample_record = record {
  topic = "transactions.v1";
  partition = 0;
  offset = 4;
  key = "account-1";
  value = 500 ∷ [];
}

abbrev letter : Record → Error → Result Bytes
letter r e = ok (r.value)

-- Rounds of a handler that counts its calls.
abbrev timeout : Error
timeout = text "timeout"

abbrev failing : Round ℕ
failing = record {
  handler = λ payload w. (err timeout, 1);
  cancelled_before = false;
  cancelled_after = false;
  cancelled_waiting = false;
  commit = committed;
}

abbrev poisoned : Round ℕ
poisoned = record failing { handler = λ payload w. (err (permanent_error timeout), 2) }

abbrev working : Round ℕ
working = record failing { handler = λ payload w. (ok tt, 3) }

abbrev idle : State ℕ
idle = record { world = 0; broker = []; offsets = []; waits = [] }

-- One transient error, then a permanent one: the record is dead-lettered and committed.
handle_record-Justified_example :
    Justified letter sample_record
      (failing ∷ poisoned ∷ [])
      []
      (handle_record steady letter sample_record (failing ∷ poisoned ∷ []) idle).1
handle_record-Justified_example =
    handle_record-Justified letter sample_record steady (failing ∷ poisoned ∷ []) idle

failing-IsTransient : IsTransient steady letter sample_record failing
unfolding is_permanent
failing-IsTransient = record {
  alive_before = refl;
  alive_after = refl;
  alive_waiting = refl;
  fails = λ w. (timeout, refl, refl);
}

handle_record-transient_example :
    handle_record steady letter sample_record (failing ∷ failing ∷ working ∷ []) idle
    ≡ handle_from steady letter sample_record (working ∷ []) (backoff_closed 2) (record idle {
      world = worlds steady letter sample_record (failing ∷ failing ∷ []) 0;
      waits = schedule 0 2 [];
    })
handle_record-transient_example =
    handle_record-transient steady letter sample_record (failing ∷ failing ∷ []) (working ∷ []) idle
      (failing-IsTransient, (failing-IsTransient, tt))

handle_record-recovers_example :
    handle_record steady letter sample_record (failing ∷ failing ∷ working ∷ []) idle ≡ (
      returned none,
      record { world = 3; broker = []; offsets = sample_record ∷ []; waits = schedule 0 2 [] },
    )
handle_record-recovers_example =
    handle_record-recovers steady letter sample_record (failing ∷ failing ∷ []) [] working idle
      (failing-IsTransient, (failing-IsTransient, tt)) refl refl refl

-- Two rows of the outbox, and a broker whose answer to the second message is lost.
abbrev queued : ℕ → String → OutboxRow
queued id key = outbox_row id key "fraud.assessments.v1" key (id ∷ [])

abbrev two_rows : Tables Whole
two_rows = record no_tables { outbox = queued 1 "tx-1" ∷ queued 2 "tx-2" ∷ []; next_id = 3 }

abbrev losing : Network
losing m [] = delivered
losing m (n ∷ rest) = unconfirmed timeout

unlocked : ℕ → Bool
unlocked id = false

publish_outbox-IsCovered_example :
    let out = publish_outbox (send_event losing) unlocked no_outbox_faults 100 [] two_rows in
    All (IsCovered out.broker) out.tables.outbox
publish_outbox-IsCovered_example =
    publish_outbox-IsCovered two_rows losing unlocked no_outbox_faults 100 []
      ((omega arith, tt), (tt, tt))
      ((λ e. absurd (ground arith)), ((λ e. absurd (ground arith)), tt))

publish_outbox-delivers_example :
    publish_outbox (send_event steady) unlocked no_outbox_faults 1 [] two_rows ≡ record {
      count = length (waiting unlocked 1 two_rows.outbox);
      error = none;
      broker = map row_message (waiting unlocked 1 two_rows.outbox);
      tables =
          with_rows two_rows (with_published (waiting unlocked 1 two_rows.outbox) two_rows.outbox);
    }
publish_outbox-delivers_example =
    publish_outbox-delivers unlocked 1 [] two_rows ((omega arith, tt), (tt, tt))

brokers_parsed : parse_brokers " a:9092, ,b:9092," ≡ "a:9092" ∷ "b:9092" ∷ []
unfolding parse_brokers collect_brokers split_on trim trim_left trim_right
brokers_parsed = refl

abbrev entry : String → String → String → Entry
entry before name behind = record { before = before; name = name; behind = behind }

parse_brokers-join_with_example :
    parse_brokers (
      join_with ","
        (map written (entry " " "a:9092" "" ∷ entry " " "" "" ∷ entry "" "b:9092" " " ∷ [])))
    ≡ "a:9092" ∷ "b:9092" ∷ []
unfolding has_char trim trim_left trim_right
parse_brokers-join_with_example =
    parse_brokers-join_with (entry " " "a:9092" "" ∷ entry " " "" "" ∷ entry "" "b:9092" " " ∷ []) (
      record { blank_before = (refl, tt); blank_behind = tt; plain = refl; trimmed = refl },
      (
        record { blank_before = (refl, tt); blank_behind = tt; plain = refl; trimmed = refl },
        (record { blank_before = tt; blank_behind = (refl, tt); plain = refl; trimmed = refl }, tt),
      ),
    )

-- Two processed counters of one type, and one of another.
abbrev counter : String → ℕ → Metric Whole
counter label n = record {
  labels = ("type", label) ∷ [];
  counter = whole n;
  histogram = record { sample_count = 0; sample_sum = whole 0; buckets = [] };
}

abbrev whole_part : Whole → ℤ
whole_part none = pos 0
whole_part (some n) = n

abbrev counters : List (Metric Whole)
counters = counter "transaction" 3 ∷ counter "label" 2 ∷ counter "transaction" 4 ∷ []
