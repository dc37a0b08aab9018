-- ===== src/Simulator/Run.antt =====
-- cmd/simulator/main.go: `run`, from the flags to the return.
--
-- Arguments are the flags that the command line gives, the clock, time.Parse, math/rand, the client of
-- Kafka, JSON, and how the waits and sends of the two goroutines go. The labels come behind the
-- transactions on the broker, whose topics keep no order between them.
pub mod Sent
pub mod Closing
pub mod Success
use learn_go_project.Prelude.{
  ℕ, ◌*◌, ◌/◌, String, Bool, Option, none, some, List, [], map, ℤ, pos, pos_part, ◌==◌,
  if◌then◌else◌,
}
use learn_go_project.Errors.{Error, Result, ok, with_prefix}
use learn_go_project.Exec.{Exec, ◌>>=◌, ◌>>◌, lift}
use learn_go_project.Float.{Float64}
use learn_go_project.Domain.{TransactionCreated, FraudLabel, Time}
use learn_go_project.Platform.{Bytes}
use learn_go_project.Resources.{producer, Log, call_on, deferred}
use learn_go_project.Stream.Brokers.{parse_brokers}
use learn_go_project.Stream.Clients.{Settings, new_producer}
use learn_go_project.Stream.Producer.{Broker}
use learn_go_project.Simulator.{Rand, Printer, Generator, new}
use learn_go_project.Simulator.Command.{
  Options, check_options, interval_of, Round, Ending, completed, State, emit_all, run_result,
  LabelRound, publish_labels,
}

pub record Flags (F : Type 0) : Type 0 where
  pub brokers : String
  pub count : ℤ
  pub rate : F
  pub seed : ℤ
  pub accounts : ℤ
  pub fraud_rate : F
  pub label_delay : ℤ
  pub start_time : String

-- Their values where the command line does not set them; 0.01 as a quotient.
unfoldable pub default_flags : {F : Type 0} → ⦃f : Float64 F⦄ → Flags F
default_flags {F} ⦃f⦄ = record {
  brokers = "localhost:19092";
  count = pos 1_000;
  rate = f.of_int (pos 100);
  seed = pos 42;
  accounts = pos 200;
  fraud_rate = f.div (f.of_int (pos 1)) (f.of_int (pos 100));
  label_delay = pos 5_000_000_000;
  start_time = "";
}

abbrev pub options_of : {F : Type 0} → Flags F → Options F
options_of o = record { count = o.count; rate = o.rate; label_delay = o.label_delay }

pub record Packages (F G : Type 0) : Type 0 where
  -- flag.Parse from the defaults; it ends the process itself on a bad flag
  pub parse_flags : Flags F → Flags F
  -- time.Now, in nanoseconds since the zero time, and time.Parse at RFC3339 with UTC
  pub now : ℕ
  pub parse_time : String → Result Time
  -- rand.NewSource, the draws, and the numbers that fmt prints
  pub source : ℤ → G
  pub rand : Rand F G
  pub print : Printer
  -- kgo.NewClient
  pub new_client : Settings → Result (Unit {0})
  -- time.Duration of a float64
  pub truncate : F → ℤ
  -- json.Marshal
  pub encode : TransactionCreated → Result Bytes
  pub encode_label : FraudLabel → Result Bytes

-- What the two goroutines cannot foresee, and whether the context is cancelled when `run` looks.
pub record Circumstances : Type 0 where
  pub rounds : List Round
  pub label_round : FraudLabel → LabelRound
  pub is_cancelled : Bool

-- Where the loop ended, the broker with the labels, what `run` returns, once it does, and the number
-- that it prints before.
pub record Finish (F G : Type 0) : Type 0 where
  pub state : State F G
  pub broker : Broker
  pub returned : Option (Option Error)
  pub printed : Option ℕ

-- The line at the end, if `stop(nil)` behind the loop returned nil.
unfoldable pub printed_at : Ending → Option (Option Error) → ℕ → Option ℕ
printed_at completed (some none) emitted = some emitted
printed_at _ _ emitted = none

module _ {F G : Type 0} (packages : Packages F G) where
  -- the start time: the flag's, or now, at a whole second
  unfoldable pub start_of : String → Result Time
  start_of raw =
      if raw == ""
      then ok (pos (packages.now / 1_000_000_000 * 1_000_000_000))
      else with_prefix "parse start-time" (packages.parse_time raw)

  -- the labels of the queue, and the end
  unfoldable pub finish : Circumstances → Ending × State F G → Finish F G
  unfolding publish_labels run_result printed_at
  finish c (ending, s) =
      let labels =
        publish_labels packages.encode_label (map (λ l. (c.label_round l, l)) s.labels) s.broker in
      let returned = run_result ending labels.0 c.is_cancelled in
      record {
        state = s;
        broker = labels.1;
        returned = returned;
        printed = printed_at ending returned s.emitted;
      }

module _ {F G : Type 0} ⦃f : Float64 F⦄ (packages : Packages F G) (c : Circumstances) where
  -- the loop, at the interval of the rate
  unfoldable pub loop : Flags F → Time → Generator F G → Ending × State F G
  unfolding emit_all interval_of
  loop o start generator =
      emit_all packages.rand packages.print packages.encode start
        (interval_of packages.truncate (options_of o)) o.label_delay (pos_part o.count) c.rounds
        (record { generator = generator; broker = []; emitted = 0; sent = []; labels = [] })

  -- behind the producer
  unfoldable pub send_all : Flags F → Time → Generator F G → Finish F G
  unfolding finish loop
  send_all o start generator = finish packages c (loop o start generator)

  -- `run`, from the client of Kafka on
  unfoldable pub connect : Flags F → Time → Generator F G → Exec Log (Finish F G)
  unfolding send_all new_producer deferred call_on
  connect o start generator = do
    new_producer packages.new_client (parse_brokers o.brokers)
    deferred producer (call_on producer (ok (send_all o start generator)))

  -- `run`, from the flags on
  unfoldable pub run_with : Flags F → Exec Log (Finish F G)
  unfolding connect start_of check_options new
  run_with o = do
    lift (check_options (options_of o))
    start ← lift (start_of packages o.start_time)
    generator ← lift (new packages.source o.seed o.accounts o.fraud_rate)
    connect o start generator

  -- `run`
  unfoldable pub run : Exec Log (Finish F G)
  unfolding run_with default_flags
  run = run_with (packages.parse_flags default_flags)
