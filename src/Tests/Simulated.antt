-- ===== src/Tests/Simulated.antt =====
-- The simulator at a concrete run: one transaction and its label, over a network that delivers.
use learn_go_project.Prelude.{ℕ, ◌≡◌, refl, false, none, some, [], ◌∷◌, pos, arith}
use learn_go_project.Errors.{ok}
use learn_go_project.Float.{Whole, whole, whole_float}
use learn_go_project.Stream.Producer.{delivered}
use learn_go_project.Simulator.{new}
use learn_go_project.Simulator.Command.{check_options}
use learn_go_project.Simulator.Command.Completes.{IsSmooth}
use learn_go_project.Simulator.Run.{
  Flags, default_flags, Packages, Circumstances, Finish, start_of, send_all, run,
}
use learn_go_project.Simulator.Run.Sent.{IsTrue, run-printed}
use learn_go_project.Simulator.Run.Success.{Starts, IsCalm, run-succeeds}
use learn_go_project.Tests.Rules.{zeros, zeros-IsRand, printer, generator, round, encode_nothing}

abbrev flags : Flags Whole
flags = record {
  brokers = "localhost:19092";
  count = pos 1;
  rate = whole 0;
  seed = pos 42;
  accounts = pos 3;
  fraud_rate = whole 1;
  label_delay = pos 60;
  start_time = "2026-01-01T00:00:00Z";
}

abbrev packages : Packages Whole ℕ
packages = record {
  parse_flags = λ defaults. flags;
  now = 7_200;
  parse_time = λ raw. ok (pos 3_600);
  source = λ seed. 0;
  rand = zeros;
  print = printer;
  new_client = λ settings. ok tt;
  truncate = λ x. pos 0;
  encode = encode_nothing;
  encode_label = λ label. ok [];
}

abbrev circumstances : Circumstances
circumstances = record {
  rounds = round ∷ round ∷ [];
  label_round = λ label. record { cancelled = none; network = λ m b. delivered };
  is_cancelled = false;
}

flags-Starts : Starts packages (packages.parse_flags default_flags)
unfolding start_of new check_options
flags-Starts = record {
  start = pos 3_600;
  generator = generator;
  checked = refl;
  dated = refl;
  made = refl;
  connected = refl;
}

round-IsSmooth : IsSmooth round
round-IsSmooth = record { waits = refl; sends = λ m b. refl; queues = refl }

circumstances-IsCalm : IsCalm packages circumstances
circumstances-IsCalm = record {
  runs = refl;
  draws = zeros-IsRand;
  encodes = λ t. ([], refl);
  encodes_label = λ l. ([], refl);
  rounds = (round-IsSmooth, (round-IsSmooth, tt));
  label_rounds = λ l. record { waits = refl; sends = λ m b. refl };
}

run-succeeds_example :
    (done : Finish Whole ℕ) × ((run packages circumstances []).0 ≡ ok done)
    × (done.printed ≡ some 1)
    × IsTrue packages circumstances flags 1 done
run-succeeds_example =
    run-succeeds packages circumstances circumstances-IsCalm 1 flags-Starts refl (omega arith)
      (omega arith)

abbrev done : Finish Whole ℕ
done = send_all packages circumstances flags (pos 3_600) generator

done-printed : done.printed ≡ some 1
unfolding send_all
done-printed = refl

run-ended : run packages circumstances [] ≡ (ok done, (run packages circumstances []).1)
unfolding run check_options new
run-ended = refl

run-printed_example : IsTrue packages circumstances flags 1 done
run-printed_example =
    run-printed packages circumstances 1 done (run packages circumstances []).1 run-ended
      done-printed
