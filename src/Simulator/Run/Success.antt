-- ===== src/Simulator/Run/Success.antt =====
-- When the start and the sends of the simulator succeed, it comes to its end and says so.
use learn_go_project.Prelude.{
  ℕ, ◌<◌, ◌≡◌, refl, ◌∙◌, ap, subst, Bool, true, false, none, some, [], length, All, pos, pos_part,
  arith,
}
use learn_go_project.Errors.{ok}
use learn_go_project.Float.{Float64}
use learn_go_project.Domain.{FraudLabel, Time}
use learn_go_project.Resources.{Log, acquire, call_on, deferred}
use learn_go_project.Stream.Brokers.{parse_brokers}
use learn_go_project.Stream.Clients.{new_producer}
use learn_go_project.Simulator.{Generator, IsRand, new}
use learn_go_project.Simulator.Generated.{new-accounts}
use learn_go_project.Simulator.Command.{
  check_options, interval_of, Ending, completed, State, run_result, stop_result,
}
use learn_go_project.Simulator.Command.Completes.{
  Encodes, IsSmooth, IsSmoothLabel, emit_all-completes, publish_labels-none,
}
use learn_go_project.Simulator.Run.{
  Flags, default_flags, options_of, Packages, Circumstances, Finish, printed_at, start_of, finish,
  loop, send_all, connect, run_with, run,
}
use learn_go_project.Simulator.Run.Sent.{IsTrue, run-printed}

-- The steps of the start succeed.
pub record Starts {F G : Type 0} ⦃f : Float64 F⦄ (packages : Packages F G) (o : Flags F)
    : Type 0 where
  pub start : Time
  pub generator : Generator F G
  pub checked : check_options (options_of o) ≡ ok tt
  pub dated : start_of packages o.start_time ≡ ok start
  pub made : new packages.source o.seed o.accounts o.fraud_rate ≡ ok generator
  pub connected :
      packages.new_client (record { seed_brokers = parse_brokers o.brokers; subscription = none })
      ≡ ok tt

-- Nothing goes wrong while the two goroutines run.
pub record IsCalm {F G : Type 0} (packages : Packages F G) (c : Circumstances) : Type 0 where
  pub runs : c.is_cancelled ≡ false
  pub draws : IsRand packages.rand
  pub encodes : Encodes packages.encode
  pub encodes_label : Encodes packages.encode_label
  pub rounds : All IsSmooth c.rounds
  pub label_rounds : (l : FraudLabel) → IsSmoothLabel (c.label_round l)

printed_at-completed :
    (is_cancelled : Bool) (n : ℕ)
    → printed_at completed (run_result completed none is_cancelled) n ≡ some n
unfolding printed_at run_result stop_result
printed_at-completed true n = refl
printed_at-completed false n = refl

module _ {F G : Type 0} ⦃f : Float64 F⦄ (packages : Packages F G) (c : Circumstances)
    (calm : IsCalm packages c) where
  finish-printed :
      (out : Ending × State F G)
      → out.0 ≡ completed
      → (finish packages c out).printed ≡ some out.1.emitted
  unfolding finish
  finish-printed (ending, s) done =
      rw
        (
          done,
          publish_labels-none packages.encode_label calm.encodes_label c.label_round
              calm.label_rounds s.labels s.broker,
        )
        (printed_at-completed c.is_cancelled s.emitted)

  loop-completed :
      (o : Flags F) (start : Time) (generator : Generator F G)
      → 0 < generator.accounts
      → 0 < pos_part o.count
      → pos_part o.count < length c.rounds
      → (loop packages c o start generator).0 ≡ completed
  unfolding loop
  loop-completed o start generator real positive enough =
      emit_all-completes packages.rand calm.draws packages.print packages.encode calm.encodes start
        (interval_of packages.truncate (options_of o)) o.label_delay (pos_part o.count) 0 c.rounds _
        calm.rounds refl real positive (omega arith) (omega (arith, enough))

  -- It prints a number.
  send_all-printed :
      (o : Flags F) (start : Time) (generator : Generator F G)
      → 0 < generator.accounts
      → 0 < pos_part o.count
      → pos_part o.count < length c.rounds
      → (m : ℕ) × ((send_all packages c o start generator).printed ≡ some m)
  unfolding send_all
  send_all-printed o start generator real positive enough = (
    _,
    finish-printed (loop packages c o start generator)
        (loop-completed o start generator real positive enough),
  )

  connect-done :
      (o : Flags F) (start : Time) (generator : Generator F G) (log : Log)
      → packages.new_client (record { seed_brokers = parse_brokers o.brokers; subscription = none })
        ≡ ok tt
      → (connect packages c o start generator log).0 ≡ ok (send_all packages c o start generator)
  unfolding connect new_producer acquire deferred call_on
  connect-done o start generator log connected = rw connected refl

  run_with-done :
      (o : Flags F) (starts : Starts packages o) (log : Log)
      → (run_with packages c o log).0 ≡ ok (send_all packages c o starts.start starts.generator)
  unfolding run_with
  run_with-done o starts log =
      rw (starts.checked, starts.dated, starts.made)
        (connect-done o starts.start starts.generator log starts.connected)

  -- If each step of the start succeeds, a positive number of transactions is asked for, the context
  -- is not cancelled, the draws of indices lie below their bounds, no wait, encoding or send fails, and
  -- the loop gets to more rounds than the number, then `run` returns without an error and prints the
  -- number: the broker has the messages of so many transactions, and behind them those of so many
  -- labels.
  pub run-succeeds :
      (n : ℕ)
      → Starts packages (packages.parse_flags default_flags)
      → (packages.parse_flags default_flags).count ≡ pos n
      → 0 < n
      → n < length c.rounds
      → (done : Finish F G) × ((run packages c []).0 ≡ ok done)
        × (done.printed ≡ some n)
        × IsTrue packages c (packages.parse_flags default_flags) n done
  unfolding run
  run-succeeds n starts asked positive enough =
      let o = packages.parse_flags default_flags in
      let counted : pos_part o.count ≡ n = ap pos_part asked in
      let done = send_all packages c o starts.start starts.generator in
      let (m, printed) =
        send_all-printed o starts.start starts.generator
          (new-accounts packages.source o.seed o.accounts o.fraud_rate starts.generator starts.made)
          (omega (arith, counted, positive)) (omega (arith, counted, enough)) in
      let ended = run_with-done o starts [] in
      let true_line =
        run-printed packages c m done (run packages c []).1 (λ i. (ended i, (run packages c []).1))
          printed in
      let same : m ≡ n = ground (arith, true_line.as_asked, asked) in
      (done, ended, printed ∙ ap some same, subst (λ m. IsTrue packages c o m done) same true_line)
