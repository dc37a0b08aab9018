-- ===== src/Simulator/Run/Sent.antt =====
-- The line that the simulator prints at its end tells the truth, and when it is printed.
use learn_go_project.Prelude.{
  ℕ, ◌≡◌, refl, sym, ◌∙◌, ap, subst, Bool-cases, inl, inr, ◌⊎◌, Bool, true, false, Option, none,
  some, List, [], ◌++◌, map, length, ℤ, pos, negsuc, pos_part, ltb_ℤ, ◌||◌, arith,
}
use learn_go_project.Errors.{refuse_if, Error, Result, ok, err}
use learn_go_project.Exec.{lift}
use learn_go_project.Exec.Invert.{>>=-ok, lift-ok}
use learn_go_project.Float.{Float64}
use learn_go_project.Domain.{Time}
use learn_go_project.Resources.{Log, call_on, deferred}
use learn_go_project.Stream.Brokers.{parse_brokers}
use learn_go_project.Stream.Clients.{new_producer}
use learn_go_project.Stream.Producer.{Broker, Message, transactions_topic, labels_topic}
use learn_go_project.Simulator.{Generator, new}
use learn_go_project.Simulator.Command.{
  Options, check_options, interval_of, Ending, completed, stopped, failed, panicked, at_work, State,
  publish_labels, run_result, stop_result, failed_result,
}
use learn_go_project.Simulator.Command.Messages.{Carries, publish_labels-IsPublished}
use learn_go_project.Simulator.Command.Sent.{IsDone, emit_all-IsDone}
use learn_go_project.Simulator.Run.{
  Flags, default_flags, options_of, Packages, Circumstances, Finish, printed_at, start_of, finish,
  loop, send_all, connect, run_with, run,
}

-- A number is printed only behind the whole loop, and is the loop's.
printed-completed :
    (e : Ending) (labels : Option Error) (is_cancelled : Bool) (emitted n : ℕ)
    → printed_at e (run_result e labels is_cancelled) emitted ≡ some n
    → (e ≡ completed)
      × (emitted ≡ n)
      × (is_cancelled ≡ false → labels ≡ none)
      × (run_result e labels is_cancelled ≡ some none)
unfolding printed_at run_result stop_result failed_result
printed-completed completed none true emitted n h =
    (refl, ground (arith, h), λ running. absurd (ground (arith, running)), refl)
printed-completed completed none false emitted n h = (refl, ground (arith, h), λ _. refl, refl)
printed-completed completed (some e) true emitted n h =
    (refl, ground (arith, h), λ running. absurd (ground (arith, running)), refl)
printed-completed completed (some e) false emitted n h = absurd (ground (arith, h))
printed-completed (stopped cause) labels is_cancelled emitted n h = absurd (ground (arith, h))
printed-completed (failed e) labels is_cancelled emitted n h = absurd (ground (arith, h))
printed-completed panicked labels is_cancelled emitted n h = absurd (ground (arith, h))
printed-completed at_work labels is_cancelled emitted n h = absurd (ground (arith, h))

ok_inj : {A : Type 0} {a b : A} → ok a ≡ ok b → a ≡ b
ok_inj {a = a} h = ap (λ r. elim r [ ok x ↦ x | err e ↦ a ]) h

module _ {F : Type 0} ⦃f : Float64 F⦄ where
  -- A count that passes the check is not negative.
  count_checked : (o : Options F) → check_options o ≡ ok tt → o.count ≡ pos (pos_part o.count)
  unfolding check_options
  count_checked o h =
      checked o.count (f.lt o.rate (f.of_int (pos 0))) (ltb_ℤ o.label_delay (pos 0)) _ h
    where
      checked :
          (count : ℤ) (rate delay : Bool) (e : Error)
          → refuse_if (ltb_ℤ count (pos 0) || rate || delay) e ≡ ok tt
          → count ≡ pos (pos_part count)
      checked (pos n) rate delay e h = refl
      checked (negsuc n) rate delay e h = absurd (ground (arith, h))

module _ {F G : Type 0} ⦃f : Float64 F⦄ (packages : Packages F G) (c : Circumstances) where
  -- What stands behind the line "published n transactions and labels".
  pub record IsTrue (o : Flags F) (n : ℕ) (done : Finish F G) : Type 0 where
    pub returned : done.returned ≡ some none
    pub as_asked : o.count ≡ pos n
    pub transactions : length done.state.sent ≡ n
    pub labels : length done.state.labels ≡ n
    -- the transactions' messages, which the broker has before the labels
    pub messages : List Message
    pub on_broker : done.state.broker ≡ messages
    pub carried :
        Carries packages.encode transactions_topic (λ t. t.account_id) done.state.sent messages
    -- and if the context was not cancelled, those of the labels behind them
    pub label_messages :
        (c.is_cancelled ≡ true)
        ⊎ ((ls : List Message) × (done.broker ≡ messages ++ ls)
            × Carries packages.encode_label labels_topic
                (λ l. l.transaction_id)
                done.state.labels
                ls)

  finish-IsTrue :
      (o : Flags F) (n : ℕ) (out : Ending × State F G)
      → IsDone packages.encode [] (pos_part o.count) out
      → o.count ≡ pos (pos_part o.count)
      → (finish packages c out).printed ≡ some n
      → IsTrue o n (finish packages c out)
  unfolding finish
  finish-IsTrue o n (ending, s) h checked printed =
      let labels =
        publish_labels packages.encode_label (map (λ l. (c.label_round l, l)) s.labels) s.broker in
      let (ended, counted, all_sent, successful) =
        printed-completed ending labels.0 c.is_cancelled s.emitted n printed in
      let a = h ended in
      let same : pos_part o.count ≡ n = sym a.rounds ∙ counted in
      record {
        returned = successful;
        as_asked = checked ∙ ap pos same;
        transactions = a.transactions ∙ same;
        labels = a.queued ∙ same;
        messages = a.messages;
        on_broker = a.on_broker;
        carried = a.carried;
        label_messages = elim (Bool-cases c.is_cancelled) [
          | inl cancelled ↦ inl cancelled
          | inr running ↦
              let (ls, on_broker, carried) =
                publish_labels-IsPublished packages.encode_label c.label_round s.labels s.broker
                  (all_sent running) in
              inr (ls, on_broker ∙ ap (λ (b : Broker). b ++ ls) a.on_broker, carried)
        ];
      }

  connect-ok :
      (o : Flags F) (start : Time) (generator : Generator F G) (done : Finish F G)
      (before after : Log)
      → connect packages c o start generator before ≡ (ok done, after)
      → send_all packages c o start generator ≡ done
  unfolding connect deferred call_on
  connect-ok o start generator done before after h =
      let (_, log, _, rest) =
        >>=-ok (new_producer packages.new_client (parse_brokers o.brokers)) _ before h in
      ok_inj (ap (λ (p : Result (Finish F G) × Log). p.0) rest)

  send_all-IsTrue :
      (o : Flags F) (start : Time) (generator : Generator F G) (n : ℕ)
      → check_options (options_of o) ≡ ok tt
      → (send_all packages c o start generator).printed ≡ some n
      → IsTrue o n (send_all packages c o start generator)
  unfolding send_all loop
  send_all-IsTrue o start generator n checked printed =
      finish-IsTrue o n _
        (emit_all-IsDone packages.rand packages.print packages.encode start
          (interval_of packages.truncate (options_of o)) o.label_delay [] (pos_part o.count) 0
          c.rounds _
          (record {
            rounds = refl;
            transactions = refl;
            queued = refl;
            messages = [];
            on_broker = refl;
            carried = tt;
          })
          (λ _. omega arith))
        (count_checked (options_of o) checked) printed

  run_with-IsTrue :
      (o : Flags F) (n : ℕ) (done : Finish F G) (before after : Log)
      → run_with packages c o before ≡ (ok done, after)
      → done.printed ≡ some n
      → IsTrue o n done
  unfolding run_with
  run_with-IsTrue o n done before after h printed =
      let (_, log, checked, rest) = >>=-ok (lift (check_options (options_of o))) _ before h in
      let (start, log, _, rest) = >>=-ok (lift (start_of packages o.start_time)) _ log rest in
      let (generator, log, _, rest) =
        >>=-ok (lift (new packages.source o.seed o.accounts o.fraud_rate)) _ log rest in
      let same = connect-ok o start generator done log after rest in
      subst (IsTrue o n) same (
        send_all-IsTrue o start generator n
          (lift-ok (check_options (options_of o)) before checked).0
          (ap (λ (d : Finish F G). d.printed) same ∙ printed))

  -- When `run` prints "published n transactions and labels", n is the number that was asked for, it
  -- returns no error, so many transactions were sent and so many labels queued, and the broker has
  -- the messages of the transactions in their order, and if the context was not cancelled, those of
  -- the labels behind them, in theirs.
  pub run-printed :
      (n : ℕ) (done : Finish F G) (log : Log)
      → run packages c [] ≡ (ok done, log)
      → done.printed ≡ some n
      → IsTrue (packages.parse_flags default_flags) n done
  unfolding run
  run-printed n done log = run_with-IsTrue (packages.parse_flags default_flags) n done [] log
