-- ===== src/Simulator/Command/Sent.antt =====
-- What the loop of the simulator has sent and queued when it completes.
use mathlib.Core.List.{append_assoc}
use learn_go_project.Prelude.{
  ℕ, suc, ◌+◌, ◌≤◌, ◌<◌, ◌≡◌, refl, ◌∙◌, ap, subst, Bool-cases, inl, inr, Option, none, some, List,
  [], ◌∷◌, ◌++◌, length, length-append, ℤ, ltb, ltb_ℤ, eqb, pos, ◌||◌, ◌&&◌, arith,
}
use learn_go_project.Errors.{Error, Result, ok, err}
use learn_go_project.Float.{Float64}
use learn_go_project.Domain.{TransactionCreated, FraudLabel, Time}
use learn_go_project.Platform.{Bytes}
use learn_go_project.Stream.Producer.{Broker, Message, message, publish, transactions_topic}
use learn_go_project.Simulator.{Rand, Printer, Generator, generate}
use learn_go_project.Simulator.Command.{
  Halt, labels_ended, interrupted, Round, Ending, completed, State, halted, Next, queue_label,
  sent_to, send_encoded, time_of, send_made, emit, one_round, emit_all,
}
use learn_go_project.Simulator.Command.Messages.{Carries, Carries-snoc, publish-none}

module _ {F G : Type 0} (encode : TransactionCreated → Result Bytes) (b : Broker) where
  -- After so many rounds: as many transactions were sent, as many labels queued, and the broker has
  -- the messages of the transactions behind what it had.
  pub record Account (n : ℕ) (s : State F G) : Type 0 where
    pub rounds : s.emitted ≡ n
    pub transactions : length s.sent ≡ n
    pub queued : length s.labels ≡ n
    pub messages : List Message
    pub on_broker : s.broker ≡ b ++ messages
    pub carried : Carries encode transactions_topic (λ t. t.account_id) s.sent messages

  -- What the loop keeps to the end, if it completes.
  abbrev pub IsDone : ℕ → Ending × State F G → Type 0
  IsDone count out = out.0 ≡ completed → Account count out.1

  halted-IsDone : (count : ℕ) (h : Halt) (s : State F G) → IsDone count (halted h, s)
  halted-IsDone count (labels_ended e) s same = absurd (ground (arith, same))
  halted-IsDone count interrupted s same = absurd (ground (arith, same))

  module _ (count n : ℕ) (next : Next F G)
      (good : (s : State F G) → Account (suc n) s → IsDone count (next s)) where
    sent_to-IsDone :
        (round : Round) (tx : TransactionCreated) (label : FraudLabel) (payload : Bytes)
        (answer : Option Error × Broker) (s : State F G)
        → encode tx ≡ ok payload
        → (answer.0 ≡ none
            → answer.1 ≡ s.broker ++ message transactions_topic tx.account_id payload ∷ [])
        → Account n s
        → IsDone count (sent_to round tx label next answer s)
    unfolding sent_to queue_label
    sent_to-IsDone round tx label payload (some e, broker) s encoded left a =
        λ same. absurd (ground (arith, same))
    sent_to-IsDone round tx label payload (none, broker) s encoded left a =
        queued_or_halted round.queueing
      where
        m : Message
        m = message transactions_topic tx.account_id payload

        after : Account (suc n) (record s {
          broker = broker;
          sent = s.sent ++ tx ∷ [];
          emitted = s.emitted + 1;
          labels = s.labels ++ label ∷ [];
        })
        after = record {
          rounds = omega (arith, a.rounds);
          transactions = length-append s.sent (tx ∷ []) ∙ omega (arith, a.transactions);
          queued = length-append s.labels (label ∷ []) ∙ omega (arith, a.queued);
          messages = a.messages ++ m ∷ [];
          on_broker =
              left refl
              ∙ ap (λ (l : Broker). l ++ m ∷ []) a.on_broker
              ∙ append_assoc b a.messages (m ∷ []);
          carried =
              Carries-snoc encode transactions_topic (λ t. t.account_id) s.sent a.messages tx
                payload a.carried encoded;
        }

        queued_or_halted :
            (q : Option Halt)
            → IsDone count
                (queue_label q label next (record s { broker = broker; sent = s.sent ++ tx ∷ [] }))
        queued_or_halted (some h) =
            halted-IsDone count h (record s { broker = broker; sent = s.sent ++ tx ∷ [] })
        queued_or_halted none = good _ after

    send_encoded-IsDone :
        (round : Round) (tx : TransactionCreated) (label : FraudLabel) (payload : Result Bytes)
        (s : State F G)
        → encode tx ≡ payload
        → Account n s
        → IsDone count (send_encoded round tx label next payload s)
    unfolding send_encoded
    send_encoded-IsDone round tx label (err e) s encoded a = λ same. absurd (ground (arith, same))
    send_encoded-IsDone round tx label (ok payload) s encoded a =
        sent_to-IsDone round tx label payload
          (publish round.network transactions_topic tx.account_id payload s.broker) s encoded
          (publish-none round.network transactions_topic tx.account_id payload s.broker) a

module _ {F G : Type 0} ⦃f : Float64 F⦄ (rand : Rand F G) (print : Printer)
    (encode : TransactionCreated → Result Bytes) (start : Time) (interval delay : ℤ)
    (b : Broker) where
  module _ (count n : ℕ) (next : Next F G)
      (good : (s : State F G) → Account encode b (suc n) s → IsDone encode b count (next s)) where
    emit-IsDone :
        (round : Round) (s : State F G)
        → Account encode b n s
        → IsDone encode b count (emit rand print encode start interval delay round next s)
    unfolding emit send_made
    emit-IsDone round s a =
        made (generate rand print (time_of start interval s.emitted) delay s.generator)
      where
        made :
            (x : Option (TransactionCreated × FraudLabel) × Generator F G)
            → IsDone encode b count
                (send_made rand print encode start interval delay round next x s)
        made (none, g) = λ same. absurd (ground (arith, same))
        made (some (tx, label), g) =
            send_encoded-IsDone encode b count n next good round tx label (encode tx)
              (record s { generator = g }) refl
              (record {
                rounds = a.rounds;
                transactions = a.transactions;
                queued = a.queued;
                messages = a.messages;
                on_broker = a.on_broker;
                carried = a.carried;
              })

    one_round-IsDone :
        (round : Round) (s : State F G)
        → Account encode b n s
        → IsDone encode b count (one_round rand print encode start interval delay round next s)
    unfolding one_round
    one_round-IsDone round s a = elim (Bool-cases (ltb 0 s.emitted && ltb_ℤ (pos 0) interval)) [
      | inl waits ↦ rw waits (waited round.waiting)
      | inr straight ↦ rw straight (emit-IsDone round s a)
    ]
      where
        waited :
            (w : Option Halt)
            → IsDone encode b count (elim w as (λ x. Ending × State F G) [
              | some h ↦ (halted h, s)
              | none ↦ emit rand print encode start interval delay round next s
            ])
        waited (some h) = halted-IsDone encode b count h s
        waited none = emit-IsDone round s a

  -- The loop completes behind `count` rounds only.
  pub emit_all-IsDone :
      (count n : ℕ) (rounds : List Round) (s : State F G)
      → Account encode b n s
      → (0 < count → n ≤ count)
      → IsDone encode b count (emit_all rand print encode start interval delay count rounds s)
  unfolding emit_all
  emit_all-IsDone count n [] s a room = λ same. absurd (ground (arith, same))
  emit_all-IsDone count n (round ∷ rounds) s a room =
      elim (Bool-cases (eqb count 0 || ltb s.emitted count)) [
        | inl on ↦ rw on (
            one_round-IsDone count n (emit_all rand print encode start interval delay count rounds)
              (λ s' a'.
                emit_all-IsDone count (suc n) rounds s' a'
                  (λ positive. ground (arith, on, a.rounds, positive)))
              round s a)
        | inr over ↦
            rw over
              (λ same. subst (λ n. Account encode b n s) (ground (arith, over, a.rounds, room)) a)
      ]
