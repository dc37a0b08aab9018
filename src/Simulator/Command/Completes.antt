-- ===== src/Simulator/Command/Completes.antt =====
-- When nothing goes wrong, the two loops of the simulator come to their end.
use learn_go_project.Prelude.{
  ℕ, String, suc, ◌+◌, ◌≤◌, ◌<◌, ◌≡◌, refl, sym, subst, ap, Bool-cases, inl, inr, Option, none,
  some, List, [], ◌∷◌, ◌++◌, map, length, All, ℤ, ltb, ltb_ℤ, eqb, pos, ◌||◌, ◌&&◌, arith,
}
use learn_go_project.Errors.{Error, Result, ok}
use learn_go_project.Float.{Float64}
use learn_go_project.Domain.{TransactionCreated, FraudLabel, Time}
use learn_go_project.Platform.{Bytes}
use learn_go_project.Stream.Producer.{
  Broker, Network, delivered, Message, message, publish, with_topic, produce, transactions_topic,
  labels_topic,
}
use learn_go_project.Simulator.{Rand, IsRand, Printer, Generator, generate}
use learn_go_project.Simulator.Generated.{generate-some, generate-accounts}
use learn_go_project.Simulator.Command.{
  Round, completed, State, Next, queue_label, sent_to, send_encoded, time_of, send_made, emit,
  one_round, emit_all, LabelRound, label_sent, send_label, publish_labels,
}

-- A network that delivers each message, and an encoder that never fails.
abbrev pub Delivers : Network → Type 0
Delivers net = (m : Message) (b : Broker) → net m b ≡ delivered

abbrev pub Encodes : {A : Type 0} → (A → Result Bytes) → Type 0
Encodes {A} encode = (a : A) → (payload : Bytes) × (encode a ≡ ok payload)

-- A round that no interrupt and no failure of the label goroutine ends.
pub record IsSmooth (round : Round) : Type 0 where
  pub waits : round.waiting ≡ none
  pub sends : Delivers round.network
  pub queues : round.queueing ≡ none

pub record IsSmoothLabel (round : LabelRound) : Type 0 where
  pub waits : round.cancelled ≡ none
  pub sends : Delivers round.network

publish-Delivers :
    (net : Network) (topic key : String) (payload : Bytes) (b : Broker)
    → Delivers net
    → publish net topic key payload b ≡ (none, b ++ message topic key payload ∷ [])
unfolding publish produce
publish-Delivers net topic key payload b h =
    ap (λ d. with_topic (produce d (message topic key payload) b)) (h (message topic key payload) b)

module _ {F G : Type 0} ⦃f : Float64 F⦄ (rand : Rand F G) (laws : IsRand rand) (print : Printer)
    (encode : TransactionCreated → Result Bytes) (encodes : Encodes encode) (start : Time)
    (interval delay : ℤ) where
  module _ (n : ℕ) (next : Next F G) (round : Round) (smooth : IsSmooth round)
      (good : (s : State F G)
        → s.emitted ≡ suc n
        → 0 < s.generator.accounts
        → (next s).0 ≡ completed) where
    sent_to-completes :
        (tx : TransactionCreated) (label : FraudLabel) (b : Broker) (s : State F G)
        → s.emitted ≡ n
        → 0 < s.generator.accounts
        → (sent_to round tx label next (none, b) s).0 ≡ completed
    unfolding sent_to queue_label
    sent_to-completes tx label b s at real = rw smooth.queues (good _ (omega (arith, at)) real)

    send_encoded-completes :
        (tx : TransactionCreated) (label : FraudLabel) (payload : Bytes) (s : State F G)
        → s.emitted ≡ n
        → 0 < s.generator.accounts
        → (send_encoded round tx label next (ok payload) s).0 ≡ completed
    unfolding send_encoded
    send_encoded-completes tx label payload s at real =
        rw
          (publish-Delivers round.network transactions_topic tx.account_id payload s.broker
            smooth.sends)
          (sent_to-completes tx label _ s at real)

    send_made-completes :
        (x : Option (TransactionCreated × FraudLabel)) (g : Generator F G)
        (out : TransactionCreated × FraudLabel) (s : State F G)
        → x ≡ some out
        → s.emitted ≡ n
        → 0 < g.accounts
        → (send_made rand print encode start interval delay round next (x, g) s).0 ≡ completed
    unfolding send_made
    send_made-completes x g (tx, label) s made at real = rw made (
        rw ((encodes tx).1)
          (send_encoded-completes tx label (encodes tx).0 (record s { generator = g }) at real))

    emit-completes :
        (s : State F G)
        → s.emitted ≡ n
        → 0 < s.generator.accounts
        → (emit rand print encode start interval delay round next s).0 ≡ completed
    unfolding emit
    emit-completes s at real =
        let time = time_of start interval s.emitted in
        let (out, made) = generate-some rand laws print time delay s.generator real in
        send_made-completes _ (generate rand print time delay s.generator).1 out s made at (
          subst (λ (n : ℕ). 0 < n) (sym (generate-accounts rand laws print time delay s.generator))
            real)

    one_round-completes :
        (s : State F G)
        → s.emitted ≡ n
        → 0 < s.generator.accounts
        → (one_round rand print encode start interval delay round next s).0 ≡ completed
    unfolding one_round
    one_round-completes s at real = elim (Bool-cases (ltb 0 s.emitted && ltb_ℤ (pos 0) interval)) [
      | inl waits ↦ rw waits (rw smooth.waits (emit-completes s at real))
      | inr straight ↦ rw straight (emit-completes s at real)
    ]

  -- With more rounds than the count, the loop completes.
  pub emit_all-completes :
      (count n : ℕ) (rounds : List Round) (s : State F G)
      → All IsSmooth rounds
      → s.emitted ≡ n
      → 0 < s.generator.accounts
      → 0 < count
      → n ≤ count
      → count < n + length rounds
      → (emit_all rand print encode start interval delay count rounds s).0 ≡ completed
  unfolding emit_all
  emit_all-completes count n [] s smooth at real positive room enough =
      absurd (ground (arith, room, enough))
  emit_all-completes count n (round ∷ rounds) s smooth at real positive room enough =
      elim (Bool-cases (eqb count 0 || ltb s.emitted count)) [
        | inl on ↦ rw on (
            one_round-completes n (emit_all rand print encode start interval delay count rounds)
              round smooth.0
              (λ s' at' real'.
                emit_all-completes count (suc n) rounds s' smooth.1 at' real' positive
                  (ground (arith, on, at, positive)) (omega (arith, enough)))
              s at real)
        | inr over ↦ rw over refl
      ]

module _ (encode : FraudLabel → Result Bytes) (encodes : Encodes encode)
    (rounds : FraudLabel → LabelRound) (smooth : (l : FraudLabel) → IsSmoothLabel (rounds l)) where
  send_label-none :
      (l : FraudLabel) (next : Broker → Option Error × Broker) (payload : Bytes) (b : Broker)
      → ((b' : Broker) → (next b').0 ≡ none)
      → (send_label encode (rounds l).network l next (ok payload) b).0 ≡ none
  unfolding send_label label_sent
  send_label-none l next payload b good =
      rw
        (publish-Delivers (rounds l).network labels_topic l.transaction_id payload b
          (smooth l).sends)
        (good _)

  pub publish_labels-none :
      (labels : List FraudLabel) (b : Broker)
      → (publish_labels encode (map (λ l. (rounds l, l)) labels) b).0 ≡ none
  unfolding publish_labels
  publish_labels-none [] b = refl
  publish_labels-none (l ∷ labels) b =
      rw (smooth l).waits
        (rw (encodes l).1 (send_label-none l _ (encodes l).0 b (publish_labels-none labels)))
