-- ===== src/Simulator/Command/Messages.antt =====
-- The messages of events on the broker, and those that the labels of the simulator leave there.
use mathlib.Core.List.{append_assoc, append-nil}
use learn_go_project.Prelude.{
  String, ◌≡◌, refl, sym, ◌∙◌, ap, Option, none, some, List, [], ◌∷◌, ◌++◌, map, arith,
}
use learn_go_project.Errors.{Error, Result, ok, err}
use learn_go_project.Domain.{FraudLabel}
use learn_go_project.Platform.{Bytes}
use learn_go_project.Stream.Producer.{
  with_topic, produce, Broker, Network, Delivery, delivered, undelivered, unconfirmed, Message,
  message, publish, labels_topic,
}
use learn_go_project.Simulator.Command.{LabelRound, label_sent, send_label, publish_labels}

-- The messages are those of the events, one for each and in their order.
module _ {A : Type 0} (encode : A → Result Bytes) (topic : String) (key : A → String) where
  abbrev pub Carries : List A → List Message → Type 0
  Carries [] [] = Unit
  Carries [] (m ∷ ms) = ⊥
  Carries (a ∷ rest) [] = ⊥
  Carries (a ∷ rest) (m ∷ ms) =
      (encode a ≡ ok m.value) × (m ≡ message topic (key a) m.value) × Carries rest ms

  pub Carries-snoc :
      (events : List A) (ms : List Message) (a : A) (payload : Bytes)
      → Carries events ms
      → encode a ≡ ok payload
      → Carries (events ++ a ∷ []) (ms ++ message topic (key a) payload ∷ [])
  Carries-snoc [] [] a payload h e = (e, refl, tt)
  Carries-snoc [] (m ∷ ms) a payload h e = absurd h
  Carries-snoc (x ∷ rest) [] a payload h e = absurd h
  Carries-snoc (x ∷ rest) (m ∷ ms) a payload h e = (h.0, h.1, Carries-snoc rest ms a payload h.2 e)

-- A send that is confirmed has left its message.
pub publish-none :
    (net : Network) (topic key : String) (payload : Bytes) (b : Broker)
    → (publish net topic key payload b).0 ≡ none
    → (publish net topic key payload b).1 ≡ b ++ message topic key payload ∷ []
unfolding publish
publish-none net topic key payload b h =
    left (net (message topic key payload) b) (message topic key payload) h
  where
    left :
        (d : Delivery) (m : Message)
        → (with_topic (produce d m b)).0 ≡ none
        → (with_topic (produce d m b)).1 ≡ b ++ m ∷ []
    left delivered m h = refl
    left (undelivered e) m h = absurd (ground (arith, h))
    left (unconfirmed e) m h = absurd (ground (arith, h))

module _ (encode : FraudLabel → Result Bytes) where
  -- Without an error, the broker has the messages of the labels behind what it had.
  abbrev IsPublished : List FraudLabel → Broker → Option Error × Broker → Type 0
  IsPublished labels b out =
      out.0 ≡ none
      → (ms : List Message) × (out.1 ≡ b ++ ms)
        × Carries encode labels_topic (λ l. l.transaction_id) labels ms

  module _ (l : FraudLabel) (labels : List FraudLabel) (b : Broker)
      (next : Broker → Option Error × Broker)
      (good : (b' : Broker) → IsPublished labels b' (next b')) where
    label_sent-IsPublished :
        (payload : Bytes) (answer : Option Error × Broker)
        → encode l ≡ ok payload
        → (answer.0 ≡ none → answer.1 ≡ b ++ message labels_topic l.transaction_id payload ∷ [])
        → IsPublished (l ∷ labels) b (label_sent encode next answer)
    unfolding label_sent
    label_sent-IsPublished payload (some e, b') encoded left =
        λ none_here. absurd (ground (arith, none_here))
    label_sent-IsPublished payload (none, b') encoded left = λ none_here.
        let m = message labels_topic l.transaction_id payload in
        let (ms, on_broker, carried) = good b' none_here in
        (
          m ∷ ms,
          on_broker ∙ ap (λ (x : Broker). x ++ ms) (left refl) ∙ append_assoc b (m ∷ []) ms,
          (encoded, refl, carried),
        )

    send_label-IsPublished :
        (net : Network) (payload : Result Bytes)
        → encode l ≡ payload
        → IsPublished (l ∷ labels) b (send_label encode net l next payload b)
    unfolding send_label
    send_label-IsPublished net (err e) encoded = λ none_here. absurd (ground (arith, none_here))
    send_label-IsPublished net (ok payload) encoded =
        label_sent-IsPublished payload (publish net labels_topic l.transaction_id payload b) encoded
          (publish-none net labels_topic l.transaction_id payload b)

    waited-IsPublished :
        (net : Network) (cancelled : Option Error)
        → IsPublished (l ∷ labels) b (elim cancelled as (λ x. Option Error × Broker) [
          | some e ↦ (some e, b)
          | none ↦ send_label encode net l next (encode l) b
        ])
    waited-IsPublished net (some e) = λ none_here. absurd (ground (arith, none_here))
    waited-IsPublished net none = send_label-IsPublished net (encode l) refl

  pub publish_labels-IsPublished :
      (rounds : FraudLabel → LabelRound) (labels : List FraudLabel) (b : Broker)
      → IsPublished labels b (publish_labels encode (map (λ l. (rounds l, l)) labels) b)
  unfolding publish_labels
  publish_labels-IsPublished rounds [] b = λ _. ([], sym (append-nil b), tt)
  publish_labels-IsPublished rounds (l ∷ labels) b =
      waited-IsPublished l labels b (publish_labels encode (map (λ l. (rounds l, l)) labels))
        (publish_labels-IsPublished rounds labels) (rounds l).network (rounds l).cancelled
