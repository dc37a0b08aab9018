-- ===== src/Stream/Producer.antt =====
-- `Producer.Publish` of internal/stream/kafka.go.
--
-- The broker is the log of the messages that it has. How a send goes is up to the network: the
-- broker has the message and says so, it never got it, or it has it and the answer was lost.
use learn_go_project.Prelude.{String, Option, none, some, List, [], ◌∷◌, ◌++◌}
use learn_go_project.Errors.{Error, wrap}
use learn_go_project.Platform.{Bytes}

abbrev pub transactions_topic : String
transactions_topic = "transactions.v1"

abbrev pub labels_topic : String
labels_topic = "fraud.labels.v1"

abbrev pub assessments_topic : String
assessments_topic = "fraud.assessments.v1"

abbrev pub dead_letter_topic : String
dead_letter_topic = "fraud.dead-letter.v1"

pub record Message : Type 0 where
  pub topic : String
  pub key : String
  pub value : Bytes

abbrev pub Broker : Type 0
Broker = List Message

pub data Delivery : Type 0 where
  delivered : Delivery
  undelivered : Error → Delivery
  unconfirmed : Error → Delivery

abbrev pub Network : Type 0
Network = Message → Broker → Delivery

abbrev pub message : String → String → Bytes → Message
message topic key value = record { topic = topic; key = key; value = value }

-- What `ProduceSync` returns and leaves of the broker.
unfoldable pub produce : Delivery → Message → Broker → Option Error × Broker
produce delivered m b = (none, b ++ m ∷ [])
produce (undelivered e) m b = (some e, b)
produce (unconfirmed e) m b = (some e, b ++ m ∷ [])

-- The error of a failed send names the topic.
abbrev pub with_topic : Option Error × Broker → Option Error × Broker
with_topic (none, b) = (none, b)
with_topic (some e, b) = (some (wrap "publish" e), b)

-- `Publish`
unfoldable pub publish : Network → String → String → Bytes → Broker → Option Error × Broker
unfolding produce
publish net topic key value b =
    let m = message topic key value in with_topic (produce (net m b) m b)
