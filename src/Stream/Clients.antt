-- ===== src/Stream/Clients.antt =====
-- `NewProducer`, `NewConsumer` and their `Close` of internal/stream/kafka.go. Whether a client of
-- Kafka can be made is an argument, by its settings.
use learn_go_project.Prelude.{String, Option, none, some, List}
use learn_go_project.Errors.{Result, with_prefix}
use learn_go_project.Exec.{Exec}
use learn_go_project.Resources.{producer, consumer, Log, acquire}

-- The options of kgo.NewClient that the code sets from its arguments: SeedBrokers, and for a consumer
-- ConsumerGroup and ConsumeTopics.
pub record Settings : Type 0 where
  pub seed_brokers : List String
  pub subscription : Option (String × String)

-- `NewProducer`
unfoldable pub new_producer : (Settings → Result (Unit {0})) → List String → Exec Log (Unit {0})
unfolding acquire
new_producer new_client brokers = acquire producer (
    with_prefix "create kafka producer"
      (new_client (record { seed_brokers = brokers; subscription = none })))

-- `NewConsumer`
unfoldable pub new_consumer :
    (Settings → Result (Unit {0})) → List String → String → String → Exec Log (Unit {0})
unfolding acquire
new_consumer new_client brokers group topic = acquire (consumer group) (
    with_prefix "create kafka consumer"
      (new_client (record { seed_brokers = brokers; subscription = some (group, topic) })))
