-- ===== src/Com/Producers.antt =====
-- lib/com/comswitch/switch.go, lib/com/kafka (EnsureTopic, GetTopicConfig, getKafkaCompression and the
-- SyncProducer) and lib/com/httpcommand/producer.go: how a message leaves. Whether Kafka creates a topic
-- or takes a message, and what an address answers, are parameters.
use Prim.Native.String.{String}
use external_task_worker.Base.{
  Bool, true, false, Option, none, some, List, [], ◌∷◌, ◌++◌, ◌==◌, if◌then◌else◌, eqb,
}
use external_task_worker.Base.Text.{has_prefix}
use external_task_worker.Result.{Err, failure, Result, ok, err, Exec}
use external_task_worker.Camunda.Completion.{Answer, no_answer, status}
use external_task_worker.Com.Switch.{rest_producer, kafka_producer, get_child_producer}

pub data CompressionCodec : Type 0 where
  compression_none compression_gzip compression_snappy : CompressionCodec

-- getKafkaCompression, of the name in lower case
unfoldable pub get_kafka_compression : String → CompressionCodec
get_kafka_compression lower =
    if lower == "gzip"
    then compression_gzip
    else if lower == "snappy"
    then compression_snappy
    else compression_none

-- the entry of a topic
abbrev pub exact_config : {A : Type 0} → List (String × A) → String → Option A
exact_config [] topic = none
exact_config ((k, c) ∷ rest) topic = if k == topic then some c else exact_config rest topic

-- the first entry whose key begins the topic, in the order in which the map is walked
abbrev pub prefix_config : {A : Type 0} → List (String × A) → String → Option A
prefix_config [] topic = none
prefix_config ((k, c) ∷ rest) topic =
    if has_prefix topic k then some c else prefix_config rest topic

-- GetTopicConfig; a nil map has no entries
unfoldable pub get_topic_config : {A : Type 0} → List (String × A) → String → Option A
get_topic_config config_map topic = elim (exact_config config_map topic) [
  | some c ↦ some c
  | none ↦ prefix_config config_map topic
]

-- what Kafka was asked, in order: to create a topic, or to take a message, with a key or without
pub data Request : Type 0 where
  creates : String → Request
  sends : String → Option String → String → Request

-- a SyncProducer: its topics so far, and the requests that it made
pub record Producing : Type 0 where
  pub used_topics : List String
  pub requests : List Request

-- its settings, and what Kafka answers, given the requests before
pub record SyncProducer : Type 0 where
  pub init_topics : Bool
  pub answer : List Request → Request → Option Err

abbrev is_known : String → List String → Bool
is_known topic [] = false
is_known topic (t ∷ ts) = if t == topic then true else is_known topic ts

abbrev of_option : Option Err → Result (Unit {0})
of_option none = ok tt
of_option (some e) = err e

module _ (this : SyncProducer) where
  abbrev request : Request → Producing → Option Err × Producing
  request r p = (this.answer p.requests r, record p { requests = p.requests ++ r ∷ [] })

  abbrev created : String → Option Err × Producing → Result (Unit {0}) × Producing
  created topic (some e, p) = (err e, p)
  created topic (none, p) = (ok tt, record p { used_topics = topic ∷ p.used_topics })

  -- EnsureTopic
  unfoldable pub ensure_topic : String → Exec Producing (Unit {0})
  ensure_topic topic p =
      if is_known topic p.used_topics then (ok tt, p) else created topic (request (creates topic) p)

  -- an error of EnsureTopic is logged only
  abbrev sent : Request → Producing → Result (Unit {0}) × Producing
  sent r p = let (e, p') = request r p in (of_option e, p')

  unfoldable pub produce_sync : String → Option String → String → Exec Producing (Unit {0})
  unfolding ensure_topic
  produce_sync topic key message p =
      let (_, ensured) = ensure_topic topic p in
      sent (sends topic key message) (if this.init_topics then ensured else p)

-- httpcommand: a status other than 200 is an error; the key is dropped
unfoldable pub produce_http : Answer → Result (Unit {0})
produce_http (no_answer e) = err (failure e)
produce_http (status code body) = if eqb code 200 then ok tt else err (failure body)

-- the Producer of comswitch: the answer of the address, or of Kafka
unfoldable pub produce_with_key :
    SyncProducer
    → (String → String → Answer)
    → String
    → Option String
    → String
    → Exec Producing (Unit {0})
unfolding get_child_producer produce_sync produce_http
produce_with_key kafka post topic key message p = elim (get_child_producer topic) [
  | rest_producer ↦ (produce_http (post topic message), p)
  | kafka_producer ↦ produce_sync kafka topic key message p
]
