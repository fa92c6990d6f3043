-- ===== src/Tests/Producers.antt =====
-- A topic is created once, and an address takes a message of its own.
use external_task_worker.Base.{String, ◌≡◌, refl, true, none, some, [], ◌∷◌}
use external_task_worker.Result.{ok}
use external_task_worker.Camunda.Completion.{status}
use external_task_worker.Com.Producers.{
  SyncProducer, Producing, creates, sends, produce_with_key, get_topic_config,
  get_kafka_compression, compression_gzip, compression_none,
}

abbrev kafka : SyncProducer
kafka = record { init_topics = true; answer = λ before r. none }

abbrev nothing_sent : Producing
nothing_sent = record { used_topics = []; requests = [] }

abbrev one_sent : Producing
one_sent = (produce_with_key kafka (λ topic m. status 200 "") "topic" (some "k") "m" nothing_sent).1

topic_once :
    (produce_with_key kafka (λ topic m. status 200 "") "topic" none "n" one_sent).1.requests
    ≡ creates "topic" ∷ sends "topic" (some "k") "m" ∷ sends "topic" none "n" ∷ []
unfolding produce_with_key
topic_once = refl

no_kafka :
    produce_with_key kafka (λ topic m. status 200 "") "https://device" none "n" one_sent
    ≡ (ok tt, one_sent)
unfolding produce_with_key
no_kafka = refl

configs :
    (get_topic_config {A = String} (("a", "prefix") ∷ ("ab", "exact") ∷ []) "ab" ≡ some "exact")
    × (get_topic_config {A = String} (("a", "prefix") ∷ ("ab", "exact") ∷ []) "ac" ≡ some "prefix")
    × (get_kafka_compression "gzip" ≡ compression_gzip)
    × (get_kafka_compression "zip" ≡ compression_none)
unfolding get_topic_config get_kafka_compression
configs = (refl, refl, refl, refl)
