-- ===== src/Kafka/Topics/Tests.antt =====
-- Runs of the topic names of service/dispatcher/kafka, on patterns without a place for the number.
use ppchat.Prelude.{ℕ, zero, suc, ◌≡◌, String, true, false, [], ◌∷◌}
use ppchat.Kafka.Topics.{Texts, MessageHandlerConfig, gen_topics}
use ppchat.Kafka.Topics.Generated.{NoDuplicates, occurs, every_topic, gen_topics-NoDuplicates}

abbrev digit : ℕ → String
digit zero = "0"
digit (suc n) = "1"

abbrev texts : Texts
texts = record {
  sprintf = λ p i. p;
  contains = λ p s. false;
  replace_all = λ p old new. p;
  itoa = digit;
  crc32 = λ s. 7;
}

abbrev handler : MessageHandlerConfig
handler = record {
  send_topic_pattern = "send";
  receive_topic_pattern = "recv";
  topic_count = 2;
  is_consumer = true;
  node_id = "n1";
}

gen_topics-NoDuplicates_example :
    NoDuplicates (gen_topics texts (handler ∷ handler ∷ []))
    × ((t : String)
        → occurs t (gen_topics texts (handler ∷ handler ∷ []))
          ≡ occurs t (every_topic texts (handler ∷ handler ∷ [])))
gen_topics-NoDuplicates_example = gen_topics-NoDuplicates texts (handler ∷ handler ∷ [])
