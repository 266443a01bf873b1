-- ===== src/Kafka/Ensure/Tests.antt =====
-- A run of EnsureTopics on a cluster that is the list of its topics.
use mathlib.Core.List.{Memᴰ}
use ppchat.Prelude.{
  inr, ◌≡◌, refl, sym, subst, arith, String, Bool, true, false, none, some, List, [], ◌∷◌, str_dec,
}
use ppchat.Kafka.Topics.{Texts, expand_pattern, names_from, topic_name}
use ppchat.Kafka.Topics.Generated.{occurs}
use ppchat.Kafka.Ensure.{
  AppConfig, Admin, ensure_topics, ensure_listed, create_each, plan_configs, plan_topics,
  plan_topic, candidates,
}
use ppchat.Kafka.Ensure.Exists.{Creates, ensure_topics-has_topic}

abbrev texts : Texts
texts = record {
  sprintf = λ p i. p;
  contains = λ p s. false;
  replace_all = λ p old new. p;
  itoa = λ n. "0";
  crc32 = λ s. 7;
}

abbrev admin : Admin (List String) (Unit {0})
admin = record {
  has_topic = λ a t. occurs t a;
  list_topics = λ a. some a;
  create_topic = λ a p. (p.name ∷ a, none);
  is_already_exists = λ e. true;
  error_text = λ e. "";
}

abbrev same : Unit {0} → Unit {0} → Bool
same f g = true

abbrev unchanged : List String → List String
unchanged ts = ts

abbrev lower : String → String
lower s = s

creates : Creates texts same admin lower unchanged
creates a t p = (λ s h. ground (arith, h), λ named fine. ground (arith, named))

abbrev app : AppConfig (Unit {0})
app = record {
  brokers = "127.0.0.1:9092" ∷ [];
  message_configs =
      record {
        topics = record {
          send_topic_pattern = "send";
          receive_topic_pattern = "recv";
          topic_count = 1;
          is_consumer = true;
          node_id = "n1";
        };
        handler = none;
        replication_factor = 1;
      }
      ∷ [];
  auto_create_topics_on_start = true;
}

ensure_topics-has_topic_example :
    occurs "recv-0" (ensure_topics texts same admin lower unchanged app [] ("other" ∷ [])).0 ≡ true
unfolding ensure_topics ensure_listed create_each plan_configs plan_topics plan_topic candidates
    expand_pattern names_from topic_name str_dec
ensure_topics-has_topic_example =
    ensure_topics-has_topic texts same admin lower unchanged app [] ("other" ∷ []) refl
      (λ ts t listed h.
        let equal : "other" ∷ [] ≡ ts = cc in
        subst (λ (xs : List String). occurs t xs ≡ true) (sym equal) h)
      creates (λ t ts. refl) "recv-0"
      (_, Memᴰ.head refl, ("recv", inr refl, (0, inr refl, inr (inr (refl, refl, refl))))) refl
