-- ===== src/Kafka/Ensure.antt =====
-- service/dispatcher/kafka: the handlers of topics (handler.go, handlers_bootstrap.go) and the creation
-- of the topics (EnsureTopics of topic_ensure.go). `H` are the handlers, of which `same` compares the
-- pointers, and `none` is nil. The timeouts and the version that the client is made with are left out.
use ppchat.Prelude.{
  ℕ, zero, suc, ◌-◌, ◌%◌, ◌≡◌, String, ite, Bool, true, false, ◌&&◌, ◌||◌, Option, none, some, List,
  [], ◌∷◌, ◌++◌, length, ltb, ◌==◌, if◌then◌else◌, str_dec, lookup, insert,
}
use ppchat.Kafka.Topics.{Texts, MessageHandlerConfig, expand_pattern, gen_keys}
use ppchat.Kafka.Topics.Generated.{occurs}
-- A topic to create; the texts of the settings that are the same for all are left out.
pub mod Exists
mod Tests

pub record TopicPlan : Type 0 where
  pub name : String
  pub partitions : ℕ
  pub replication_factor : ℕ
  pub min_isr : ℕ

-- A handler configuration with its handler; a factor that is not positive is 0.
pub record HandlerConfig (H : Type 0) : Type 0 where
  pub topics : MessageHandlerConfig
  pub handler : Option H
  pub replication_factor : ℕ

pub record AppConfig (H : Type 0) : Type 0 where
  pub brokers : List String
  pub message_configs : List (HandlerConfig H)
  pub auto_create_topics_on_start : Bool

-- The client of the cluster on the cluster's state `A`, with errors `E`; a client that cannot be made
-- and a list that fails are `none`. A topic that is created is there, and so is one that the cluster
-- reports as one that exists; no creation takes a topic away.
pub record Admin (A E : Type 0) : Type 0 where
  pub has_topic : A → String → Bool
  pub list_topics : A → Option (List String)
  pub create_topic : A → TopicPlan → A × Option E
  pub is_already_exists : E → Bool
  pub error_text : E → String

-- `RegisterHandler`
unfoldable pub register_handler :
    {H : Type 0}
    → (H → H → Bool)
    → String
    → Option H
    → List (String × H)
    → List (String × H) × Bool × Bool
unfolding lookup insert
register_handler same topic none m = (m, false, false)
register_handler same topic (some handler) m = elim (lookup str_dec topic m) [
  | some old ↦ (m, same old handler, true)
  | none ↦ (insert str_dec topic handler m, true, false)
]

-- `RegisterDefaultHandlers`
unfoldable pub register_default_handlers :
    {H : Type 0} → (H → H → Bool) → List String → Option H → List (String × H) → List (String × H)
unfolding register_handler
register_default_handlers same [] handler m = m
register_default_handlers same (t ∷ ts) handler m =
    register_default_handlers same ts handler (register_handler same t handler m).0

-- `GetHandler`; `none` is the error.
unfoldable pub get_handler : {H : Type 0} → String → List (String × H) → Option H
unfolding lookup
get_handler topic m = lookup str_dec topic m

-- `int16(mc.ReplicationFactor)`, and 1 where that is not positive
abbrev factor_of : ℕ → ℕ
factor_of n = let r = n % 65536 in if ltb 0 r && ltb r 32768 then r else 1

abbrev planned_as : ℕ → String → TopicPlan
planned_as factor t = record {
  name = t;
  partitions = 3;
  replication_factor = factor;
  min_isr = if ltb 1 factor then factor - 1 else 1;
}

-- The body of the loop over the candidates.
unfoldable pub plan_topic :
    List String → ℕ → String → List (String × TopicPlan) → List (String × TopicPlan)
unfolding lookup insert
plan_topic existing factor t plans =
    if occurs t existing then plans else elim (lookup str_dec t plans) [
      | some dup ↦ plans
      | none ↦ insert str_dec t (planned_as factor t) plans
    ]

unfoldable pub plan_topics :
    List String → ℕ → List String → List (String × TopicPlan) → List (String × TopicPlan)
unfolding plan_topic
plan_topics existing factor [] plans = plans
plan_topics existing factor (t ∷ ts) plans =
    plan_topics existing factor ts (plan_topic existing factor t plans)

abbrev pub names_of : List (String × TopicPlan) → List String
names_of [] = []
names_of ((name, plan) ∷ plans) = name ∷ names_of plans

module _ (texts : Texts) {H : Type 0} (same : H → H → Bool) where
  unfoldable pub candidates : HandlerConfig H → List String
  unfolding expand_pattern
  candidates mc =
      expand_pattern texts mc.topics.send_topic_pattern mc.topics.topic_count
      ++ expand_pattern texts mc.topics.receive_topic_pattern mc.topics.topic_count

  -- `SendTopicKeys` and `ReceiveTopicKeys`, by their pattern; both methods are there.
  unfoldable pub register_keys : HandlerConfig H → List (String × H) → List (String × H)
  unfolding gen_keys register_default_handlers
  register_keys mc m =
      let send_keys =
        gen_keys texts mc.topics mc.topics.send_topic_pattern mc.topics.topic_count true in
      let recv_keys =
        gen_keys texts mc.topics mc.topics.receive_topic_pattern mc.topics.topic_count true in
      register_default_handlers same recv_keys mc.handler
        (register_default_handlers same send_keys mc.handler m)

  -- The loop over the configurations: the plans, and the handlers.
  unfoldable pub plan_configs :
      Bool
      → List String
      → List (HandlerConfig H)
      → List (String × TopicPlan)
      → List (String × H)
      → List (String × TopicPlan) × List (String × H)
  unfolding plan_topics candidates register_keys
  plan_configs auto existing [] plans m = (plans, m)
  plan_configs auto existing (mc ∷ mcs) plans m =
      let plans' =
        if auto
        then plan_topics existing (factor_of mc.replication_factor) (candidates mc) plans
        else plans in
      let m' = if auto then register_keys mc m else m in plan_configs auto existing mcs plans' m'

  module _ {A E : Type 0} (admin : Admin A E) (to_lower : String → String)
      (sort : List String → List String) where
    open admin use {has_topic, list_topics, create_topic, is_already_exists, error_text}

    abbrev pub is_topic_exists_err : E → Bool
    is_topic_exists_err err =
        is_already_exists err || texts.contains (to_lower (error_text err)) "already exists"

    abbrev pub ignored : Option E → Bool
    ignored none = true
    ignored (some err) = is_topic_exists_err err

    abbrev zero_plan : TopicPlan
    zero_plan = record { name = ""; partitions = 0; replication_factor = 0; min_isr = 0 }

    abbrev plan_at : Option TopicPlan → TopicPlan
    plan_at none = zero_plan
    plan_at (some p) = p

    -- Whether all topics are there, or the error of a creation that is not ignored.
    unfoldable pub create_each : List (String × TopicPlan) → List String → A → A × Bool
    unfolding lookup
    create_each plans [] a = (a, true)
    create_each plans (name ∷ names) a =
        let (a1, res) = create_topic a (plan_at (lookup str_dec name plans)) in
        let rest = create_each plans names a1 in if ignored res then rest else (a1, false)

    unfoldable pub ensure_listed :
        AppConfig H → Option (List String) → List (String × H) → A → A × List (String × H) × Bool
    unfolding plan_configs create_each
    ensure_listed app none m a = (a, m, false)
    ensure_listed app (some existing) m a =
        let (plans, m1) =
          plan_configs app.auto_create_topics_on_start existing app.message_configs [] m in
        let (a1, ok) = create_each plans (sort (names_of plans)) a in (a1, m1, ok)

    -- `EnsureTopics`, with a client that is made: the cluster, the handlers, and whether there is no
    -- error.
    unfoldable pub ensure_topics :
        AppConfig H → List (String × H) → A → A × List (String × H) × Bool
    unfolding ensure_listed
    ensure_topics app m a =
        if length app.brokers == 0 then (a, m, false) else ensure_listed app (list_topics a) m a
