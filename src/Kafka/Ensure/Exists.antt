-- ===== src/Kafka/Ensure/Exists.antt =====
-- The topics that are there after EnsureTopics.
use mathlib.Core.List.{Memᴰ}
use Prim.Native.String.{◌++◌ as join}
use ppchat.Prelude.{
  ◌≤◌, max, ℕ_discrete, ◌⊎◌, ◌<◌, ◌+◌, zero, suc, ℕ, ◌≡◌, inl, inr, if_pos, if_neg, refl, sym, ap,
  subst, ◌∙◌, arith, String, ite, Bool, true, false, ◌||◌, none, some, List, [], ◌∷◌, length, ◌==◌,
  str_dec, lookup, insert, lookup-insert, Bool-cases, Option-cases,
}
use ppchat.Kafka.Topics.{Texts, topic_name, names_from, expand_pattern}
use ppchat.Kafka.Topics.Generated.{occurs, occurs-append}
use ppchat.Kafka.Ensure.{
  TopicPlan, HandlerConfig, AppConfig, Admin, planned_as, plan_topic, plan_topics, names_of,
  candidates, plan_configs, ignored, plan_at, create_each, ensure_listed, ensure_topics, factor_of,
}

occurs-names_of-insert :
    (s t : String) (p : TopicPlan) (plans : List (String × TopicPlan))
    → occurs s (names_of (insert str_dec t p plans))
      ≡ (ite (str_dec t s) true false || occurs s (names_of plans))
unfolding insert
occurs-names_of-insert s t p [] = ground arith
occurs-names_of-insert s t p ((n, q) ∷ plans) = ground (arith, occurs-names_of-insert s t p plans)

occurs_of-lookup :
    (t : String) (p : TopicPlan) (plans : List (String × TopicPlan))
    → lookup str_dec t plans ≡ some p
    → occurs t (names_of plans) ≡ true
unfolding lookup
occurs_of-lookup t p [] h = absurd cc
occurs_of-lookup t p ((n, q) ∷ plans) h = ground (arith, h, occurs_of-lookup t p plans)

-- A candidate is planned or exists; what is planned stays so.
plan_topic-own :
    (existing : List String) (factor : ℕ) (t : String) (plans : List (String × TopicPlan))
    → (occurs t existing || occurs t (names_of (plan_topic existing factor t plans))) ≡ true
unfolding plan_topic
plan_topic-own existing factor t plans = elim (Bool-cases (occurs t existing)) [
  | inl there ↦ rw there refl
  | inr away ↦ elim (Option-cases (lookup str_dec t plans)) [
    | inl new ↦
        rw (away, new) (ground (arith, occurs-names_of-insert t t (planned_as factor t) plans))
    | inr (p, dup) ↦ rw (away, dup) (occurs_of-lookup t p plans dup)
  ]
]

plan_topic-keeps :
    (existing : List String) (factor : ℕ) (t s : String) (plans : List (String × TopicPlan))
    → occurs s (names_of plans) ≡ true
    → occurs s (names_of (plan_topic existing factor t plans)) ≡ true
unfolding plan_topic
plan_topic-keeps existing factor t s plans h = elim (Bool-cases (occurs t existing)) [
  | inl there ↦ rw there h
  | inr away ↦ elim (Option-cases (lookup str_dec t plans)) [
    | inl new ↦
        rw (away, new) (ground (arith, h, occurs-names_of-insert s t (planned_as factor t) plans))
    | inr (p, dup) ↦ rw (away, dup) h
  ]
]

plan_topics-keeps :
    (existing : List String) (factor : ℕ) (ts : List String) (s : String)
    (plans : List (String × TopicPlan))
    → occurs s (names_of plans) ≡ true
    → occurs s (names_of (plan_topics existing factor ts plans)) ≡ true
unfolding plan_topics
plan_topics-keeps existing factor [] s plans h = h
plan_topics-keeps existing factor (t ∷ ts) s plans h =
    plan_topics-keeps existing factor ts s (plan_topic existing factor t plans)
      (plan_topic-keeps existing factor t s plans h)

plan_topics-all :
    (existing : List String) (factor : ℕ) (ts : List String) (s : String)
    (plans : List (String × TopicPlan))
    → occurs s ts ≡ true
    → (occurs s existing || occurs s (names_of (plan_topics existing factor ts plans))) ≡ true
unfolding plan_topics
plan_topics-all existing factor [] s plans h = absurd cc
plan_topics-all existing factor (t ∷ ts) s plans h = elim (str_dec t s) [
  | no apart ↦
      plan_topics-all existing factor ts s (plan_topic existing factor t plans)
        (ground (arith, apart, h))
  | yes same ↦ elim (Bool-cases (occurs s existing)) [
    | inl there ↦ rw there refl
    | inr away ↦
        let own = plan_topic-own existing factor t plans in
        let kept =
          plan_topics-keeps existing factor ts s (plan_topic existing factor t plans)
            (ground (arith, own, away, same)) in
        rw away kept
  ]
]

-- The plan of a name is a plan for that name.
Named : List (String × TopicPlan) → Type 0
Named plans = (t : String) (p : TopicPlan) → lookup str_dec t plans ≡ some p → p.name ≡ t

plan_topic-Named :
    (existing : List String) (factor : ℕ) (t : String) (plans : List (String × TopicPlan))
    → Named plans
    → Named (plan_topic existing factor t plans)
unfolding plan_topic Named
plan_topic-Named existing factor t plans h = elim (Bool-cases (occurs t existing)) [
  | inl there ↦ rw there h
  | inr away ↦ elim (Option-cases (lookup str_dec t plans)) [
    | inl new ↦
        rw (away, new)
          (λ s p at. elim (str_dec t s) [
            | yes same ↦
                let own =
                  sym (
                    lookup-insert str_dec t s (planned_as factor t) plans
                    ∙ if_pos (str_dec t s) same _ _)
                  ∙ at in
                let this : planned_as factor t ≡ p = cc in
                ap (λ (q : TopicPlan). q.name) (sym this) ∙ same
            | no apart ↦ h s p (
                sym (
                  lookup-insert str_dec t s (planned_as factor t) plans
                  ∙ if_neg (str_dec t s) apart _ _)
                ∙ at)
          ])
    | inr (p, dup) ↦ rw (away, dup) h
  ]
]

plan_topics-Named :
    (existing : List String) (factor : ℕ) (ts : List String) (plans : List (String × TopicPlan))
    → Named plans
    → Named (plan_topics existing factor ts plans)
unfolding plan_topics
plan_topics-Named existing factor [] plans h = h
plan_topics-Named existing factor (t ∷ ts) plans h =
    plan_topics-Named existing factor ts (plan_topic existing factor t plans)
      (plan_topic-Named existing factor t plans h)

lookup_of-occurs :
    (t : String) (plans : List (String × TopicPlan))
    → occurs t (names_of plans) ≡ true
    → (p : TopicPlan) × (lookup str_dec t plans ≡ some p)
unfolding lookup
lookup_of-occurs t [] h = absurd cc
lookup_of-occurs t ((n, q) ∷ plans) h = elim (str_dec n t) [
  | yes same ↦ (q, if_pos (str_dec n t) same _ _)
  | no apart ↦
      let (p, at) = lookup_of-occurs t plans (ground (arith, apart, h)) in
      (p, if_neg (str_dec n t) apart _ _ ∙ at)
]

module _ (texts : Texts) where
  open texts use {sprintf, contains, replace_all, itoa}

  -- The `i`th name of a pattern: `i` in the place of `%d` or, where that is not there, of `{i}`, or after
  -- a dash where neither is there.
  abbrev pub IsNumbered : String → ℕ → String → Type 0
  IsNumbered pattern i t =
      ((contains pattern "%d" ≡ true) × (t ≡ sprintf pattern i))
      ⊎ (((contains pattern "%d" ≡ false)
            × (contains pattern "{i}" ≡ true)
            × (t ≡ replace_all pattern "{i}" (itoa i)))
          ⊎ ((contains pattern "%d" ≡ false)
              × (contains pattern "{i}" ≡ false)
              × (t ≡ join (join pattern "-") (itoa i))))

  IsNumbered-topic_name :
      (pattern : String) (i : ℕ) (t : String)
      → IsNumbered pattern i t
      → topic_name texts pattern i ≡ t
  unfolding topic_name
  IsNumbered-topic_name pattern i t (inl (d, same)) = rw d (sym same)
  IsNumbered-topic_name pattern i t (inr (inl (d, b, same))) = rw (d, b) (sym same)
  IsNumbered-topic_name pattern i t (inr (inr (d, b, same))) = rw (d, b) (sym same)

  occurs-names_from :
      (pattern : String) (k count j : ℕ)
      → j ≤ k
      → k < j + count
      → occurs (topic_name texts pattern k) (names_from texts pattern j count) ≡ true
  unfolding names_from
  occurs-names_from pattern k zero j low high = absurd (omega (arith, low, high))
  occurs-names_from pattern k (suc count) j low high = elim (ℕ_discrete j k) [
    | yes same ↦ ground (arith, ap (topic_name texts pattern) same)
    | no apart ↦
        let rest =
          occurs-names_from pattern k count (suc j) (omega (arith, low, apart))
            (omega (arith, high)) in
        ground (arith, rest)
  ]

  occurs-expand_pattern :
      (pattern : String) (count i : ℕ) (t : String)
      → (i < count) ⊎ (i ≡ 0)
      → IsNumbered pattern i t
      → occurs t (expand_pattern texts pattern count) ≡ true
  unfolding expand_pattern
  occurs-expand_pattern pattern count i t bound named =
      let low : i < 0 + max 1 count = elim bound [
        | inl h ↦ omega (arith, h)
        | inr h ↦ omega (arith, h)
      ] in
      subst (λ s. occurs s (names_from texts pattern 0 (max 1 count)) ≡ true)
        (IsNumbered-topic_name pattern i t named)
        (occurs-names_from pattern i (max 1 count) 0 (omega arith) low)

module _ (texts : Texts) {H : Type 0} (same : H → H → Bool) where
  -- A name that one of the two patterns of one of the configurations has, for a number below its count
  -- of topics, or 0.
  abbrev pub IsAsked : String → List (HandlerConfig H) → Type 0
  IsAsked t mcs =
      (mc : HandlerConfig H) × Memᴰ mc mcs
      × ((pattern : String) × ((pattern ≡ mc.topics.send_topic_pattern)
            ⊎ (pattern ≡ mc.topics.receive_topic_pattern))
          × ((i : ℕ) × ((i < mc.topics.topic_count) ⊎ (i ≡ 0)) × IsNumbered texts pattern i t))

  -- A candidate of one of the configurations.
  abbrev wanted : String → List (HandlerConfig H) → Bool
  wanted s [] = false
  wanted s (mc ∷ mcs) = occurs s (candidates texts same mc) || wanted s mcs

  candidates-all :
      (mc : HandlerConfig H) (pattern t : String) (i : ℕ)
      → (pattern ≡ mc.topics.send_topic_pattern) ⊎ (pattern ≡ mc.topics.receive_topic_pattern)
      → (i < mc.topics.topic_count) ⊎ (i ≡ 0)
      → IsNumbered texts pattern i t
      → occurs t (candidates texts same mc) ≡ true
  unfolding candidates
  candidates-all mc pattern t i which bound named =
      let c = mc.topics.topic_count in
      let it = occurs-expand_pattern texts pattern c i t bound named in
      let both =
        occurs-append t (expand_pattern texts mc.topics.send_topic_pattern c)
          (expand_pattern texts mc.topics.receive_topic_pattern c) in
      elim which [
        | inl send ↦
            let here = ap (λ p. occurs t (expand_pattern texts p c)) (sym send) ∙ it in
            ground (arith, both, here)
        | inr recv ↦
            let here = ap (λ p. occurs t (expand_pattern texts p c)) (sym recv) ∙ it in
            ground (arith, both, here)
      ]

  IsAsked-wanted : (t : String) (mcs : List (HandlerConfig H)) → IsAsked t mcs → wanted t mcs ≡ true
  IsAsked-wanted t [] (mc, at, _) = elim at [ ]
  IsAsked-wanted t (d ∷ mcs) (mc, Memᴰ.head e, (pattern, which, (i, bound, named))) =
      let this = candidates-all mc pattern t i which bound named in
      let here = ap (λ x. occurs t (candidates texts same x)) (sym e) ∙ this in ground (arith, here)
  IsAsked-wanted t (d ∷ mcs) (mc, Memᴰ.tail at, asked) =
      let rest = IsAsked-wanted t mcs (mc, at, asked) in ground (arith, rest)

  plan_configs-keeps :
      (existing : List String) (mcs : List (HandlerConfig H)) (s : String)
      (plans : List (String × TopicPlan)) (m : List (String × H))
      → occurs s (names_of plans) ≡ true
      → occurs s (names_of (plan_configs texts same true existing mcs plans m).0) ≡ true
  unfolding plan_configs
  plan_configs-keeps existing [] s plans m h = h
  plan_configs-keeps existing (mc ∷ mcs) s plans m h = plan_configs-keeps existing mcs s _ _ (
      plan_topics-keeps existing (factor_of mc.replication_factor) (candidates texts same mc) s
        plans h)

  plan_configs-all :
      (existing : List String) (mcs : List (HandlerConfig H)) (s : String)
      (plans : List (String × TopicPlan)) (m : List (String × H))
      → wanted s mcs ≡ true
      → (occurs s existing
          || occurs s (names_of (plan_configs texts same true existing mcs plans m).0))
        ≡ true
  unfolding plan_configs
  plan_configs-all existing [] s plans m h = absurd cc
  plan_configs-all existing (mc ∷ mcs) s plans m h =
      elim (Bool-cases (occurs s (candidates texts same mc))) [
        | inr later ↦ plan_configs-all existing mcs s _ _ (ground (arith, later, h))
        | inl here ↦ elim (Bool-cases (occurs s existing)) [
          | inl there ↦ rw there refl
          | inr away ↦
              let own =
                plan_topics-all existing (factor_of mc.replication_factor)
                  (candidates texts same mc) s plans here in
              let kept =
                plan_configs-keeps existing mcs s
                  (plan_topics existing (factor_of mc.replication_factor) (candidates texts same mc)
                    plans)
                  _ (ground (arith, own, away)) in
              rw away kept
        ]
      ]

  plan_configs-Named :
      (existing : List String) (mcs : List (HandlerConfig H)) (plans : List (String × TopicPlan))
      (m : List (String × H))
      → Named plans
      → Named (plan_configs texts same true existing mcs plans m).0
  unfolding plan_configs
  plan_configs-Named existing [] plans m h = h
  plan_configs-Named existing (mc ∷ mcs) plans m h = plan_configs-Named existing mcs _ _ (
      plan_topics-Named existing (factor_of mc.replication_factor) (candidates texts same mc) plans
        h)

  module _ {A E : Type 0} (admin : Admin A E) (to_lower : String → String)
      (sort : List String → List String) where
    open admin use {has_topic, list_topics, create_topic}

    -- What a creation does: the topics that are there stay; the new one is there, unless the error is
    -- not ignored.
    abbrev pub Creates : Type 0
    Creates =
        (a : A) (t : String) (p : TopicPlan)
        → ((s : String) → has_topic a s ≡ true → has_topic (create_topic a p).0 s ≡ true)
          × (p.name ≡ t
              → ignored texts same admin to_lower sort (create_topic a p).1 ≡ true
              → has_topic (create_topic a p).0 t ≡ true)

    create_each-keeps :
        (plans : List (String × TopicPlan)) (names : List String) (a : A) (s : String)
        → Creates
        → has_topic a s ≡ true
        → has_topic (create_each texts same admin to_lower sort plans names a).0 s ≡ true
    unfolding create_each
    create_each-keeps plans [] a s law h = h
    create_each-keeps plans (name ∷ names) a s law h =
        let p = plan_at texts same admin to_lower sort (lookup str_dec name plans) in
        let h1 = (law a name p).0 s h in
        elim (Bool-cases (ignored texts same admin to_lower sort (create_topic a p).1)) [
          | inl fine ↦ rw fine (create_each-keeps plans names (create_topic a p).0 s law h1)
          | inr bad ↦ rw bad h1
        ]

    create_each-all :
        (plans : List (String × TopicPlan)) (names : List String) (a : A) (t : String)
        (p : TopicPlan)
        → Creates
        → lookup str_dec t plans ≡ some p
        → p.name ≡ t
        → occurs t names ≡ true
        → (create_each texts same admin to_lower sort plans names a).1 ≡ true
        → has_topic (create_each texts same admin to_lower sort plans names a).0 t ≡ true
    unfolding create_each
    create_each-all plans [] a t p law at named h ok = absurd cc
    create_each-all plans (name ∷ names) a t p law at named h ok =
        let q = plan_at texts same admin to_lower sort (lookup str_dec name plans) in
        let a1 = (create_topic a q).0 in
        let rest = create_each texts same admin to_lower sort plans names a1 in
        elim (Bool-cases (ignored texts same admin to_lower sort (create_topic a q).1)) [
          | inr bad ↦ absurd (ground (arith, bad, ok))
          | inl fine ↦
              let ok' : rest.1 ≡ true = ground (arith, fine, ok) in
              rw fine (elim (str_dec name t) [
                | no apart ↦
                    create_each-all plans names a1 t p law at named (ground (arith, apart, h)) ok'
                | yes same_name ↦
                    let plan_q : q.name ≡ t = rw (same_name, at) named in
                    create_each-keeps plans names a1 t law ((law a t q).1 plan_q fine)
              ])
        ]

    created_all :
        (app : AppConfig H) (m : List (String × H)) (a : A) (existing : List String) (t : String)
        → app.auto_create_topics_on_start ≡ true
        → Creates
        → (occurs t existing ≡ true → has_topic a t ≡ true)
        → ((ts : List String) → occurs t (sort ts) ≡ occurs t ts)
        → wanted t app.message_configs ≡ true
        → (ensure_listed texts same admin to_lower sort app (some existing) m a).2 ≡ true
        → has_topic (ensure_listed texts same admin to_lower sort app (some existing) m a).0 t
          ≡ true
    unfolding ensure_listed Named
    created_all app m a existing t auto law lists sorts want =
        subst
          (λ b.
            let plans = (plan_configs texts same b existing app.message_configs [] m).0 in
            let res = create_each texts same admin to_lower sort plans (sort (names_of plans)) a in
            res.1 ≡ true → has_topic res.0 t ≡ true)
          (sym auto)
          (λ ok.
            let plans = (plan_configs texts same true existing app.message_configs [] m).0 in
            elim (Bool-cases (occurs t existing)) [
              | inl there ↦ create_each-keeps plans (sort (names_of plans)) a t law (lists there)
              | inr away ↦
                  let all = plan_configs-all existing app.message_configs t [] m want in
                  let (p, at) = lookup_of-occurs t plans (ground (arith, all, away)) in
                  let named =
                    plan_configs-Named existing app.message_configs [] m (λ s q h. absurd cc) t p
                      at in
                  create_each-all plans (sort (names_of plans)) a t p law at named
                    (sorts (names_of plans) ∙ occurs_of-lookup t p plans at) ok
            ])

    none_listed :
        (app : AppConfig H) (m : List (String × H)) (a : A)
        → (length app.brokers == 0) ≡ false
        → list_topics a ≡ none
        → (ensure_topics texts same admin to_lower sort app m a).2 ≡ true
        → ⊥
    unfolding ensure_topics ensure_listed
    none_listed app m a brokers failed ok =
        let shut : (ensure_topics texts same admin to_lower sort app m a).2 ≡ false =
          rw (brokers, failed) refl in
        absurd cc

    -- Where topics are created on start, the list of the cluster has the topics that are there, a
    -- creation does what `Creates` says, and sorting keeps what occurs: if `EnsureTopics` returns no
    -- error, each name of the send pattern and of the receive pattern of each configuration, for each
    -- number below its count of topics or, where this is 0, for 0, is a topic of the cluster.
    pub ensure_topics-has_topic :
        (app : AppConfig H) (m : List (String × H)) (a : A)
        → app.auto_create_topics_on_start ≡ true
        → ((ts : List String) (t : String)
            → list_topics a ≡ some ts
            → occurs t ts ≡ true
            → has_topic a t ≡ true)
        → Creates
        → ((t : String) (ts : List String) → occurs t (sort ts) ≡ occurs t ts)
        → (t : String) → IsAsked t app.message_configs
        → (ensure_topics texts same admin to_lower sort app m a).2 ≡ true
        → has_topic (ensure_topics texts same admin to_lower sort app m a).0 t ≡ true
    unfolding ensure_topics ensure_listed
    ensure_topics-has_topic app m a auto lists law sorts t want ok =
        elim (Bool-cases (length app.brokers == 0)) [
          | inl nobody ↦ absurd (ground (arith, nobody, ok))
          | inr brokers ↦ elim (Option-cases (list_topics a)) [
            | inl failed ↦ absurd (none_listed app m a brokers failed ok)
            | inr (existing, listed) ↦
                let opened : ensure_topics texts same admin to_lower sort app m a
                    ≡ ensure_listed texts same admin to_lower sort app (some existing) m a =
                  rw (brokers, listed) refl in
                rw opened (
                  created_all app m a existing t auto law (lists existing t listed) (sorts t)
                    (IsAsked-wanted t app.message_configs want)
                    (sym (ap (λ (res : A × List (String × H) × Bool). res.2) opened) ∙ ok))
          ]
        ]
