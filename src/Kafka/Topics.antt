-- ===== src/Kafka/Topics.antt =====
-- service/dispatcher/kafka: the topic names of config.go, router.go and topic_ensure.go.
pub mod Generated
mod Tests
use Prim.Native.String.{◌++◌ as join}
use ppchat.Prelude.{
  ℕ, zero, suc, ◌%◌, ◌^◌, String, Bool, true, false, Option, none, some, List, [], ◌∷◌, ◌++◌,
  length, get_elem?, max, if◌then◌else◌, str_dec, lookup, insert,
}

-- What the files use of fmt, strings, strconv and hash/crc32; `sprintf p i` is `fmt.Sprintf(p, i)`.
pub record Texts : Type 0 where
  pub sprintf : String → ℕ → String
  pub contains : String → String → Bool
  pub replace_all : String → String → String → String
  pub itoa : ℕ → String
  pub crc32 : String → ℕ

-- The fields that the names depend on. A count that is not positive is 0.
pub record MessageHandlerConfig : Type 0 where
  pub send_topic_pattern : String
  pub receive_topic_pattern : String
  pub topic_count : ℕ
  pub is_consumer : Bool
  pub node_id : String

abbrev or_no_text : Option String → String
or_no_text none = ""
or_no_text (some t) = t

-- `if _, ok := seen[t]; ok { continue }; seen[t] = struct{}{}; out = append(out, t)`
unfoldable pub add_topic :
    String → List (String × Unit {0}) × List String → List (String × Unit {0}) × List String
add_topic t (seen, out) = elim (lookup str_dec t seen) [
  | some u ↦ (seen, out)
  | none ↦ (insert str_dec t tt seen, out ++ t ∷ [])
]

unfoldable pub add_topics :
    List String → List (String × Unit {0}) × List String → List (String × Unit {0}) × List String
add_topics [] acc = acc
add_topics (t ∷ ts) acc = add_topics ts (add_topic t acc)

module _ (texts : Texts) where
  open texts use {sprintf, contains, replace_all, itoa, crc32}

  -- The `switch` on the form of a pattern.
  unfoldable pub topic_name : String → ℕ → String
  topic_name pattern i =
      if contains pattern "%d"
      then sprintf pattern i
      else if contains pattern "{i}"
      then replace_all pattern "{i}" (itoa i)
      else join (join pattern "-") (itoa i)

  -- The loop, from `i` on, for `count` names.
  unfoldable pub names_from : String → ℕ → ℕ → List String
  names_from pattern i zero = []
  names_from pattern i (suc count) = topic_name pattern i ∷ names_from pattern (suc i) count

  -- A negative count, with which `make` panics, is left out.
  unfoldable pub gen_keys : MessageHandlerConfig → String → ℕ → Bool → List String
  unfolding names_from
  gen_keys c pattern count is_need_node =
      names_from (if is_need_node then join (join c.node_id "_") pattern else pattern) 0 count

  unfoldable pub keys : MessageHandlerConfig → List String
  unfolding gen_keys
  keys c =
      if c.is_consumer
      then gen_keys c c.send_topic_pattern c.topic_count true
      else gen_keys c c.receive_topic_pattern c.topic_count true

  unfoldable pub get_all_topic_keys : List MessageHandlerConfig → List String
  unfolding keys
  get_all_topic_keys [] = []
  get_all_topic_keys (c ∷ cs) = keys c ++ get_all_topic_keys cs

  unfoldable pub expand_pattern : String → ℕ → List String
  unfolding names_from
  expand_pattern pattern count = names_from pattern 0 (max 1 count)

  -- The loop over the patterns of a handler.
  unfoldable pub add_patterns :
      List String
      → ℕ
      → List (String × Unit {0}) × List String
      → List (String × Unit {0}) × List String
  add_patterns [] count acc = acc
  add_patterns (pat ∷ pats) count acc =
      add_patterns pats count (add_topics (expand_pattern pat count) acc)

  unfoldable pub add_configs :
      List MessageHandlerConfig
      → List (String × Unit {0}) × List String
      → List (String × Unit {0}) × List String
  add_configs [] acc = acc
  add_configs (mc ∷ mcs) acc = add_configs mcs (add_patterns (keys mc) mc.topic_count acc)

  unfoldable pub gen_topics : List MessageHandlerConfig → List String
  gen_topics configs = (add_configs configs ([], [])).1

  -- The index is below the length, so that the element is there.
  unfoldable pub select_topic_by_user : String → List String → String
  select_topic_by_user user [] = ""
  select_topic_by_user user (t ∷ ts) =
      or_no_text (get_elem? (t ∷ ts) (crc32 user % (length (t ∷ ts) % 2 ^ 32)))
