-- ===== src/Kafka/Topics/Generated.antt =====
-- What the generated list of topics has, and what is chosen from a list.
use mathlib.Core.List.{Memᴰ}
use native.Mathlib.Nat.{mod-lt, mod-eq_of_lt}
use ppchat.Prelude.{
  ℕ, zero, suc, ◌%◌, ◌^◌, ◌<◌, ◌≡◌, refl, arith, inl, inr, String, ite, Bool, true, false, ◌||◌,
  none, some, List, [], ◌∷◌, ◌++◌, length, get_elem?, str_dec, lookup, insert, lookup-insert,
  Option-cases,
}
use ppchat.Kafka.Topics.{
  Texts, MessageHandlerConfig, add_topic, add_topics, add_patterns, add_configs, expand_pattern,
  keys, gen_topics, select_topic_by_user, or_no_text,
}

abbrev pub occurs : String → List String → Bool
occurs t [] = false
occurs t (s ∷ ss) = ite (str_dec s t) true (occurs t ss)

abbrev pub NoDuplicates : List String → Type 0
NoDuplicates [] = Unit
NoDuplicates (s ∷ ss) = (occurs s ss ≡ false) × NoDuplicates ss

pub occurs-append :
    (t : String) (xs ys : List String) → occurs t (xs ++ ys) ≡ occurs t xs || occurs t ys
occurs-append t [] ys = ground arith
occurs-append t (x ∷ xs) ys = ground (arith, occurs-append t xs ys)

append-NoDuplicates :
    (t : String) (xs : List String)
    → NoDuplicates xs
    → occurs t xs ≡ false
    → NoDuplicates (xs ++ t ∷ [])
append-NoDuplicates t [] no_dup absent = (refl, tt)
append-NoDuplicates t (x ∷ xs) no_dup absent = (
  ground (arith, occurs-append x xs (t ∷ []), no_dup.0, absent),
  append-NoDuplicates t xs no_dup.1 (ground (arith, absent)),
)

-- The topics so far: once each, and `seen` has exactly these.
record IsSound (acc : List (String × Unit {0}) × List String) : Type 0 where
  no_dup : NoDuplicates acc.1
  listed : (t : String) (u : Unit {0}) → lookup str_dec t acc.0 ≡ some u → occurs t acc.1 ≡ true
  absent : (t : String) → lookup str_dec t acc.0 ≡ none → occurs t acc.1 ≡ false

module _ (t : String) (seen : List (String × Unit {0})) (out : List String) where
  add_topic_new :
      lookup str_dec t seen ≡ none
      → add_topic t (seen, out) ≡ (insert str_dec t tt seen, out ++ t ∷ [])
  unfolding add_topic
  add_topic_new new = rw (new, add_topic) refl

  add_topic_old :
      (u : Unit {0}) → lookup str_dec t seen ≡ some u → add_topic t (seen, out) ≡ (seen, out)
  unfolding add_topic
  add_topic_old u old = rw (old, add_topic) refl

  add_topic-occurs :
      (s : String)
      → IsSound (seen, out)
      → occurs s (add_topic t (seen, out)).1 ≡ occurs s out || occurs s (t ∷ [])
  add_topic-occurs s sound = elim (Option-cases (lookup str_dec t seen)) [
    | inl new ↦ rw (add_topic_new new) (occurs-append s out (t ∷ []))
    | inr (u, old) ↦ rw (add_topic_old u old) (ground (arith, sound.listed t u old))
  ]

  add_topic-IsSound : IsSound (seen, out) → IsSound (add_topic t (seen, out))
  add_topic-IsSound sound = elim (Option-cases (lookup str_dec t seen)) [
    | inl new ↦ rw (add_topic_new new) (record {
      no_dup = append-NoDuplicates t out sound.no_dup (sound.absent t new);
      listed = λ s u at. ground (
        arith,
        occurs-append s out (t ∷ []),
        lookup-insert str_dec t s tt seen,
        sound.listed s u,
      );
      absent = λ s at.
          ground (
            arith,
            occurs-append s out (t ∷ []),
            lookup-insert str_dec t s tt seen,
            sound.absent s,
          );
    })
    | inr (u, old) ↦ rw (add_topic_old u old) sound
  ]

abbrev State : Type 0
State = List (String × Unit {0}) × List String

-- What a loop that adds the texts `ts` does.
record Added (ts : List String) (acc : State) (acc' : State) : Type 0 where
  sound : IsSound acc'
  members : (s : String) → occurs s acc'.1 ≡ occurs s acc.1 || occurs s ts

add_topics-Added : (ts : List String) (acc : State) → IsSound acc → Added ts acc (add_topics ts acc)
unfolding add_topics
add_topics-Added [] acc sound = record { sound = sound; members = λ s. ground arith }
add_topics-Added (t ∷ ts) acc sound =
    let rest = add_topics-Added ts (add_topic t acc) (add_topic-IsSound t acc.0 acc.1 sound) in
    record {
      sound = rest.sound;
      members = λ s. ground (arith, rest.members s, add_topic-occurs t acc.0 acc.1 s sound);
    }

module _ (texts : Texts) where
  -- Every name that the patterns expand to, with repetitions.
  abbrev pub all_names : List String → ℕ → List String
  all_names [] count = []
  all_names (pat ∷ pats) count = expand_pattern texts pat count ++ all_names pats count

  abbrev pub every_topic : List MessageHandlerConfig → List String
  every_topic [] = []
  every_topic (mc ∷ mcs) = all_names (keys texts mc) mc.topic_count ++ every_topic mcs

  add_patterns-Added :
      (pats : List String) (count : ℕ) (acc : State)
      → IsSound acc
      → Added (all_names pats count) acc (add_patterns texts pats count acc)
  unfolding add_patterns
  add_patterns-Added [] count acc sound = record { sound = sound; members = λ s. ground arith }
  add_patterns-Added (pat ∷ pats) count acc sound =
      let names = expand_pattern texts pat count in
      let one = add_topics-Added names acc sound in
      let rest = add_patterns-Added pats count (add_topics names acc) one.sound in
      record {
        sound = rest.sound;
        members = λ s.
            ground
              (arith, rest.members s, one.members s, occurs-append s names (all_names pats count));
      }

  add_configs-Added :
      (mcs : List MessageHandlerConfig) (acc : State)
      → IsSound acc
      → Added (every_topic mcs) acc (add_configs texts mcs acc)
  unfolding add_configs
  add_configs-Added [] acc sound = record { sound = sound; members = λ s. ground arith }
  add_configs-Added (mc ∷ mcs) acc sound =
      let names = all_names (keys texts mc) mc.topic_count in
      let one = add_patterns-Added (keys texts mc) mc.topic_count acc sound in
      let rest =
        add_configs-Added mcs (add_patterns texts (keys texts mc) mc.topic_count acc) one.sound in
      record {
        sound = rest.sound;
        members = λ s.
            ground (arith, rest.members s, one.members s, occurs-append s names (every_topic mcs));
      }

  -- `GenTopics` returns each topic once, and exactly the names that the keys of all handlers expand to.
  pub gen_topics-NoDuplicates :
      (mcs : List MessageHandlerConfig)
      → NoDuplicates (gen_topics texts mcs)
        × ((t : String) → occurs t (gen_topics texts mcs) ≡ occurs t (every_topic mcs))
  unfolding gen_topics
  gen_topics-NoDuplicates mcs =
      let start : IsSound ([], []) = record {
        no_dup = tt;
        listed = λ s u at. unfold lookup in absurd (cc);
        absent = λ s at. refl;
      } in
      let all = add_configs-Added mcs ([], []) start in
      (all.sound.no_dup, λ t. ground (arith, all.members t))

get_elem?-mem : (xs : List String) (i : ℕ) → i < length xs → Memᴰ (or_no_text (get_elem? xs i)) xs
get_elem?-mem [] i below = absurd (omega arith)
get_elem?-mem (x ∷ xs) zero below = Memᴰ.head refl
get_elem?-mem (x ∷ xs) (suc i) below = Memᴰ.tail (get_elem?-mem xs i (omega arith))

-- From a list that is not empty and has fewer than 2 ^ 32 topics, `SelectTopicByUser` returns one of them.
select_topic_by_user-mem :
    (texts : Texts) (user t : String) (ts : List String)
    → length (t ∷ ts) < 2 ^ 32
    → Memᴰ (select_topic_by_user texts user (t ∷ ts)) (t ∷ ts)
unfolding select_topic_by_user
select_topic_by_user-mem texts user t ts small =
    get_elem?-mem (t ∷ ts) (texts.crc32 user % (length (t ∷ ts) % 2 ^ 32))
      (rw (mod-eq_of_lt small) (mod-lt (texts.crc32 user) (omega arith)))
