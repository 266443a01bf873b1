-- ===== src/Storage/Offline/Tests.antt =====
-- Runs of service/storage/redis_messages.go on lists that are a function of their keys.
use ppchat.Prelude.{
  ℕ, ◌≡◌, refl, arith, String, ite, if_pos, List, [], ◌∷◌, ◌++◌, map, length, str_dec,
}
use ppchat.Storage.Offline.{
  slice, RedisList, OfflineMsg, enqueue_offline, fetch_from, fetch_among, fetch_offline,
}
use ppchat.Storage.Offline.Fetch.{fetch_offline-all}
use ppchat.Storage.Offline.Among.{enqueue_all, fetch_among-lost}

abbrev Lists : Type 0
Lists = String → List String

abbrev redis : RedisList
redis = record {
  Keys = Lists;
  items = λ r k. r k;
  lpush = λ r k v k'. ite (str_dec k k') (v ∷ r k') (r k');
  ltrim = λ r k start stop k'. ite (str_dec k k') (slice start stop (r k')) (r k');
  items-lpush = λ r k v. if_pos (str_dec k k) refl _ _;
  items-ltrim = λ r k start stop. if_pos (str_dec k k) refl _ _;
}

-- The payload is the text.
abbrev marshal : OfflineMsg → String
marshal m = m.payload

abbrev unmarshal : String → OfflineMsg
unmarshal s = record { sender = ""; payload = s }

abbrev same_key : String → String
same_key user = user

abbrev three : Lists
three k = "c" ∷ "b" ∷ "a" ∷ []

abbrev fetched : ℕ → Lists × List OfflineMsg
fetched n = fetch_offline redis marshal unmarshal same_key "u" n three

fetch_offline-all_example :
    ((fetched 3).1 ≡ map unmarshal (three "u")) × ((fetched 3).0 "u" ≡ three "u")
fetch_offline-all_example =
    fetch_offline-all redis marshal unmarshal same_key "u" three 3 (omega arith) (omega arith)

-- "d" comes after `LLEN` and "e" after `LRANGE`.
abbrev among : ℕ → Lists × List OfflineMsg
among n =
    fetch_among redis marshal unmarshal same_key "u" n
      (enqueue_all redis marshal unmarshal same_key "u" (unmarshal "d" ∷ []))
      (enqueue_all redis marshal unmarshal same_key "u" (unmarshal "e" ∷ [])) three

-- "c" and "a" are neither returned nor left.
among_one : ((among 1).0 "u" ≡ "e" ∷ "d" ∷ []) × ((among 1).1 ≡ unmarshal "b" ∷ [])
unfolding fetch_among fetch_from enqueue_offline str_dec
among_one = (refl, refl)

fetch_among-lost_example :
    (lost : List String) × (read : List String) × (oldest : List String) × ("e" ∷ "d" ∷ three "u"
      ≡ (among 1).0 "u" ++ (lost ++ (read ++ oldest)))
    × ((among 1).1 ≡ map unmarshal read)
    × (length read ≡ 1)
    × (length lost ≡ 1)
    × (length oldest ≡ 1)
fetch_among-lost_example =
    fetch_among-lost redis marshal unmarshal same_key "u" (unmarshal "d" ∷ []) (unmarshal "e" ∷ [])
      three 1 (omega arith) (omega arith)
