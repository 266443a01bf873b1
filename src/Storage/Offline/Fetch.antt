-- ===== src/Storage/Offline/Fetch.antt =====
-- What a fetch returns and what it leaves.
use ppchat.Prelude.{
  ℕ, ◌+◌, ◌-◌, ◌≤◌, ◌<◌, ◌≡◌, refl, arith, ap, ◌∙◌, String, false, List, ◌∷◌, ◌++◌, map, length,
  take, drop, ltb, ◌==◌, if◌then◌else◌, take_of_length-le, length-drop, take-append-drop,
}
use ppchat.Storage.Offline.{
  at, slice, RedisList, OfflineMsg, before, enqueue_offline, fetch_from, fetch_among, fetch_offline,
}

module _ (redis : RedisList) (marshal : OfflineMsg → String) (unmarshal : String → OfflineMsg)
    (key : String → String) (user : String) (r : redis.Keys) where
  abbrev queue : redis.Keys → List String
  queue r' = redis.items r' (key user)

  abbrev fetched : ℕ → redis.Keys × List OfflineMsg
  fetched n = fetch_offline redis marshal unmarshal key user n r

  -- `EnqueueOffline` puts the message at the head of the queue and keeps the 10000 latest.
  pub enqueue_offline_lem :
      (sender payload : String)
      → queue (enqueue_offline redis marshal unmarshal key user sender payload r)
        ≡ take 10000 (marshal (record { sender = sender; payload = payload }) ∷ queue r)
  unfolding enqueue_offline
  enqueue_offline_lem sender payload =
      let text = marshal (record { sender = sender; payload = payload }) in
      redis.items-ltrim (redis.lpush r (key user) text) (key user) 0 (at 9999)
      ∙ ap (take 10000) (redis.items-lpush r (key user) text)

  abbrev from_index : ℕ → redis.Keys × List OfflineMsg
  from_index start =
      fetch_from redis marshal unmarshal key user start (length (queue r)) (λ r'. r') r

  from_index-messages :
      (start : ℕ)
      → start ≤ length (queue r)
      → 0 < length (queue r)
      → (from_index start).1 ≡ map unmarshal (drop start (queue r))
  unfolding fetch_from
  from_index-messages start below some_left = ap (map unmarshal) (
      take_of_length-le (length (queue r) - 1 + 1 - start) (drop start (queue r))
        (omega (arith, length-drop start (queue r))))

  from_index-left : (start : ℕ) → 0 < start → queue (from_index start).0 ≡ take start (queue r)
  unfolding fetch_from
  from_index-left start pos =
      let stop : before start ≡ at (start - 1) = ground (arith, pos) in
      let count : start - 1 + 1 - 0 ≡ start = omega arith in
      redis.items-ltrim r (key user) 0 (before start) ∙ rw (stop, slice, count) refl

  from_index-all : queue (from_index 0).0 ≡ queue r
  unfolding fetch_from
  from_index-all =
      redis.items-ltrim r (key user) 0 (before 0)
      ∙ take_of_length-le (length (queue r) + 1 - 1 - 0) (queue r) (omega arith)

  fetched_lem :
      (n start : ℕ)
      → 0 < length (queue r)
      → length (queue r)
          - (if ltb (length (queue r)) (if n == 0 then 100 else n)
              then length (queue r)
              else (if n == 0 then 100 else n))
        ≡ start
      → fetched n ≡ from_index start
  unfolding fetch_offline fetch_among
  fetched_lem n start some_left first =
      let there : (length (queue r) == 0) ≡ false = ground (arith, some_left) in
      rw (there, first) refl

  -- A fetch of fewer messages than there are returns the oldest of them and leaves the others: both
  -- together are the queue, and the number that was asked for is returned, or 100 for 0.
  fetch_offline-part :
      (n : ℕ)
      → (if n == 0 then 100 else n) < length (queue r)
      → (rest : List String) × ((fetched n).1 ≡ map unmarshal rest)
        × (length rest ≡ (if n == 0 then 100 else n))
        × (queue (fetched n).0 ++ rest ≡ queue r)
  fetch_offline-part n fewer =
      let start = length (queue r) - (if n == 0 then 100 else n) in
      let same = fetched_lem n start (omega (arith, fewer)) (ground (arith, fewer)) in
      (
        drop start (queue r),
        rw same (from_index-messages start (omega arith) (omega (arith, fewer))),
        length-drop start (queue r) ∙ omega (arith, fewer),
        rw (same, from_index-left start (omega (arith, fewer))) (take-append-drop start (queue r)),
      )

  -- A fetch of as many messages as there are, or more, returns all and leaves the queue as it is: the
  -- same messages are returned again.
  pub fetch_offline-all :
      (n : ℕ)
      → 0 < length (queue r)
      → length (queue r) ≤ (if n == 0 then 100 else n)
      → ((fetched n).1 ≡ map unmarshal (queue r)) × (queue (fetched n).0 ≡ queue r)
  fetch_offline-all n some_left all =
      let same = fetched_lem n 0 some_left (ground (arith, all)) in
      (rw same (from_index-messages 0 (omega arith) some_left), rw same from_index-all)
