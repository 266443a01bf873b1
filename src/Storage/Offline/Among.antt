-- ===== src/Storage/Offline/Among.antt =====
-- service/storage/redis_messages.go: a fetch with messages that come between its commands.
use mathlib.Core.List.{append_assoc}
use ppchat.Prelude.{
  ℕ, ◌+◌, ◌-◌, ◌≤◌, ◌<◌, ◌≡◌, refl, sym, arith, ap, ◌∙◌, String, false, List, [], ◌∷◌, ◌++◌, map,
  length, take, drop, ltb, ◌==◌, if◌then◌else◌, take_of_length-le, length-take, length-drop,
  take-append-drop, drop-append, length-append,
}
use ppchat.Storage.Offline.{
  at, slice, RedisList, OfflineMsg, before, enqueue_offline, fetch_from, fetch_among,
}
use ppchat.Storage.Offline.Fetch.{enqueue_offline_lem}

module _ (redis : RedisList) (marshal : OfflineMsg → String) (unmarshal : String → OfflineMsg)
    (key : String → String) (user : String) where
  open redis use {Keys, items, items-ltrim}

  abbrev queue : Keys → List String
  queue r = items r (key user)

  -- Calls of `EnqueueOffline` for the user, one after the other.
  abbrev pub enqueue_all : List OfflineMsg → Keys → Keys
  enqueue_all [] r = r
  enqueue_all (m ∷ ms) r =
      enqueue_all ms (enqueue_offline redis marshal unmarshal key user m.sender m.payload r)

  -- Their texts, the latest first.
  abbrev pub texts : List OfflineMsg → List String
  texts [] = []
  texts (m ∷ ms) = texts ms ++ (marshal m ∷ [])

  length-texts : (ms : List OfflineMsg) → length (texts ms) ≡ length ms
  length-texts [] = refl
  length-texts (m ∷ ms) = omega (arith, length-append (texts ms) (marshal m ∷ []), length-texts ms)

  enqueue_all_lem :
      (ms : List OfflineMsg) (r : Keys)
      → length (queue r) + length ms ≤ 10000
      → queue (enqueue_all ms r) ≡ texts ms ++ queue r
  enqueue_all_lem [] r room = refl
  enqueue_all_lem (m ∷ ms) r room =
      let r' = enqueue_offline redis marshal unmarshal key user m.sender m.payload r in
      let put : queue r' ≡ marshal m ∷ queue r =
        enqueue_offline_lem redis marshal unmarshal key user r m.sender m.payload
        ∙ take_of_length-le 10000 (marshal m ∷ queue r) (omega (arith, room)) in
      enqueue_all_lem ms r' (rw put (omega (arith, room)))
      ∙ ap (λ q. texts ms ++ q) put
      ∙ sym (append_assoc (texts ms) (marshal m ∷ []) (queue r))

  -- A list with `new` put before it, cut where the list itself was to be cut.
  cut_late :
      (start : ℕ) (new q : List String)
      → start ≤ length q
      → (lost : List String) × (length lost ≡ length new)
        × (new ++ q ≡ take start (new ++ q) ++ (lost ++ drop start q))
  cut_late start new q below =
      let kept = length-append new (take start q) in
      let size = length-take start q below in
      let whole : new ++ q ≡ (new ++ take start q) ++ drop start q = sym (
        append_assoc new (take start q) (drop start q)
        ∙ ap (λ t. new ++ t) (take-append-drop start q)) in
      (
        drop start (new ++ take start q),
        length-drop start (new ++ take start q) ∙ omega (arith, kept, size),
        sym (take-append-drop start (new ++ q))
            ∙ ap (λ t. take start (new ++ q) ++ t)
                (ap (drop start) whole
                  ∙ drop-append start (new ++ take start q) (drop start q)
                      (omega (arith, kept, size))),
      )

  module _ (early late : List OfflineMsg) (r : Keys) where
    abbrev fetched : ℕ → Keys × List OfflineMsg
    fetched n =
        fetch_among redis marshal unmarshal key user n (enqueue_all early) (enqueue_all late) r

    abbrev from_index : ℕ → Keys × List OfflineMsg
    from_index start =
        fetch_from redis marshal unmarshal key user start (length (queue r)) (enqueue_all late)
          (enqueue_all early r)

    abbrev all_texts : List String
    all_texts = texts late ++ (texts early ++ queue r)

    fetched_lem :
        (n : ℕ)
        → (if n == 0 then 100 else n) < length (queue r)
        → fetched n ≡ from_index (length (queue r) - (if n == 0 then 100 else n))
    unfolding fetch_among
    fetched_lem n fewer =
        let there : (length (queue r) == 0) ≡ false = ground (arith, fewer) in
        let most : ltb (length (queue r)) (if n == 0 then 100 else n) ≡ false =
          ground (arith, fewer) in
        rw (there, most) refl

    from_index_lem :
        (start : ℕ)
        → 0 < start
        → length (queue r) + (length early + length late) ≤ 10000
        → (queue (from_index start).0 ≡ take start all_texts)
          × ((from_index start).1
              ≡ map unmarshal
                  (take (length (queue r) - 1 + 1 - start) (drop start (texts early ++ queue r))))
    unfolding fetch_from
    from_index_lem start pos room =
        let first = enqueue_all_lem early r (omega (arith, room)) in
        let second : queue (enqueue_all late (enqueue_all early r)) ≡ all_texts =
          enqueue_all_lem late (enqueue_all early r) (
            rw first
              (omega (arith, room, length-append (texts early) (queue r), length-texts early)))
          ∙ ap (λ q. texts late ++ q) first in
        let stop : before start ≡ at (start - 1) = ground (arith, pos) in
        let count : start - 1 + 1 - 0 ≡ start = omega arith in
        (
          items-ltrim (enqueue_all late (enqueue_all early r)) (key user) 0 (before start)
              ∙ rw (stop, slice, count, second) refl,
          ap (λ q. map unmarshal (take (length (queue r) - 1 + 1 - start) (drop start q))) first,
        )

    -- Where messages are put into the queue while part of it is fetched, `early` between `LLEN` and
    -- `LRANGE` and `late` between `LRANGE` and `LTRIM`, and all fit into its 10000: the fetch returns
    -- as many messages as were asked for, or 100 for 0, but as many others as came are lost, neither
    -- returned nor left: one for each that came early from the oldest end of the queue, and one for
    -- each that came late from between what is left and what is returned.
    pub fetch_among-lost :
        (n : ℕ)
        → (if n == 0 then 100 else n) < length (queue r)
        → length (queue r) + (length early + length late) ≤ 10000
        → (lost : List String) × (read : List String) × (oldest : List String) × (texts late
              ++ (texts early ++ queue r)
            ≡ queue (fetched n).0 ++ (lost ++ (read ++ oldest)))
          × ((fetched n).1 ≡ map unmarshal read)
          × (length read ≡ (if n == 0 then 100 else n))
          × (length lost ≡ length late)
          × (length oldest ≡ length early)
    fetch_among-lost n fewer room =
        let most = if n == 0 then 100 else n in
        let q = texts early ++ queue r in
        let start = length (queue r) - most in
        let count = length (queue r) - 1 + 1 - start in
        let size = length-append (texts early) (queue r) in
        let sizes = length-texts early in
        let (left, same) = from_index_lem start (omega (arith, fewer)) room in
        let (lost, as_late, cut) = cut_late start (texts late) q (omega (arith, size)) in
        let rest = drop start q in
        let rests = length-drop start q in
        (
          lost,
          take count rest,
          drop count rest,
          rw (fetched_lem n fewer, left)
              (cut
                ∙ ap (λ t. take start all_texts ++ (lost ++ t))
                    (sym (take-append-drop count rest))),
          rw (fetched_lem n fewer) same,
          length-take count rest (omega (arith, fewer, size, sizes, rests)) ∙ omega (arith, fewer),
          as_late ∙ length-texts late,
          length-drop count rest ∙ omega (arith, fewer, size, sizes, rests),
        )
