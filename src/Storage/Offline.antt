-- ===== src/Storage/Offline.antt =====
-- service/storage/redis_messages.go: the queue of a user who is offline, a list in Redis with the
-- latest message first.
pub mod Fetch
mod Among
mod Tests
use ppchat.Prelude.{
  ℕ, suc, ◌+◌, ◌-◌, ◌≡◌, String, Bool, true, false, List, [], ◌∷◌, map, length, take, drop, ltb,
  ◌==◌, if◌then◌else◌, min,
}

-- An index of a Redis list: from the head, or, as `-k`, from the end.
pub data Index : Type 0 where
  at : ℕ → Index
  minus : ℕ → Index

-- The elements from `start` to `stop`, which is included.
abbrev pub slice : ℕ → Index → List String → List String
slice start (at stop) xs = take (stop + 1 - start) (drop start xs)
slice start (minus k) xs = take (length xs + 1 - k - start) (drop start xs)

-- Redis, by its documented behaviour on the list commands that the file sends. Each is atomic.
pub record RedisList : Type 1 where
  pub Keys : Type 0
  pub items : Keys → String → List String
  pub lpush : Keys → String → String → Keys
  pub ltrim : Keys → String → ℕ → Index → Keys
  pub items-lpush : (r : Keys) (k v : String) → items (lpush r k v) k ≡ v ∷ items r k
  pub items-ltrim :
      (r : Keys) (k : String) (start : ℕ) (stop : Index)
      → items (ltrim r k start stop) k ≡ slice start stop (items r k)

pub record OfflineMsg : Type 0 where
  pub sender : String
  pub payload : String

-- `start - 1`
abbrev pub before : ℕ → Index
before start = if start == 0 then minus 1 else at (start - 1)

-- `marshal` and `unmarshal` are those of encoding/json, `key` is `offlineKey`; the calls to Redis
-- succeed.
module _ (redis : RedisList) (marshal : OfflineMsg → String) (unmarshal : String → OfflineMsg)
    (key : String → String) where
  open redis use {Keys, items, lpush, ltrim}

  unfoldable pub enqueue_offline : String → String → String → Keys → Keys
  enqueue_offline user sender payload r =
      let r' = lpush r (key user) (marshal (record { sender = sender; payload = payload })) in
      ltrim r' (key user) 0 (at 9999)

  -- `LRANGE key start llen-1`, what other clients do then, and `LTRIM key 0 start-1`.
  unfoldable pub fetch_from : String → ℕ → ℕ → (Keys → Keys) → Keys → Keys × List OfflineMsg
  fetch_from user start llen then_ r = (
    ltrim (then_ r) (key user) 0 (before start),
    map unmarshal (slice start (at (llen - 1)) (items r (key user))),
  )

  -- The commands of `FetchOffline`, with what other clients do after `LLEN` and after `LRANGE`. A size
  -- that is not positive is 0.
  unfoldable pub fetch_among :
      String → ℕ → (Keys → Keys) → (Keys → Keys) → Keys → Keys × List OfflineMsg
  unfolding fetch_from
  fetch_among user n first then_ r =
      let most = if n == 0 then 100 else n in
      let llen = length (items r (key user)) in
      if llen == 0
      then (r, [])
      else fetch_from user (llen - (if ltb llen most then llen else most)) llen then_ (first r)

  unfoldable pub fetch_offline : String → ℕ → Keys → Keys × List OfflineMsg
  unfolding fetch_among
  fetch_offline user n r = fetch_among user n (λ r'. r') (λ r'. r') r
