-- ===== src/Storage/Online/Sweeping.antt =====
-- What the scripts that sweep an index leave and return.
use ppchat.Prelude.{
  ◌+◌, ◌*◌, ◌≤◌, ◌<◌, ◌≡◌, ◌⊎◌, refl, arith, String, true, false, not, ◌&&◌, none, some, List, [],
  ◌∷◌, length, ltb, if◌then◌else◌, Option-cases, inl, inr,
}
use ppchat.Storage.Online.RedisIndex.{Time, Second, RedisIndex, occurs, within}
use ppchat.Storage.Online.Scripts.{
  remove_each, touch, drop_due, lua_sweep, lua_get_active, lua_is_online, lua_get_newest,
}

none_of-length : (xs : List String) → length xs ≡ 0 → (m : String) → occurs m xs ≡ false
none_of-length [] h m = refl
none_of-length (x ∷ xs) h m = absurd (omega arith)

pub length_of-occurs : (m : String) (xs : List String) → occurs m xs ≡ true → 0 < length xs
length_of-occurs m [] h = absurd (cc)
length_of-occurs m (x ∷ xs) h = omega arith

pub nil_of-occurs : (xs : List String) → ((m : String) → occurs m xs ≡ false) → xs ≡ []
nil_of-occurs [] h = refl
nil_of-occurs (x ∷ xs) h = absurd (ground (arith, h x))

module _ (redis : RedisIndex) where
  open redis use {Keys, holds, score, deadline, del, zrem, expire, zrange, zcount, zlast}
  open redis use {
    holds-del, score-del, holds-zrem, score-zrem, holds-expire, score-expire, occurs-zrange,
    zcount-zrange, zlast-none, zlast-some,
  }

  remove_each-holds :
      (z : String) (vs : List String) (r : Keys) (k : String)
      → holds (remove_each redis z vs r) k ≡ (holds r k && not (occurs k vs))
  unfolding remove_each
  remove_each-holds z [] r k = ground arith
  remove_each-holds z (v ∷ vs) r k = ground (
    arith,
    remove_each-holds z vs (del (zrem r z v) v) k,
    holds-del (zrem r z v) v k,
    holds-zrem r z v k,
  )

  remove_each-score :
      (z : String) (vs : List String) (r : Keys) (m : String)
      → occurs z vs ≡ false
      → score (remove_each redis z vs r) z m ≡ (if occurs m vs then none else score r z m)
  unfolding remove_each
  remove_each-score z [] r m own = refl
  remove_each-score z (v ∷ vs) r m own = ground (
    arith,
    own,
    remove_each-score z vs (del (zrem r z v) v) m,
    score-del (zrem r z v) v z m,
    score-zrem r z v z m,
  )

  -- The deadline that is set lies ahead, so that the keys are as they were.
  pub touch-same :
      (z : String) (at : Time) (r : Keys)
      → ((k : String) → holds (touch redis z at r) k ≡ holds r k)
        × ((y m : String) → score (touch redis z at r) y m ≡ score r y m)
  unfolding touch
  touch-same z at r =
      let later : ltb at (at + 3600 * 1000) ≡ true = ground arith in
      (
        λ k. ground (arith, later, holds-expire r z at (at + 3600 * 1000) k),
        λ y m. ground (arith, later, score-expire r z at (at + 3600 * 1000) y m),
      )

  module _ (z : String) (now : Second) (r : Keys) where
    pub drop_due_lem :
        score r z z ≡ none
        → let (r', victims) = drop_due redis z now r in
          ((m : String) → occurs m victims ≡ within 0 (some now) (score r z m))
          × ((k : String) → holds r' k ≡ (holds r k && not (within 0 (some now) (score r z k))))
          × ((m : String)
              → score r' z m ≡ (if within 0 (some now) (score r z m) then none else score r z m))
    unfolding drop_due
    drop_due_lem apart =
        let victims = zrange r z 0 (some now) in
        let members = occurs-zrange r z 0 (some now) in
        (
          members,
          λ k. ground (arith, remove_each-holds z victims r k, members k),
          λ m. ground (arith, remove_each-score z victims r m, members z, members m, apart),
        )

  -- A sweep of an index that is not a member of itself returns the members whose second is `now` or
  -- before, deletes their sessions and no other, takes them out of the index, and leaves the other
  -- members.
  lua_sweep_lem :
      (z : String) (now : Second) (at : Time) (r : Keys)
      → score r z z ≡ none
      → let (r', victims) = lua_sweep redis z now at r in
        ((m : String) → occurs m victims ≡ within 0 (some now) (score r z m))
        × ((k : String) → holds r' k ≡ (holds r k && not (within 0 (some now) (score r z k))))
        × ((m : String)
            → score r' z m ≡ (if within 0 (some now) (score r z m) then none else score r z m))
  unfolding lua_sweep
  lua_sweep_lem z now at r apart =
      let (members, held, left) = drop_due_lem z now r apart in
      let (same, same') = touch-same z at (drop_due redis z now r).0 in
      (members, λ k. ground (arith, same k, held k), λ m. ground (arith, same' z m, left m))

  -- A member that is not due is among the active ones.
  pub active-member :
      (z : String) (now : Second) (r : Keys)
      → score r z z ≡ none
      → (m : String)
      → occurs m (zrange (drop_due redis z now r).0 z (now + 1) none)
        ≡ within (now + 1) none (score r z m)
  active-member z now r apart m =
      let r1 = (drop_due redis z now r).0 in
      ground (arith, occurs-zrange r1 z (now + 1) none m, (drop_due_lem z now r apart).2 m)

  -- On an index that is not a member of itself, the three queries agree: `luaGetActiveAndSweep` returns
  -- the members whose second is after `now`; `luaIsOnline` says whether there are any, and how many; and
  -- `luaGetNewestActive` returns the empty text if there are none, and otherwise one of them that no
  -- other outlasts.
  pub queries_agree :
      (z : String) (now : Second) (at : Time) (r : Keys)
      → score r z z ≡ none
      → let actives = (lua_get_active redis z now at r).1 in
        let online = lua_is_online redis z now at r in
        let newest = (lua_get_newest redis z now at r).1 in
        ((m : String) → occurs m actives ≡ within (now + 1) none (score r z m))
        × (online.1 ≡ ltb 0 (length actives))
        × (online.2 ≡ length actives)
        × (((actives ≡ []) × (newest ≡ ""))
            ⊎ ((s : Second) × (score r z newest ≡ some s)
                × (now < s)
                × ((m : String) (s' : Second) → score r z m ≡ some s' → s' ≤ s)))
  unfolding lua_get_active lua_is_online lua_get_newest
  queries_agree z now at r apart =
      let r1 = (drop_due redis z now r).0 in
      let members = active-member z now r apart in
      let left = (drop_due_lem z now r apart).2 in
      let counted = zcount-zrange r1 z (now + 1) none in
      (
        members,
        rw counted refl,
        rw counted (ground arith),
        elim (Option-cases (zlast r1 z (now + 1))) [
          | inl nobody ↦ inl (
            nil_of-occurs _ (λ m.
                ground
                  (arith, zlast-none r1 z (now + 1) nobody m, occurs-zrange r1 z (now + 1) none m)),
            rw nobody refl,
          )
          | inr (k, found) ↦
              let (s, at_k, late, best) = zlast-some r1 z (now + 1) k found in
              inr (
                s,
                rw found (ground (arith, left k, at_k)),
                omega arith,
                λ m s' at_m. ground (arith, left m, best m s', at_m, late),
              )
        ],
      )
