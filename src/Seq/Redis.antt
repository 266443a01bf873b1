-- ===== src/Seq/Redis.antt =====
-- module/chat/seq/seq.go: the Redis hash that holds the current segment of a conversation, and the
-- two Lua scripts over it. Redis runs a script as one step.
use ppchat.Prelude.{
  ℕ, ◌+◌, ◌≤◌, ◌≡◌, refl, arith, inl, inr, Option-cases, if_elim, ◌⊎◌, String, ite, not, ◌&&◌,
  Option, none, some, ltb, ◌==◌, if◌then◌else◌, str_dec, str-ne,
}

-- Redis, by its documented behaviour on the hash commands that the scripts call. The fields hold
-- integers, which Lua's numbers represent exactly below 2 ^ 53.
pub record Redis : Type 1 where
  pub Keys : Type 0
  pub hget : Keys → String → String → Option ℕ
  pub hset : Keys → String → String → ℕ → Keys
  pub pexpire : Keys → String → ℕ → Keys
  pub hget-hset :
      (r : Keys) (k f : String) (v : ℕ) (k' f' : String)
      → hget (hset r k f v) k' f'
        ≡ ite (str_dec k k') (ite (str_dec f f') (some v) (hget r k' f')) (hget r k' f')
  pub hget-pexpire :
      (r : Keys) (k : String) (ms : ℕ) (k' f' : String) → hget (pexpire r k ms) k' f' ≡ hget r k' f'

-- The replies `{0, start, 0, end, nowMs}`, `{1}` and `{3, curr, end, 0, nowMs}`.
pub data Reply : Type 0 where
  granted : ℕ → ℕ → ℕ → Reply
  not_found : Reply
  exhausted : ℕ → ℕ → ℕ → Reply

abbrev pub IsGrant : Reply → Type 0
IsGrant (granted start last now) = Unit {0}
IsGrant not_found = ⊥
IsGrant (exhausted curr last now) = ⊥

module _ (redis : Redis) where
  open redis use {Keys, hget, hset, pexpire, hget-hset, hget-pexpire}

  -- `HSET k f1 v1 f2 v2` sets the fields in turn.
  issue : String → ℕ → ℕ → ℕ → ℕ → ℕ → Keys → Keys × Reply
  issue k need seg_end now curr last r =
      if not (seg_end == 0) && not (seg_end == last)
      then (r, exhausted curr last now)
      else if ltb last (curr + need)
      then (r, exhausted curr last now)
      else (hset (hset r k "curr" (curr + need)) k "mill" now, granted (curr + 1) last now)

  issue_from : String → ℕ → ℕ → ℕ → Option ℕ → Option ℕ → Keys → Keys × Reply
  issue_from k need seg_end now none e r = (r, not_found)
  issue_from k need seg_end now (some curr) none r = (r, not_found)
  issue_from k need seg_end now (some curr) (some last) r = issue k need seg_end now curr last r

  -- `luaInSegment`
  unfoldable pub in_segment : String → ℕ → ℕ → ℕ → Keys → Keys × Reply
  unfolding issue_from issue
  in_segment k need seg_end now r =
      issue_from k need seg_end now (hget r k "curr") (hget r k "end") r

  -- `luaSetSegment`
  unfoldable pub set_segment : String → ℕ → ℕ → ℕ → Keys → Keys
  set_segment k curr last now r =
      pexpire (hset (hset (hset r k "curr" curr) k "end" last) k "mill" now) k 3600000

  -- How the scripts change the two fields that they read.
  module _ (k : String) (a b now : ℕ) (r : Keys) (k' : String) where
    pub hget-set_segment :
        (hget (set_segment k a b now r) k' "curr" ≡ ite (str_dec k k') (some a) (hget r k' "curr"))
        × (hget (set_segment k a b now r) k' "end" ≡ ite (str_dec k k') (some b) (hget r k' "end"))
    unfolding set_segment
    hget-set_segment =
        let r1 = hset r k "curr" a in
        let r2 = hset r1 k "end" b in
        let r3 = hset r2 k "mill" now in
        let curr_end = str-ne "end" "curr" refl in
        let end_curr = str-ne "curr" "end" refl in
        let curr_mill = str-ne "mill" "curr" refl in
        let end_mill = str-ne "mill" "end" refl in
        (
          ground (
            arith,
            hget-pexpire r3 k 3600000 k' "curr",
            hget-hset r2 k "mill" now k' "curr",
            hget-hset r1 k "end" b k' "curr",
            hget-hset r k "curr" a k' "curr",
          ),
          ground (
            arith,
            hget-pexpire r3 k 3600000 k' "end",
            hget-hset r2 k "mill" now k' "end",
            hget-hset r1 k "end" b k' "end",
            hget-hset r k "curr" a k' "end",
          ),
        )

  module _ (k : String) (need seg_end now : ℕ) (r : Keys) where
    -- How a script on a segment that is there ends.
    abbrev Ends : ℕ → ℕ → Keys × Reply → Type 0
    Ends curr last out =
        ((out.0 ≡ r) × ¬ IsGrant out.1)
        ⊎ ((curr + need ≤ last)
            × (out.1 ≡ granted (curr + 1) last now)
            × (out.0 ≡ hset (hset r k "curr" (curr + need)) k "mill" now))

    issue-Ends : (curr last : ℕ) → Ends curr last (issue k need seg_end now curr last r)
    unfolding issue
    issue-Ends curr last =
        if_elim (Ends curr last) (not (seg_end == 0) && not (seg_end == last))
          (λ other. inl (refl, λ x. x))
          (λ same.
            if_elim (Ends curr last) (ltb last (curr + need)) (λ short. inl (refl, λ x. x))
              (λ fits. inr (ground arith, refl, refl)))

    -- The script grants the `need` numbers above `curr`, if they are not above `end`, and then raises
    -- `curr` by `need`; otherwise it changes nothing.
    pub in_segment_cases :
        let (r', reply) = in_segment k need seg_end now r in
        ((r' ≡ r) × ¬ IsGrant reply)
        ⊎ ((curr : ℕ) × (last : ℕ) × (hget r k "curr" ≡ some curr)
            × (hget r k "end" ≡ some last)
            × (curr + need ≤ last)
            × (reply ≡ granted (curr + 1) last now)
            × (r' ≡ hset (hset r k "curr" (curr + need)) k "mill" now))
    unfolding in_segment
    in_segment_cases = elim (Option-cases (hget r k "curr")) [
      | inl absent ↦ inl (rw absent refl, rw absent (λ x. x))
      | inr (curr, at) ↦ elim (Option-cases (hget r k "end")) [
        | inl absent ↦ inl (rw (at, absent) refl, rw (at, absent) (λ x. x))
        | inr (last, at') ↦ elim (issue-Ends curr last) [
          | inl out ↦ inl (rw (at, at') out.0, rw (at, at') out.1)
          | inr (fits, reply, keys) ↦
              inr (curr, last, at, at', fits, rw (at, at') reply, rw (at, at') keys)
        ]
      ]
    ]

    pub hget-issued :
        (curr : ℕ) (k' : String)
        → let r' = hset (hset r k "curr" (curr + need)) k "mill" now in
          (hget r' k' "curr" ≡ ite (str_dec k k') (some (curr + need)) (hget r k' "curr"))
          × (hget r' k' "end" ≡ hget r k' "end")
    hget-issued curr k' =
        let r1 = hset r k "curr" (curr + need) in
        let end_curr = str-ne "curr" "end" refl in
        let curr_mill = str-ne "mill" "curr" refl in
        let end_mill = str-ne "mill" "end" refl in
        (
          ground (
            arith,
            hget-hset r1 k "mill" now k' "curr",
            hget-hset r k "curr" (curr + need) k' "curr",
          ),
          ground (
            arith,
            hget-hset r1 k "mill" now k' "end",
            hget-hset r k "curr" (curr + need) k' "end",
          ),
        )

    -- Where the end is the expected one and there is room, the script grants.
    pub in_segment-grants :
        (curr last : ℕ)
        → hget r k "curr" ≡ some curr
        → hget r k "end" ≡ some last
        → (seg_end ≡ 0) ⊎ (seg_end ≡ last)
        → curr + need ≤ last
        → (in_segment k need seg_end now r).1 ≡ granted (curr + 1) last now
    unfolding in_segment
    in_segment-grants curr last at at' expected fits =
        rw (at, at') (unfold issue issue_from in ground arith)
