-- ===== src/Seq/Allocator/Progress.antt =====
-- `Malloc` returns when nothing stands in its way.
use ppchat.Prelude.{
  ℕ, zero, suc, ◌+◌, ◌-◌, ◌≤◌, ◌<◌, ◌≡◌, inl, inr, refl, arith, String, Option, none, some,
}
use ppchat.Seq.Mongo.{Mongo}
use ppchat.Seq.Dao.{issued_of, alloc_segment}
use ppchat.Seq.Redis.{
  Redis, in_segment, set_segment, in_segment_cases, in_segment-grants, hget-set_segment, Reply,
  granted, not_found, exhausted, IsGrant,
}
use ppchat.Seq.Allocator.{
  Allocator, ensure, default_block, fine, Malloc, Pc, trying, allocating, setting, issuing, done,
  new_call, positive_need, Servers, advance, run_alone, after_script,
}

-- The default block is never too small.
default_block-need :
    (t c : String) (need : ℕ) → positive_need need ≤ default_block t c (positive_need need)
unfolding default_block
default_block-need t c need = ground arith

module _ (redis : Redis) (mongo : Mongo) (a : Allocator) (t c : String) (need now : ℕ)
    (s : Servers redis mongo) where
  abbrev at_pc : Pc → Malloc
  at_pc pc = record { tenant_id = t; conversation_id = c; need = need; now = now; pc = pc }

  run_alone-done :
      (start n : ℕ) (s0 : Servers redis mongo)
      → (run_alone redis mongo a n (at_pc (done start)) s0).1 ≡ done start
  unfolding run_alone
  run_alone-done start zero s0 = refl
  run_alone-done start (suc n) s0 = unfold advance in run_alone-done start n s0

  run_alone-issuing :
      (curr last i : ℕ)
      → redis.hget s.keys (a.key_fn t c) "curr" ≡ some curr
      → redis.hget s.keys (a.key_fn t c) "end" ≡ some last
      → curr + positive_need need ≤ last
      → (run_alone redis mongo a 1 (at_pc (issuing i last)) s).1 ≡ done (curr + 1)
  unfolding run_alone advance
  run_alone-issuing curr last i at at' fits =
      rw
        (in_segment-grants redis (a.key_fn t c) (positive_need need) last now s.keys curr last at
          at' (inr refl) fits)
        refl

module _ (redis : Redis) (mongo : Mongo) (a : Allocator) (t c : String) (need now : ℕ) where
  run_alone-setting :
      (s : Servers redis mongo) (old last i : ℕ)
      → old + positive_need need ≤ last
      → (run_alone redis mongo a 2
          (at_pc redis mongo a t c need now s (setting i (old + 1) last))
          s).1
        ≡ done (old + 1)
  unfolding run_alone advance
  run_alone-setting s old last i fits =
      let key = a.key_fn t c in
      let h = hget-set_segment redis key (old + 1 - 1) last now s.keys key in
      let s' : Servers redis mongo = record s {
        keys = set_segment redis key (old + 1 - 1) last now s.keys;
      } in
      run_alone-issuing redis mongo a t c need now s' old last i (ground (arith, h))
        (ground (arith, h)) fits

  run_alone-allocating :
      (s : Servers redis mongo) (i : ℕ)
      → positive_need need ≤ a.block_size_fn t c (positive_need need)
      → (start : ℕ) × ((run_alone redis mongo a 3
            (at_pc redis mongo a t c need now s (allocating i))
            s).1
          ≡ done start)
  unfolding run_alone advance alloc_segment
  run_alone-allocating s i large =
      let old = issued_of (mongo.doc s.db t c) in
      let (db, start, last) =
        alloc_segment mongo t c (a.block_size_fn t c (positive_need need)) s.db in
      let s' : Servers redis mongo = record s { db = db } in
      (old + 1, run_alone-setting s' old last i (ground (arith, large)))

  -- The servers after the first script.
  abbrev tried : Servers redis mongo → Servers redis mongo × Pc
  tried s = advance redis mongo a trying (new_call t c need now) fine s

  tried-alone :
      (s : Servers redis mongo)
      → (run_alone redis mongo a 4 (new_call t c need now) s).1
        ≡ (run_alone redis mongo a 3 (at_pc redis mongo a t c need now s (tried s).1) (tried s).0).1
  unfolding run_alone
  tried-alone s = refl

  no_grant-round :
      (reply : Reply)
      → 0 < a.max_retry
      → ¬ IsGrant reply
      → after_script a 0 fine reply ≡ allocating 0
  no_grant-round (granted start last now) some_round bad = absurd (bad tt)
  no_grant-round not_found some_round bad = ground arith
  no_grant-round (exhausted curr last now) some_round bad = ground arith

  run_alone-trying :
      (s : Servers redis mongo)
      → 0 < a.max_retry
      → positive_need need ≤ a.block_size_fn t c (positive_need need)
      → (start : ℕ) × ((run_alone redis mongo a 4 (new_call t c need now) s).1 ≡ done start)
  unfolding advance
  run_alone-trying s some_round large =
      let reply = in_segment redis (a.key_fn t c) (positive_need need) 0 now s.keys in
      elim (in_segment_cases redis (a.key_fn t c) (positive_need need) 0 now s.keys) [
        | inl (same, bad) ↦
            let (start, done_at) = run_alone-allocating (tried s).0 0 large in
            (start, rw (tried-alone s, no_grant-round reply.1 some_round bad) done_at)
        | inr (curr, last, at, at', fits, granted_at, keys) ↦ (
          curr + 1,
          rw (tried-alone s, granted_at)
              (run_alone-done redis mongo a t c need now s (curr + 1) 3 (tried s).0),
        )
      ]

-- A call of `Malloc` that no other process and no fault disturbs returns a number after at most four
-- calls to the servers, whatever Redis and MongoDB hold, with any key function and with any number of
-- rounds set, where the block size is the default.
pub malloc_returns :
    (redis : Redis) (mongo : Mongo) (key_fn : Option (String → String → String)) (max_retry : ℕ)
    (t c : String) (need now : ℕ) (s : Servers redis mongo)
    → let a = ensure (record { block_size_fn = none; key_fn = key_fn; max_retry = max_retry }) in
      (start : ℕ) × ((run_alone redis mongo a 4 (new_call t c need now) s).1 ≡ done start)
unfolding ensure
malloc_returns redis mongo key_fn max_retry t c need now s =
    let a = ensure (record { block_size_fn = none; key_fn = key_fn; max_retry = max_retry }) in
    run_alone-trying redis mongo a t c need now s (ground arith) (default_block-need t c need)
