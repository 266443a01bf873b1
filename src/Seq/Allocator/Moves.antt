-- ===== src/Seq/Allocator/Moves.antt =====
-- What one step of a call does to the holders of a number.
use ppchat.Prelude.{ℕ, suc, ◌+◌, ◌-◌, ◌≤◌, ◌≡◌, ◌≢◌, inl, inr, refl, arith, String, ltb, if_elim}
use ppchat.Seq.Redis.{
  Redis, Reply, granted, not_found, exhausted, in_segment, set_segment, IsGrant, in_segment_cases,
  hget-issued, hget-set_segment,
}
use ppchat.Seq.Allocator.{
  Allocator, Fault, fine, lost_before, lost_after, setting, positive_need, after, after_script,
  after_set, round,
}
use ppchat.Seq.Allocator.Weights.{seg_weight, pc_weight}

round-weight : (a : Allocator) (need i x : ℕ) → pc_weight need (round a i) x ≡ 0
round-weight a need i x =
    if_elim (λ p. pc_weight need p x ≡ 0) (ltb i a.max_retry) (λ below. refl) (λ over. refl)

no_grant-weight :
    (a : Allocator) (need i x : ℕ) (f : Fault) (reply : Reply)
    → ¬ IsGrant reply
    → pc_weight need (after_script a i f reply) x ≡ 0
no_grant-weight a need i x fine (granted start last now) bad = absurd (bad tt)
no_grant-weight a need i x fine not_found bad = round-weight a need i x
no_grant-weight a need i x fine (exhausted curr last now) bad = round-weight a need i x
no_grant-weight a need i x lost_before reply bad = round-weight a need i x
no_grant-weight a need i x lost_after reply bad = round-weight a need i x

after_same {ℓ} : {A : Type ℓ} (f : Fault) (x : A) → after f x x ≡ x
after_same fine x = refl
after_same lost_before x = refl
after_same lost_after x = refl

module _ (redis : Redis) where
  open redis use {Keys, hget, hset}

  -- The weight of the segment under a key.
  abbrev pub seg : String → ℕ → Keys → ℕ
  seg k x r = seg_weight (hget r k "curr") (hget r k "end") x

  module _ (a : Allocator) (k : String) (need i seg_end now x : ℕ) (r : Keys) where
    abbrev out : Keys × Reply
    out = in_segment redis k (positive_need need) seg_end now r

    -- A number that the script grants leaves the segment.
    pub script-weight :
        (f : Fault)
        → seg k x (after f r out.0) + pc_weight need (after_script a i f out.1) x ≤ seg k x r
    script-weight f = elim (in_segment_cases redis k (positive_need need) seg_end now r) [
      | inl (same, bad) ↦
          rw (same, after_same f r) (omega (arith, no_grant-weight a need i x f out.1 bad))
      | inr (curr, last, at, at', fits, reply, keys) ↦
          let h = hget-issued redis k (positive_need need) seg_end now r curr k in
          rw (reply, keys) (ground (arith, h, round-weight a need i x, at, at', fits))
    ]

    pub script-other : (f : Fault) (k' : String) → k ≢ k' → seg k' x (after f r out.0) ≡ seg k' x r
    script-other f k' other = elim (in_segment_cases redis k (positive_need need) seg_end now r) [
      | inl (same, bad) ↦ rw (same, after_same f r) refl
      | inr (curr, last, at, at', fits, reply, keys) ↦
          let h = hget-issued redis k (positive_need need) seg_end now r curr k' in
          rw keys (ground (arith, h))
    ]

  module _ (a : Allocator) (k : String) (need i start last now x : ℕ) (r : Keys) (f : Fault) where
    abbrev stored : Keys
    stored = after f r (set_segment redis k (start - 1) last now r)

    -- A segment that is stored passes from the call to Redis, and what was there is lost.
    pub set-weight :
        seg k x stored + pc_weight need (after_set a i f last) x
        ≤ seg k x r + pc_weight need (setting i start last) x
    set-weight =
        ground
          (arith, round-weight a need (suc i) x, hget-set_segment redis k (start - 1) last now r k)

    pub set-other : (k' : String) → k ≢ k' → seg k' x stored ≡ seg k' x r
    set-other k' other = ground (arith, hget-set_segment redis k (start - 1) last now r k')
