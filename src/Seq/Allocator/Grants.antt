-- ===== src/Seq/Allocator/Grants.antt =====
-- What one step of a call does to the holders of a number of a conversation.
use ppchat.Prelude.{ℕ, suc, ◌+◌, ◌-◌, ◌≤◌, ◌<◌, ◌≡◌, ◌≢◌, ◌⊎◌, inl, inr, arith, String, str_dec}
use ppchat.Seq.Mongo.{Mongo}
use ppchat.Seq.Dao.{issued_of, alloc_segment}
use ppchat.Seq.Watermarks.{alloc_segment_lem}
use ppchat.Seq.Redis.{Redis, in_segment, set_segment}
use ppchat.Seq.Allocator.{
  Allocator, Fault, Malloc, Pc, trying, allocating, setting, issuing, done, failed, positive_need,
  Servers, advance, after, after_script, after_set, after_alloc,
}
use ppchat.Seq.Allocator.Weights.{weight}
use ppchat.Seq.Allocator.Moves.{seg, script-weight, script-other, set-weight, set-other}

module _ (redis : Redis) (mongo : Mongo) (a : Allocator) (t c : String) where
  -- The key of the conversation is not the key of another.
  abbrev pub IsOwnKey : Type 0
  IsOwnKey = (t' c' : String) → a.key_fn t' c' ≡ a.key_fn t c → (t' ≡ t) × (c' ≡ c)

  abbrev pub issued : Servers redis mongo → ℕ
  issued s = issued_of (mongo.doc s.db t c)

  abbrev pub held : ℕ → Servers redis mongo → ℕ
  held x s = seg redis (a.key_fn t c) x s.keys

  -- A step of a call of the conversation takes up a number at most when MongoDB issues it.
  pub record Moved (x : ℕ) (m : Malloc) (s : Servers redis mongo) (out : Servers redis mongo × Pc)
      : Type 0 where
    pub up : issued s ≤ issued out.0
    pub own :
        (held x out.0 + weight t c x (record m { pc = out.1 }) ≤ held x s + weight t c x m)
        ⊎ ((held x out.0 + weight t c x (record m { pc = out.1 }) ≤ held x s + weight t c x m + 1)
            × (issued s < x)
            × (x ≤ issued out.0))

  module _ (own_key : IsOwnKey) (x : ℕ) (tenant conv : String) (need now : ℕ) (f : Fault)
      (s : Servers redis mongo) where
    abbrev pub at_pc : Pc → Malloc
    at_pc pc = record {
      tenant_id = tenant;
      conversation_id = conv;
      need = need;
      now = now;
      pc = pc;
    }

    abbrev key : String
    key = a.key_fn tenant conv

    -- The call is of the conversation, or of another, under another key.
    whose : ((tenant ≡ t) × (conv ≡ c)) ⊎ ((key ≢ a.key_fn t c) × ((tenant ≢ t) ⊎ (conv ≢ c)))
    whose = elim (str_dec tenant t) [
      | no apart ↦ inr (λ e. apart (own_key tenant conv e).0, inl apart)
      | yes same ↦ elim (str_dec conv c) [
        | no apart ↦ inr (λ e. apart (own_key tenant conv e).1, inr apart)
        | yes same' ↦ inl (same, same')
      ]
    ]

    script-Moved :
        (i seg_end : ℕ) (pc : Pc)
        → let (keys, reply) = in_segment redis key (positive_need need) seg_end now s.keys in
          Moved x (at_pc pc) s (record s { keys = after f s.keys keys }, after_script a i f reply)
    script-Moved i seg_end pc = elim whose [
      | inl (same, same') ↦ record {
        up = omega arith;
        own = inl (
            rw (same, same')
              (ground (arith, script-weight redis a (a.key_fn t c) need i seg_end now x s.keys f)));
      }
      | inr (other_key, other) ↦ record {
        up = omega arith;
        own = inl (
            ground (
              arith,
              script-other redis a key need i seg_end now x s.keys f (a.key_fn t c) other_key,
            ));
      }
    ]

    set-Moved :
        (i start last : ℕ)
        → Moved x (at_pc (setting i start last)) s (
          record s { keys = after f s.keys (set_segment redis key (start - 1) last now s.keys) },
          after_set a i f last,
        )
    set-Moved i start last = elim whose [
      | inl (same, same') ↦ record {
        up = omega arith;
        own = inl (
            rw (same, same')
              (ground (arith, set-weight redis a (a.key_fn t c) need i start last now x s.keys f)));
      }
      | inr (other_key, other) ↦ record {
        up = omega arith;
        own = inl (
            ground (
              arith,
              set-other redis a key need i start last now x s.keys f (a.key_fn t c) other_key,
            ));
      }
    ]

    alloc-Moved :
        (i block : ℕ)
        → let (db, start, last) = alloc_segment mongo tenant conv block s.db in
          Moved x
            (at_pc (allocating i))
            s
            (record s { db = after f s.db db }, after_alloc i f start last)
    alloc-Moved i block =
        let h = alloc_segment_lem mongo tenant conv block s.db in
        elim whose [
          | inl (same, same') ↦ record {
            up =
                rw (same, same')
                  (let h = alloc_segment_lem mongo t c block s.db in
                    ground (arith, h.0, h.1, h.2, h.3 t c));
            own =
                rw (same, same')
                  (let h = alloc_segment_lem mongo t c block s.db in
                    ground (arith, h.0, h.1, h.2, h.3 t c));
          }
          | inr (other_key, other) ↦ record {
            up = ground (arith, h.3 t c, other);
            own = inl (ground (arith, other));
          }
        ]

    pub advance-Moved : (pc : Pc) → Moved x (at_pc pc) s (advance redis mongo a pc (at_pc pc) f s)
    unfolding advance
    advance-Moved trying = script-Moved 0 0 trying
    advance-Moved (allocating i) = alloc-Moved i (a.block_size_fn tenant conv (positive_need need))
    advance-Moved (setting i start last) = set-Moved i start last
    advance-Moved (issuing i last) = script-Moved (suc i) last (issuing i last)
    advance-Moved (done start) = record { up = omega arith; own = inl (omega arith) }
    advance-Moved failed = record { up = omega arith; own = inl (omega arith) }
