-- ===== src/Seq/Allocator/Unique.antt =====
-- No number of a conversation is granted twice.
use ppchat.Prelude.{
  ℕ, ◌+◌, ◌≤◌, ◌<◌, ◌≡◌, ◌≢◌, ◌⊎◌, arith, String, none, some, [], ◌∷◌, get_elem?, max,
}
use ppchat.Seq.Mongo.{Mongo}
use ppchat.Seq.Watermarks.{run_call_mono}
use ppchat.Seq.Redis.{Redis}
use ppchat.Seq.Allocator.{Allocator, Fault, Malloc, new_call, done, positive_need, Servers, advance}
use ppchat.Seq.Allocator.Weights.{weight, total, total-append, total-set, weights-le-total}
use ppchat.Seq.Allocator.Grants.{IsOwnKey, issued, held, advance-Moved}
use ppchat.Seq.Allocator.World.{
  World, Step, invokes, runs, expires, moves, ran, Reach, starts, goes_on,
}

module _ (redis : Redis) (mongo : Mongo) (a : Allocator) (t c : String) where
  -- Each number has one holder, and a number that was not issued has none.
  record IsGranting (w : World redis mongo) : Type 0 where
    once : (x : ℕ) → held redis mongo a t c x w.servers + total t c x w.calls ≤ 1
    fresh :
        (x : ℕ)
        → issued redis mongo a t c w.servers < x
        → held redis mongo a t c x w.servers + total t c x w.calls ≡ 0

  ran-IsGranting :
      (own_key : IsOwnKey redis mongo a t c) (i : ℕ) (m : Malloc) (f : Fault)
      (w : World redis mongo)
      → get_elem? w.calls i ≡ some m
      → IsGranting w
      → IsGranting (ran redis mongo a i m f w)
  unfolding ran
  ran-IsGranting own_key i m f w at g =
      let step = λ (x : ℕ).
        advance-Moved redis mongo a t c own_key x m.tenant_id m.conversation_id m.need m.now f
          w.servers m.pc in
      let calls = λ (x : ℕ).
        total-set t c x w.calls i m (record m { pc = (advance redis mongo a m.pc m f w.servers).1 })
          at in
      record {
        once = λ x. ground (arith, (step x).up, (step x).own, calls x, g.once x, g.fresh x);
        fresh = λ x above. ground (arith, (step x).up, (step x).own, calls x, g.once x, g.fresh x);
      }

  Step-IsGranting :
      (own_key : IsOwnKey redis mongo a t c) (w w' : World redis mongo)
      → Step redis mongo a w w'
      → IsGranting w
      → IsGranting w'
  Step-IsGranting own_key w1 w' (invokes tenant conv need now w) g =
      let arrives = λ (x : ℕ). total-append t c x w.calls (new_call tenant conv need now ∷ []) in
      record {
        once = λ x. ground (arith, arrives x, g.once x);
        fresh = λ x above. ground (arith, arrives x, g.fresh x above);
      }
  Step-IsGranting own_key w1 w' (runs i m f w at) g = ran-IsGranting own_key i m f w at g
  Step-IsGranting own_key w1 w' (expires keys w h) g = record {
    once = λ x. ground (arith, h (a.key_fn t c), g.once x);
    fresh = λ x above. ground (arith, h (a.key_fn t c), g.fresh x above);
  }
  Step-IsGranting own_key w1 w' (moves k w) g = record {
    once = g.once;
    fresh = λ x above. g.fresh x (ground (arith, run_call_mono mongo k w.servers.db t c));
  }

  Reach-IsGranting :
      (own_key : IsOwnKey redis mongo a t c) (s : Servers redis mongo)
      → ((k : String) → redis.hget s.keys k "end" ≡ none)
      → (w : World redis mongo) → Reach redis mongo a s w
      → IsGranting w
  Reach-IsGranting own_key s empty w starts = record {
    once = λ x. ground (arith, empty (a.key_fn t c));
    fresh = λ x above. ground (arith, empty (a.key_fn t c));
  }
  Reach-IsGranting own_key s empty w' (goes_on w w1 r step) =
      Step-IsGranting own_key w w' step (Reach-IsGranting own_key s empty w r)

  -- The numbers that a call has returned.
  abbrev pub IsGranted : ℕ → Malloc → ℕ → Type 0
  IsGranted start m x = (start ≤ x) × (x < start + positive_need m.need)

  granted-weight :
      (x start : ℕ) (m : Malloc)
      → m.tenant_id ≡ t
      → m.conversation_id ≡ c
      → m.pc ≡ done start
      → IsGranted start m x
      → weight t c x m ≡ 1
  granted-weight x start m same same' returned in_range =
      rw (same, same', returned) (ground (arith, in_range))

  -- Start with any database and no segment in Redis, and let any calls of `Malloc` of any conversations
  -- take their steps in any order, while calls to Redis and MongoDB fail before or after they are carried
  -- out, keys expire, and the other methods of `DAO` run: two calls that returned numbers of one
  -- conversation, whose key is not the key of another, returned ranges that do not overlap.
  pub malloc_unique :
      (own_key : IsOwnKey redis mongo a t c) (s : Servers redis mongo)
      → ((k : String) → redis.hget s.keys k "end" ≡ none)
      → (w : World redis mongo) → Reach redis mongo a s w
      → (i j start start' : ℕ) (m m' : Malloc) → i ≢ j
      → get_elem? w.calls i ≡ some m
      → get_elem? w.calls j ≡ some m'
      → (m.tenant_id ≡ t) × (m.conversation_id ≡ c) × (m.pc ≡ done start)
      → (m'.tenant_id ≡ t) × (m'.conversation_id ≡ c) × (m'.pc ≡ done start')
      → (start + positive_need m.need ≤ start') ⊎ (start' + positive_need m'.need ≤ start)
  malloc_unique own_key s empty w reach i j start start' m m' apart at at' returned returned' =
      let g = Reach-IsGranting own_key s empty w reach in
      let x = max start start' in
      let both = weights-le-total t c x w.calls i j m m' at at' apart in
      let one = granted-weight x start m returned.0 returned.1 returned.2 in
      let one' = granted-weight x start' m' returned'.0 returned'.1 returned'.2 in
      ground (arith, both, one, one', g.once x)
