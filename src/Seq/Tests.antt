-- ===== src/Seq/Tests.antt =====
-- Runs of module/chat/seq on a database and a Redis that are functions of their keys.
use ppchat.Prelude.{
  ℕ, ◌+◌, ◌≤◌, ◌≡◌, ◌⊎◌, refl, arith, String, ite, Option, none, some, [], ◌∷◌, str_dec, str-ne,
  get_elem?,
}
use ppchat.Seq.Mongo.{Mongo, SeqConversation, Request, updated}
use ppchat.Seq.Watermarks.{trims, run_call, IsOrdered, run_call-IsOrdered}
use ppchat.Seq.Redis.{Redis}
use ppchat.Seq.Allocator.{
  Allocator, ensure, Malloc, fine, new_call, advance, Pc, trying, allocating, setting, issuing,
  done, Servers, run_alone, positive_need,
}
use ppchat.Seq.Allocator.World.{World, ran, Reach, starts, goes_on, invokes, runs}
use ppchat.Seq.Allocator.Grants.{IsOwnKey}
use ppchat.Seq.Allocator.Unique.{malloc_unique}
use ppchat.Seq.Allocator.Progress.{malloc_returns}

abbrev Docs : Type 0
Docs = String → String → Option SeqConversation

abbrev put : Docs → Request → Docs
put db q t c =
    ite (str_dec q.tenant_id t) (ite (str_dec q.conversation_id c) (updated q (db t c)) (db t c))
      (db t c)

abbrev mongo : Mongo
mongo = record { Db = Docs; doc = λ db t c. db t c; update = put; doc-update = λ db q t c. refl }

abbrev Hashes : Type 0
Hashes = String → String → Option ℕ

abbrev hset : Hashes → String → String → ℕ → Hashes
hset r k f v k' f' = ite (str_dec k k') (ite (str_dec f f') (some v) (r k' f')) (r k' f')

abbrev redis : Redis
redis = record {
  Keys = Hashes;
  hget = λ r k f. r k f;
  hset = hset;
  pexpire = λ r k ms. r;
  hget-hset = λ r k f v k' f'. refl;
  hget-pexpire = λ r k ms k' f'. refl;
}

-- Seven numbers were issued in every conversation, five committed and two trimmed.
abbrev docs : Docs
docs t c = some (record { max_seq = 5; min_seq = 2; issued_seq = 7 })

abbrev servers : Servers redis mongo
servers = record { keys = λ k f. none; db = docs }

docs-IsOrdered : IsOrdered mongo docs
docs-IsOrdered t c = omega arith

run_call-IsOrdered_example : IsOrdered mongo (run_call mongo (trims "t" "c" 9) docs)
run_call-IsOrdered_example = run_call-IsOrdered mongo (trims "t" "c" 9) docs docs-IsOrdered

malloc_returns_example :
    let a = ensure (record { block_size_fn = none; key_fn = none; max_retry = 0 }) in
    (start : ℕ) × ((run_alone redis mongo a 4 (new_call "t" "c" 3 1000) servers).1 ≡ done start)
malloc_returns_example = malloc_returns redis mongo none 0 "t" "c" 3 1000 servers

-- Two calls for the conversation c of the tenant t: the first takes a segment, the second finds it.
abbrev own_key : String → String → String
own_key t c = ite (str_dec t "t") (ite (str_dec c "c") "own" "other") "other"

abbrev a : Allocator
a = ensure (record { block_size_fn = none; key_fn = some own_key; max_retry = 0 })

own_key-IsOwnKey : IsOwnKey redis mongo a "t" "c"
unfolding ensure
own_key-IsOwnKey t' c' e =
    (ground (arith, str-ne "other" "own" refl), ground (arith, str-ne "other" "own" refl))

abbrev call_at : ℕ → Pc → Malloc
call_at need pc = record {
  tenant_id = "t";
  conversation_id = "c";
  need = need;
  now = 1000;
  pc = pc;
}

abbrev w0 : World redis mongo
w0 = record { servers = servers; calls = [] }

abbrev w1 : World redis mongo
w1 = record w0 { calls = new_call "t" "c" 3 1000 ∷ [] }

abbrev w2 : World redis mongo
w2 = record w0 { calls = new_call "t" "c" 3 1000 ∷ new_call "t" "c" 2 1000 ∷ [] }

abbrev w3 : World redis mongo
w3 = ran redis mongo a 0 (call_at 3 trying) fine w2

abbrev w4 : World redis mongo
w4 = ran redis mongo a 0 (call_at 3 (allocating 0)) fine w3

abbrev w5 : World redis mongo
w5 = ran redis mongo a 0 (call_at 3 (setting 0 8 263)) fine w4

abbrev w6 : World redis mongo
w6 = ran redis mongo a 0 (call_at 3 (issuing 0 263)) fine w5

abbrev w7 : World redis mongo
w7 = ran redis mongo a 1 (call_at 2 trying) fine w6

w7-Reach : Reach redis mongo a servers w7
unfolding ran advance ensure str_dec
w7-Reach =
    let r1 = goes_on w0 w1 starts (invokes "t" "c" 3 1000 w0) in
    let r2 = goes_on w1 w2 r1 (invokes "t" "c" 2 1000 w1) in
    let r3 = goes_on w2 w3 r2 (runs 0 (call_at 3 trying) fine w2 refl) in
    let r4 = goes_on w3 w4 r3 (runs 0 (call_at 3 (allocating 0)) fine w3 refl) in
    let r5 = goes_on w4 w5 r4 (runs 0 (call_at 3 (setting 0 8 263)) fine w4 refl) in
    let r6 = goes_on w5 w6 r5 (runs 0 (call_at 3 (issuing 0 263)) fine w5 refl) in
    goes_on w6 w7 r6 (runs 1 (call_at 2 trying) fine w6 refl)

first_of_w7 : get_elem? w7.calls 0 ≡ some (call_at 3 (done 8))
unfolding ran advance ensure str_dec
first_of_w7 = refl

second_of_w7 : get_elem? w7.calls 1 ≡ some (call_at 2 (done 11))
unfolding ran advance ensure str_dec
second_of_w7 = refl

malloc_unique_example : (8 + positive_need 3 ≤ 11) ⊎ (11 + positive_need 2 ≤ 8)
malloc_unique_example =
    malloc_unique redis mongo a "t" "c" own_key-IsOwnKey servers (λ k. refl) w7 w7-Reach 0 1 8 11
      (call_at 3 (done 8)) (call_at 2 (done 11)) (λ e. omega arith) first_of_w7 second_of_w7
      (refl, refl, refl) (refl, refl, refl)
