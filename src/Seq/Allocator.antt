-- ===== src/Seq/Allocator.antt =====
-- module/chat/seq/seq.go: `Allocator.Malloc`, cut at the calls that leave the process. Between two of
-- these other processes, and Redis itself, can move.
pub mod World
pub mod Weights
pub mod Moves
pub mod Grants
pub mod Unique
pub mod Progress
use ppchat.Prelude.{
  ℕ, zero, suc, ◌+◌, ◌-◌, ◌*◌, ◌≡◌, String, Bool, true, false, Option, none, some, List, [], ◌∷◌,
  ltb, ◌==◌, if◌then◌else◌,
}
use Prim.Native.String.{◌++◌}
use ppchat.Seq.Mongo.{Mongo}
use ppchat.Seq.Dao.{alloc_segment}
use ppchat.Seq.Redis.{Redis, Reply, granted, not_found, exhausted, in_segment, set_segment}

-- The fields of `Allocator` after `ensure`.
pub record Allocator : Type 0 where
  pub block_size_fn : String → String → ℕ → ℕ
  pub key_fn : String → String → String
  pub max_retry : ℕ

unfoldable pub default_block : String → String → ℕ → ℕ
default_block tenant conv want =
    let n : ℕ = if want == 0 then 1 else want in if ltb n 32 then 256 else n * 8

-- The fields of `Allocator` as they are set; a function that is nil or a zero gets its default. A
-- negative `MaxRetry`, with which no round is run, is left out; the code sets 5.
pub record Settings : Type 0 where
  pub block_size_fn : Option (String → String → ℕ → ℕ)
  pub key_fn : Option (String → String → String)
  pub max_retry : ℕ

abbrev or_else {ℓ} : {A : Type ℓ} → Option A → A → A
or_else none d = d
or_else (some a) d = a

-- How a call to Redis or MongoDB ends: it returns; or it returns an error, before or after the
-- server has carried the request out.
pub data Fault : Type 0 where
  fine lost_before lost_after : Fault

-- Where a call of `Malloc` stands: before the first script; in round `i`, before `AllocSegment`,
-- before `luaSetSegment` with a segment, or before `luaInSegment` with its end; and at the end.
pub data Pc : Type 0 where
  trying : Pc
  allocating : ℕ → Pc
  setting : ℕ → ℕ → ℕ → Pc
  issuing : ℕ → ℕ → Pc
  done : ℕ → Pc
  failed : Pc

pub record Malloc : Type 0 where
  pub tenant_id : String
  pub conversation_id : String
  pub need : ℕ
  pub now : ℕ
  pub pc : Pc

abbrev pub new_call : String → String → ℕ → ℕ → Malloc
new_call tenant conv need now = record {
  tenant_id = tenant;
  conversation_id = conv;
  need = need;
  now = now;
  pc = trying;
}

-- `ensure`
unfoldable pub ensure : Settings → Allocator
unfolding default_block
ensure s = record {
  block_size_fn = or_else s.block_size_fn default_block;
  key_fn = or_else s.key_fn (λ tenant conv. "seq:blk:" ++ tenant ++ ":" ++ conv);
  max_retry = if s.max_retry == 0 then 10 else s.max_retry;
}

abbrev pub positive_need : ℕ → ℕ
positive_need need = if need == 0 then 1 else need

pub record Servers (redis : Redis) (mongo : Mongo) : Type 0 where
  pub keys : redis.Keys
  pub db : mongo.Db

-- What the server is left with, and whether the caller learns the result.
abbrev pub after {ℓ} : {A : Type ℓ} → Fault → A → A → A
after fine old new = new
after lost_before old new = old
after lost_after old new = new

-- The loop goes into its round `i`, or ends.
abbrev pub round : Allocator → ℕ → Pc
round a i = if ltb i a.max_retry then allocating i else failed

-- What follows a script that issues numbers: the end of the call, or round `i`.
abbrev pub after_script : Allocator → ℕ → Fault → Reply → Pc
after_script a i fine (granted start last now) = done start
after_script a i fine not_found = round a i
after_script a i fine (exhausted curr last now) = round a i
after_script a i lost_before r = round a i
after_script a i lost_after r = round a i

abbrev pub after_set : Allocator → ℕ → Fault → ℕ → Pc
after_set a i fine last = issuing i last
after_set a i lost_before last = round a (suc i)
after_set a i lost_after last = round a (suc i)

abbrev pub after_alloc : ℕ → Fault → ℕ → ℕ → Pc
after_alloc i fine start last = setting i start last
after_alloc i lost_before start last = failed
after_alloc i lost_after start last = failed

module _ (redis : Redis) (mongo : Mongo) (a : Allocator) where
  -- One call to a server, and what `Malloc` does with its result.
  unfoldable pub advance : Pc → Malloc → Fault → Servers redis mongo → Servers redis mongo × Pc
  unfolding in_segment set_segment alloc_segment
  advance trying m f s =
      let key = a.key_fn m.tenant_id m.conversation_id in
      let (keys, reply) = in_segment redis key (positive_need m.need) 0 m.now s.keys in
      (record s { keys = after f s.keys keys }, after_script a 0 f reply)
  advance (allocating i) m f s =
      let block = a.block_size_fn m.tenant_id m.conversation_id (positive_need m.need) in
      let (db, start, last) = alloc_segment mongo m.tenant_id m.conversation_id block s.db in
      (record s { db = after f s.db db }, after_alloc i f start last)
  advance (setting i start last) m f s =
      let key = a.key_fn m.tenant_id m.conversation_id in
      (
        record s { keys = after f s.keys (set_segment redis key (start - 1) last m.now s.keys) },
        after_set a i f last,
      )
  advance (issuing i last) m f s =
      let key = a.key_fn m.tenant_id m.conversation_id in
      let (keys, reply) = in_segment redis key (positive_need m.need) last m.now s.keys in
      (record s { keys = after f s.keys keys }, after_script a (suc i) f reply)
  advance (done start) m f s = (s, done start)
  advance failed m f s = (s, failed)

  -- A call of `Malloc` with no other process and no fault, for at most so many steps.
  unfoldable pub run_alone : ℕ → Malloc → Servers redis mongo → Servers redis mongo × Pc
  unfolding advance
  run_alone zero m s = (s, m.pc)
  run_alone (suc n) m s =
      let (s', pc) = advance m.pc m fine s in run_alone n (record m { pc = pc }) s'
