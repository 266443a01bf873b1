-- ===== src/Seq/Dao.antt =====
-- module/chat/seq/db.go: the methods of `DAO`, with numbers that are not negative; `AdvanceCommit` with
-- a negative one can store a negative `max_seq`, but no code makes that call. The calls can fail; which
-- calls do is said where they are used.
use ppchat.Prelude.{ℕ, ◌+◌, String, true, false, Option, none, some, [], ◌∷◌, ◌==◌, if◌then◌else◌}
use ppchat.Seq.Mongo.{Mongo, Request, SeqConversation, Field, inc, raise, set_on_insert}

-- `before.IssuedSeq`, which stays 0 when there was no document.
abbrev pub issued_of : Option SeqConversation → ℕ
issued_of none = 0
issued_of (some d) = d.issued_seq

abbrev pub positive_block : ℕ → ℕ
positive_block block = if block == 0 then 256 else block

unfoldable pub alloc_request : String → String → ℕ → Request
alloc_request tenant conv block = record {
  tenant_id = tenant;
  conversation_id = conv;
  at_least = none;
  operators =
      inc Field.issued_seq block
      ∷ set_on_insert Field.max_seq 0
      ∷ set_on_insert Field.min_seq 0
      ∷ [];
  upsert = true;
}

unfoldable pub commit_request : String → String → ℕ → Request
commit_request tenant conv to_seq = record {
  tenant_id = tenant;
  conversation_id = conv;
  at_least = none;
  operators = raise Field.max_seq to_seq ∷ [];
  upsert = true;
}

unfoldable pub min_request : String → String → ℕ → Request
min_request tenant conv new_min = record {
  tenant_id = tenant;
  conversation_id = conv;
  at_least = some new_min;
  operators = raise Field.min_seq new_min ∷ [];
  upsert = false;
}

unfoldable pub floor_request : String → String → ℕ → Request
floor_request tenant conv floor = record {
  tenant_id = tenant;
  conversation_id = conv;
  at_least = none;
  operators = raise Field.issued_seq floor ∷ [];
  upsert = true;
}

module _ (mongo : Mongo) where
  open mongo use {Db, doc, update}

  -- The segment `[start, end]`, and the database after it.
  unfoldable pub alloc_segment : String → String → ℕ → Db → Db × ℕ × ℕ
  unfolding alloc_request
  alloc_segment tenant conv block db =
      let n = positive_block block in
      let old = issued_of (doc db tenant conv) in
      (update db (alloc_request tenant conv n), old + 1, old + n)

  unfoldable pub advance_commit : String → String → ℕ → Db → Db
  unfolding commit_request
  advance_commit tenant conv to_seq db = update db (commit_request tenant conv to_seq)

  unfoldable pub advance_min : String → String → ℕ → Db → Db
  unfolding min_request
  advance_min tenant conv new_min db = update db (min_request tenant conv new_min)

  unfoldable pub raise_issued_floor : String → String → ℕ → Db → Db
  unfolding floor_request
  raise_issued_floor tenant conv floor db = update db (floor_request tenant conv floor)
