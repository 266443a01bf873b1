-- ===== src/Seq/Watermarks.antt =====
-- The watermarks of a conversation: what the methods of `DAO` do to them.
use ppchat.Prelude.{
  ℕ, ◌+◌, ◌≤◌, ◌≡◌, refl, String, ite, Option, none, some, arith, ◌==◌, if◌then◌else◌, str_dec, max,
  leb,
}
use ppchat.Seq.Mongo.{Mongo, SeqConversation}
use ppchat.Seq.Dao.{
  issued_of, positive_block, alloc_request, commit_request, min_request, floor_request,
  alloc_segment, advance_commit, advance_min, raise_issued_floor,
}

abbrev pub max_of : Option SeqConversation → ℕ
max_of none = 0
max_of (some d) = d.max_seq

abbrev pub min_of : Option SeqConversation → ℕ
min_of none = 0
min_of (some d) = d.min_seq

-- A call of a method of `DAO`, with a number that is not negative, that MongoDB carries out.
pub data Call : Type 0 where
  allocs commits trims floors : String → String → ℕ → Call

abbrev pub trimmed : ℕ → Option SeqConversation → Option SeqConversation
trimmed new_min none = none
trimmed new_min (some d) =
    some (record d { min_seq = if leb new_min d.max_seq then max d.min_seq new_min else d.min_seq })

module _ (mongo : Mongo) where
  open mongo use {Db, doc, update, doc-update}

  pub run_call : Call → Db → Db
  unfolding alloc_segment advance_commit advance_min raise_issued_floor
  run_call (allocs t c n) db = (alloc_segment mongo t c n db).0
  run_call (commits t c n) db = advance_commit mongo t c n db
  run_call (trims t c n) db = advance_min mongo t c n db
  run_call (floors t c n) db = raise_issued_floor mongo t c n db

  -- In every conversation the messages that were trimmed are among those that were committed.
  abbrev pub IsOrdered : Db → Type 0
  IsOrdered db = (t c : String) → min_of (doc db t c) ≤ max_of (doc db t c)

  -- Every call with a number that is not negative, as `ℕ` says, keeps `min_seq ≤ max_seq` in every
  -- conversation.
  pub run_call-IsOrdered : (k : Call) (db : Db) → IsOrdered db → IsOrdered (run_call k db)
  unfolding run_call
  run_call-IsOrdered (allocs t0 c0 n) db h t c =
      ground (arith, doc-update db (alloc_request t0 c0 (positive_block n)) t c, h t c)
  run_call-IsOrdered (commits t0 c0 n) db h t c =
      ground (arith, doc-update db (commit_request t0 c0 n) t c, h t c)
  run_call-IsOrdered (trims t0 c0 n) db h t c =
      ground (arith, doc-update db (min_request t0 c0 n) t c, h t c)
  run_call-IsOrdered (floors t0 c0 n) db h t c =
      ground (arith, doc-update db (floor_request t0 c0 n) t c, h t c)

  -- No call lowers a watermark of any conversation.
  pub run_call_mono :
      (k : Call) (db : Db) (t c : String)
      → (max_of (doc db t c) ≤ max_of (doc (run_call k db) t c))
        × (min_of (doc db t c) ≤ min_of (doc (run_call k db) t c))
        × (issued_of (doc db t c) ≤ issued_of (doc (run_call k db) t c))
  unfolding run_call
  run_call_mono (allocs t0 c0 n) db t c =
      ground (arith, doc-update db (alloc_request t0 c0 (positive_block n)) t c)
  run_call_mono (commits t0 c0 n) db t c =
      ground (arith, doc-update db (commit_request t0 c0 n) t c)
  run_call_mono (trims t0 c0 n) db t c = ground (arith, doc-update db (min_request t0 c0 n) t c)
  run_call_mono (floors t0 c0 n) db t c = ground (arith, doc-update db (floor_request t0 c0 n) t c)

  -- `AllocSegment` returns a segment that is not empty, that begins right above what was issued in
  -- its conversation and ends at what is issued afterwards; it has `block` numbers, or 256 where
  -- `block` is 0; and the other conversations keep what was issued.
  pub alloc_segment_lem :
      (t c : String) (block : ℕ) (db : Db)
      → let (db', start, last) = alloc_segment mongo t c block db in
        (start ≡ issued_of (doc db t c) + 1)
        × (last + 1 ≡ start + (if block == 0 then 256 else block))
        × (start ≤ last)
        × ((t' c' : String)
            → issued_of (doc db' t' c')
              ≡ ite
                  (str_dec t t')
                  (ite (str_dec c c') last (issued_of (doc db t' c')))
                  (issued_of (doc db t' c')))
  unfolding alloc_segment
  alloc_segment_lem t c block db =
      let q = alloc_request t c (positive_block block) in
      (refl, ground arith, ground arith, λ t' c'. ground (arith, doc-update db q t' c'))

  -- `AdvanceMin` moves `min_seq` of its conversation up to the new value, unless that is above
  -- `max_seq`, and changes nothing else; without a document it creates none.
  advance_min_lem :
      (t c : String) (new_min : ℕ) (db : Db) (t' c' : String)
      → doc (advance_min mongo t c new_min db) t' c'
        ≡ ite
            (str_dec t t')
            (ite (str_dec c c') (trimmed new_min (doc db t' c')) (doc db t' c'))
            (doc db t' c')
  unfolding advance_min
  advance_min_lem t c new_min db t' c' =
      ground (arith, doc-update db (min_request t c new_min) t' c')
