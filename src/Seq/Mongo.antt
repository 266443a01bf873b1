-- ===== src/Seq/Mongo.antt =====
-- What module/chat/seq/db.go relies on in MongoDB: the collection `seq_conversation`, one document
-- for a tenant and a conversation, and the updates that the package sends.
use ppchat.Prelude.{
  ℕ, ◌+◌, ◌≡◌, String, ite, Bool, true, false, Option, none, some, List, [], ◌∷◌, leb, max,
  if◌then◌else◌, str_dec,
}

-- The fields of `SeqConversation` that the updates write; a field that is missing decodes as 0.
pub record SeqConversation : Type 0 where
  pub max_seq : ℕ
  pub min_seq : ℕ
  pub issued_seq : ℕ

pub data Field : Type 0 where
  max_seq min_seq issued_seq : Field

-- `$inc`, `$max` and `$setOnInsert` with numbers that are not negative: `$max` on a field that is
-- missing writes the number, so that a negative one would be stored. The time stamps are left out.
pub data Operator : Type 0 where
  inc : Field → ℕ → Operator
  raise : Field → ℕ → Operator
  set_on_insert : Field → ℕ → Operator

-- The filter's `max_seq: {$gte: n}`, where it has one, is `at_least`.
pub record Request : Type 0 where
  pub tenant_id : String
  pub conversation_id : String
  pub at_least : Option ℕ
  pub operators : List Operator
  pub upsert : Bool

abbrev pub empty_doc : SeqConversation
empty_doc = record { max_seq = 0; min_seq = 0; issued_seq = 0 }

abbrev change : Field → (ℕ → ℕ) → SeqConversation → SeqConversation
change Field.max_seq f d = record d { max_seq = f d.max_seq }
change Field.min_seq f d = record d { min_seq = f d.min_seq }
change Field.issued_seq f d = record d { issued_seq = f d.issued_seq }

abbrev pub run_operator : Bool → Operator → SeqConversation → SeqConversation
run_operator fresh (inc k n) d = change k (λ v. v + n) d
run_operator fresh (raise k n) d = change k (λ v. max v n) d
run_operator true (set_on_insert k n) d = change k (λ _. n) d
run_operator false (set_on_insert k n) d = d

abbrev pub run_operators : Bool → List Operator → SeqConversation → SeqConversation
run_operators fresh [] d = d
run_operators fresh (o ∷ os) d = run_operators fresh os (run_operator fresh o d)

abbrev passes : Option ℕ → SeqConversation → Bool
passes none d = true
passes (some n) d = leb n d.max_seq

-- What an update makes of the document that the filter's keys name.
abbrev pub updated : Request → Option SeqConversation → Option SeqConversation
updated q none = if q.upsert then some (run_operators true q.operators empty_doc) else none
updated q (some d) =
    if passes q.at_least d then some (run_operators false q.operators d) else some d

-- The database, by its documented behaviour: an update is atomic, changes the document of its keys
-- as its operators say and no other, and `FindOneAndUpdate` with `ReturnDocument(Before)` returns the
-- document as it was.
pub record Mongo : Type 1 where
  pub Db : Type 0
  pub doc : Db → String → String → Option SeqConversation
  pub update : Db → Request → Db
  pub doc-update :
      (db : Db) (q : Request) (t c : String)
      → doc (update db q) t c
        ≡ ite
            (str_dec q.tenant_id t)
            (ite (str_dec q.conversation_id c) (updated q (doc db t c)) (doc db t c))
            (doc db t c)
