-- ===== src/Messages/Stored.antt =====
-- module/chat/model/msg.go: `InsertMessage` and `GetMessageByServerMsgID`, on the collection of the
-- documents by the documented behaviour of MongoDB.
use mathlib.Core.List.{Memᴰ}
use ppchat.Prelude.{
  ℕ, ◌≡◌, ◌≢◌, ◌<◌, ◌⊎◌, ◌↔◌, String, Option, none, some, List, ◌==◌, if◌then◌else◌,
}
use ppchat.Messages.Model.{MessageModel}

pub data Inserted (A : Type 0) : Type 0 where
  inserted : A → Inserted A
  duplicate_key insert_failed : Inserted A

-- `FindOne` and `Decode`.
pub data Found (A : Type 0) : Type 0 where
  found : A → Found A
  no_documents find_failed : Found A

-- The collection `message`. `read_back` is what `Decode` makes of a document that was encoded: the
-- tags `omitempty` leave out maps and lists that are empty, which come back as nil.
pub record Collection (Doc : Type 0) (server_id : Doc → String) : Type 1 where
  pub State : Type 0
  pub docs : State → List Doc
  pub read_back : Doc → Doc
  pub insert_one : State → Doc → Inserted State
  pub find_one : State → String → Found Doc
  pub docs-insert_one :
      (c c' : State) (d e : Doc)
      → insert_one c d ≡ inserted c'
      → Memᴰ e (docs c') ↔ ((e ≡ d) ⊎ Memᴰ e (docs c))
  pub find_one-found :
      (c : State) (id : String) (d : Doc)
      → find_one c id ≡ found d
      → (e : Doc) × Memᴰ e (docs c) × (server_id e ≡ id) × (d ≡ read_back e)
  pub find_one-none :
      (c : State) (id : String) (d : Doc)
      → find_one c id ≡ no_documents
      → Memᴰ d (docs c)
      → server_id d ≢ id

-- The result of `GetMessageByServerMsgID`: `fetched none` where there is no such message.
pub data Fetched (A : Type 0) : Type 0 where
  fetched : Option A → Fetched A
  not_fetched : Fetched A

unfoldable pub fetched_of : {A : Type 0} → Found A → Fetched A
fetched_of (found d) = fetched (some d)
fetched_of no_documents = fetched none
fetched_of find_failed = not_fetched

abbrev pub id_or : Option String → String → Option String
id_or none fresh = some fresh
id_or (some id) fresh = some id

-- The strings and numbers of a document, and an id that is set, are read back as they were.
pub record AreKept {Float Json : Type 0}
    (read_back : MessageModel Float Json → MessageModel Float Json) : Type 0 where
  pub id : (m : MessageModel Float Json) (i : String) → m.id ≡ some i → (read_back m).id ≡ some i
  pub tenant_id : (m : MessageModel Float Json) → (read_back m).tenant_id ≡ m.tenant_id
  pub server_msg_id : (m : MessageModel Float Json) → (read_back m).server_msg_id ≡ m.server_msg_id
  pub send_time_ms : (m : MessageModel Float Json) → (read_back m).send_time_ms ≡ m.send_time_ms
  pub conversation_id :
      (m : MessageModel Float Json) → (read_back m).conversation_id ≡ m.conversation_id
  pub seq_num : (m : MessageModel Float Json) → (read_back m).seq_num ≡ m.seq_num
  pub content_text : (m : MessageModel Float Json) → (read_back m).content_text ≡ m.content_text

module _ {Float Json : Type 0} where
  -- The message as `InsertMessage` leaves it.
  unfoldable pub completed : String → ℕ → MessageModel Float Json → MessageModel Float Json
  completed fresh now msg = record msg {
    id = id_or msg.id fresh;
    send_time_ms = if msg.send_time_ms == 0 then now else msg.send_time_ms;
  }

  module _ (coll : Collection (MessageModel Float Json) (λ m. m.server_msg_id)) where
    open coll use {
      State, docs, read_back, insert_one, find_one, docs-insert_one, find_one-found, find_one-none,
    }

    unfoldable pub insert_message :
        String → ℕ → MessageModel Float Json → State → MessageModel Float Json × Inserted State
    unfolding completed
    insert_message fresh now msg c =
        (completed fresh now msg, insert_one c (completed fresh now msg))

    unfoldable pub get_message_by_server_msg_id : String → State → Fetched (MessageModel Float Json)
    unfolding fetched_of
    get_message_by_server_msg_id id c = fetched_of (find_one c id)

    -- What is fetched of a message that was inserted with this fallback for its id and this reading of
    -- the clock.
    pub record IsStored (fresh : String) (now : ℕ) (m d : MessageModel Float Json) : Type 0 where
      pub id :
          ((m.id ≡ none) × (d.id ≡ some fresh)) ⊎ ((i : String) × (m.id ≡ some i) × (d.id ≡ some i))
      pub tenant_id : d.tenant_id ≡ m.tenant_id
      pub server_msg_id : d.server_msg_id ≡ m.server_msg_id
      pub send_time_ms :
          ((m.send_time_ms ≡ 0) × (d.send_time_ms ≡ now))
          ⊎ ((0 < m.send_time_ms) × (d.send_time_ms ≡ m.send_time_ms))
      pub conversation_id : d.conversation_id ≡ m.conversation_id
      pub seq_num : d.seq_num ≡ m.seq_num
      pub content_text : d.content_text ≡ m.content_text
