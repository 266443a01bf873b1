-- ===== src/ChatBox/Projector.antt =====
-- module/chatBox/store/projector.go: the events of a conversation, projected onto a timeline that the
-- customer sees and one that is private. `C` are the contents (`map[string]any`), which are not looked
-- into, and `empty` is the one without entries. The operations on the collections succeed: the error
-- of one that fails is dropped, and its collection stays as it is.
use ppchat.Prelude.{
  ℕ, zero, suc, ◌≡◌, ◌≢◌, String, ite, Bool, true, false, not, ◌&&◌, ◌||◌, Option, none, some, List,
  [], ◌∷◌, length, ltb, ◌==◌, if◌then◌else◌, str_dec,
}
pub mod Slots
pub mod Published
pub mod Redelivered
mod Tests

pub record AclList : Type 0 where
  pub teams : List String
  pub agents : List String
  pub roles : List String
  pub tags : List String

-- What `any` holds here; `nil` is also what a field that is missing reads as.
pub data Value (C : Type 0) : Type 0 where
  nil : Value C
  text : String → Value C
  number : ℕ → Value C
  flag : Bool → Value C
  content_of : C → Value C
  contents_of : List C → Value C

-- The fields of `ConversationEvent` that the projector reads; `payload_*` are entries of `Payload`.
pub record ConversationEvent (C : Type 0) : Type 0 where
  pub tenant_id : String
  pub conversation_id : String
  pub seq : ℕ
  pub event_id : String
  pub event_type : String
  pub actor_id : String
  pub payload_msg_type : Value C
  pub payload_content : Value C
  pub payload_attachments : Value C
  pub vis_mode : String
  pub vis_allow : Option AclList
  pub vis_deny : Option AclList
  pub sensitivity : String
  pub created_at_ms : ℕ
  pub target_seq : ℕ

-- A document of either collection; `sender` is the field `from`.
pub record Document (C : Type 0) : Type 0 where
  pub source_event_id : Value C
  pub sender : Value C
  pub msg_type : Value C
  pub kind : Value C
  pub content : Value C
  pub attachments : Value C
  pub vis_mode : Value C
  pub vis_allow : Option AclList
  pub vis_deny : Option AclList
  pub sensitivity : Value C
  pub edited : Value C
  pub redacted : Value C
  pub created_at_ms : Value C

-- The filter of every operation: the tenant, the conversation and the number.
abbrev pub Slot : Type 0
Slot = String × String × ℕ

abbrev pub or_new {ℓ} : {A : Type ℓ} → Option A → A → A
or_new none v = v
or_new (some u) v = u

abbrev pub changed {ℓ} : {A : Type ℓ} → (A → A) → Option A → Option A
changed f none = none
changed f (some u) = some (f u)

-- A collection of MongoDB, by its documented behaviour: an upsert with `$setOnInsert` writes only
-- where no document matches; an update with `$set` changes one that does; `FindOne` returns it.
pub record Collections (D : Type 0) : Type 1 where
  pub Docs : Type 0
  pub find_one : Docs → Slot → Option D
  pub upsert : Docs → Slot → D → Docs
  pub update_one : Docs → Slot → (D → D) → Docs
  pub find_one-upsert :
      (d : Docs) (k : Slot) (v : D) → find_one (upsert d k v) k ≡ some (or_new (find_one d k) v)
  pub find_one-upsert_other :
      (d : Docs) (k j : Slot) (v : D) → k ≢ j → find_one (upsert d k v) j ≡ find_one d j
  pub find_one-update_one :
      (d : Docs) (k : Slot) (f : D → D) → find_one (update_one d k f) k ≡ changed f (find_one d k)
  pub find_one-update_one_other :
      (d : Docs) (k j : Slot) (f : D → D) → k ≢ j → find_one (update_one d k f) j ≡ find_one d j

abbrev pub listed : AclList → Bool
listed acl = ltb 0 (length acl.teams) || ltb 0 (length acl.agents) || ltb 0 (length acl.roles)

abbrev pub denies : Option AclList → Bool
denies none = false
denies (some acl) = listed acl

abbrev is : String → String → Bool
is s t = ite (str_dec s t) true false

-- The cases of the switch on `EventType`; one that is not named does nothing.
pub data EventCase : Type 0 where
  created edited_event redacted_event visibility_changed other_event : EventCase

abbrev pub case_of : String → EventCase
case_of t =
    if is t "CustomerMessageCreated"
      || is t "AgentMessageCreated"
      || is t "AttachmentAdded"
      || is t "InternalNoteAdded"
    then created
    else if is t "MessageEdited"
    then edited_event
    else if is t "MessageRedacted"
    then redacted_event
    else if is t "VisibilityChanged"
    then visibility_changed
    else other_event

abbrev pub kind_from_event : String → String
kind_from_event t =
    if is t "InternalNoteAdded"
    then "internal_note"
    else if is t "AgentMessageCreated"
    then "agent"
    else "system"

-- `downgrade` is the method of that name, which returns the content; `nested` is the value as which a
-- content comes back in a document that `FindOne` decoded.
module _ {C : Type 0} (empty : C) (nested : C → Value C) (mongo : Collections (Document C)) where
  open mongo use {Docs, find_one, upsert, update_one}

  pub record Db : Type 0 where
    pub public_timeline : Docs
    pub private_notes : Docs

  abbrev pub is_public : ConversationEvent C → Bool
  is_public ev = is ev.vis_mode "public" && not (denies ev.vis_deny)

  abbrev any_to_map : Value C → C
  any_to_map nil = empty
  any_to_map (text s) = empty
  any_to_map (number n) = empty
  any_to_map (flag b) = empty
  any_to_map (content_of c) = c
  any_to_map (contents_of cs) = empty

  abbrev any_to_slice_map : Value C → List C
  any_to_slice_map nil = []
  any_to_slice_map (text s) = []
  any_to_slice_map (number n) = []
  any_to_slice_map (flag b) = []
  any_to_slice_map (content_of c) = []
  any_to_slice_map (contents_of cs) = cs

  abbrev downgrade : C → C
  downgrade content = content

  abbrev pub own_slot : ConversationEvent C → Slot
  own_slot ev = (ev.tenant_id, ev.conversation_id, ev.seq)

  abbrev pub target_slot : ConversationEvent C → Slot
  target_slot ev = (ev.tenant_id, ev.conversation_id, ev.target_seq)

  abbrev public_document : ConversationEvent C → Document C
  public_document ev = record {
    source_event_id = text ev.event_id;
    sender = text ev.actor_id;
    msg_type = ev.payload_msg_type;
    kind = nil;
    content = content_of (downgrade (any_to_map ev.payload_content));
    attachments = nil;
    vis_mode = nil;
    vis_allow = none;
    vis_deny = none;
    sensitivity = text ev.sensitivity;
    edited = flag false;
    redacted = flag false;
    created_at_ms = number ev.created_at_ms;
  }

  abbrev private_document : ConversationEvent C → Document C
  private_document ev = record {
    source_event_id = text ev.event_id;
    sender = nil;
    msg_type = nil;
    kind = text (kind_from_event ev.event_type);
    content = content_of (any_to_map ev.payload_content);
    attachments = contents_of (any_to_slice_map ev.payload_attachments);
    vis_mode = text ev.vis_mode;
    vis_allow = ev.vis_allow;
    vis_deny = ev.vis_deny;
    sensitivity = text ev.sensitivity;
    edited = flag false;
    redacted = flag false;
    created_at_ms = number ev.created_at_ms;
  }

  unfoldable pub upsert_public : ConversationEvent C → Db → Db
  upsert_public ev db = record db {
    public_timeline = upsert db.public_timeline (own_slot ev) (public_document ev);
  }

  unfoldable pub upsert_private : ConversationEvent C → Db → Db
  upsert_private ev db = record db {
    private_notes = upsert db.private_notes (own_slot ev) (private_document ev);
  }

  abbrev with_edit : C → Document C → Document C
  with_edit content d = record d { content = content_of content; edited = flag true }

  -- `applyEdit` on a collection
  unfoldable pub apply_edit : Slot → C → Docs → Docs
  apply_edit k content d = update_one d k (with_edit content)

  abbrev without_content : Document C → Document C
  without_content d = record d {
    content = content_of empty;
    attachments = contents_of [];
    redacted = flag true;
  }

  -- `applyRedact` on a collection
  unfoldable pub apply_redact : Slot → Docs → Docs
  apply_redact k d = update_one d k without_content

  abbrev as_found : Value C → Value C
  as_found nil = nil
  as_found (text s) = text s
  as_found (number n) = number n
  as_found (flag b) = flag b
  as_found (content_of c) = nested c
  as_found (contents_of cs) = contents_of cs

  abbrev moved_document : Document C → Document C
  moved_document pri = record {
    source_event_id = pri.source_event_id;
    sender = pri.sender;
    msg_type = pri.msg_type;
    kind = nil;
    content = content_of (downgrade (any_to_map (as_found pri.content)));
    attachments = nil;
    vis_mode = nil;
    vis_allow = none;
    vis_deny = none;
    sensitivity = pri.sensitivity;
    edited = pri.edited;
    redacted = pri.redacted;
    created_at_ms = pri.created_at_ms;
  }

  unfoldable pub publish_found : Slot → Option (Document C) → Docs → Docs
  publish_found k none d = d
  publish_found k (some pri) d = upsert d k (moved_document pri)

  unfoldable pub move_private_to_public : ConversationEvent C → Db → Db
  unfolding publish_found
  move_private_to_public ev db =
      let k = target_slot ev in
      record db {
        public_timeline = publish_found k (find_one db.private_notes k) db.public_timeline;
      }

  unfoldable pub project_case : EventCase → ConversationEvent C → Db → Db
  unfolding upsert_public upsert_private apply_edit apply_redact move_private_to_public
  project_case created ev db = if is_public ev then upsert_public ev db else upsert_private ev db
  project_case edited_event ev db =
      let k = target_slot ev in
      let content = any_to_map ev.payload_content in
      record db {
        public_timeline = apply_edit k content db.public_timeline;
        private_notes = apply_edit k content db.private_notes;
      }
  project_case redacted_event ev db =
      let k = target_slot ev in
      record db {
        public_timeline = apply_redact k db.public_timeline;
        private_notes = apply_redact k db.private_notes;
      }
  project_case visibility_changed ev db =
      if is ev.vis_mode "public" then move_private_to_public ev db else db
  project_case other_event ev db = db

  -- The body of the loop of `Run`, for an event that is decoded.
  unfoldable pub project : ConversationEvent C → Db → Db
  unfolding project_case
  project ev db = project_case (case_of ev.event_type) ev db

  unfoldable pub run : List (ConversationEvent C) → Db → Db
  unfolding project
  run [] db = db
  run (ev ∷ evs) db = run evs (project ev db)
