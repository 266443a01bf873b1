-- ===== src/ChatBox/Projector/Tests.antt =====
-- Runs of the projector on collections that are functions of their slots.
use ppchat.Prelude.{
  str-ne, inl, inr, ℕ, ◌≡◌, refl, ite, if_pos, if_neg, Option, none, some, [], ◌∷◌,
}
use ppchat.ChatBox.Projector.{
  ConversationEvent, Document, Value, nil, text, content_of, Slot, Collections, or_new, changed, Db,
  project, run,
}
use ppchat.ChatBox.Projector.Slots.{slot_dec}
use ppchat.ChatBox.Projector.Published.{NobodyDenied, Publishes, run-Unpublished}
use ppchat.ChatBox.Projector.Redelivered.{SameDb, project_twice}

abbrev put {ℓ} : {D : Type ℓ} → (Slot → Option D) → Slot → Option D → Slot → Option D
put d k o j = ite (slot_dec k j) o (d j)

-- The contents are numbers.
abbrev mongo : Collections (Document ℕ)
mongo = record {
  Docs = Slot → Option (Document ℕ);
  find_one = λ d k. d k;
  upsert = λ d k v. put d k (some (or_new (d k) v));
  update_one = λ d k f. put d k (changed f (d k));
  find_one-upsert = λ d k v. if_pos (slot_dec k k) refl _ _;
  find_one-upsert_other = λ d k j v apart. if_neg (slot_dec k j) apart _ _;
  find_one-update_one = λ d k f. if_pos (slot_dec k k) refl _ _;
  find_one-update_one_other = λ d k j f apart. if_neg (slot_dec k j) apart _ _;
}

abbrev nested : ℕ → Value ℕ
nested c = nil

abbrev nothing : Db 0 nested mongo
nothing = record { public_timeline = λ k. none; private_notes = λ k. none }

abbrev note : ConversationEvent ℕ
note = record {
  tenant_id = "t";
  conversation_id = "c";
  seq = 4;
  event_id = "e4";
  event_type = "InternalNoteAdded";
  actor_id = "agent_1";
  payload_msg_type = text "text";
  payload_content = content_of 7;
  payload_attachments = nil;
  vis_mode = "team_only";
  vis_allow = none;
  vis_deny = none;
  sensitivity = "none";
  created_at_ms = 100;
  target_seq = 0;
}

abbrev slot : Slot
slot = ("t", "c", 4)

-- A public message that a team may not see.
abbrev denied : ConversationEvent ℕ
denied = record note {
  event_type = "AgentMessageCreated";
  vis_mode = "public";
  vis_deny = some (record { teams = "t1" ∷ []; agents = []; roles = []; tags = [] });
}

denied_hidden : Publishes 0 nested mongo denied slot → ⊥
unfolding NobodyDenied
denied_hidden (mode, t, c, inl (m, (no_teams, _, _), n)) = absurd cc
denied_hidden (mode, t, c, inr (changed_, n)) =
    str-ne "AgentMessageCreated" "VisibilityChanged" refl changed_

run-Unpublished_example :
    mongo.find_one (run 0 nested mongo (note ∷ denied ∷ []) nothing).public_timeline slot ≡ none
run-Unpublished_example =
    run-Unpublished 0 nested mongo slot (note ∷ denied ∷ []) nothing
      ((λ p. str-ne "team_only" "public" refl p.0), (denied_hidden, tt)) refl

project_twice_example :
    let once = project 0 nested mongo note nothing in
    SameDb 0 nested mongo (project 0 nested mongo note once) once
project_twice_example = project_twice 0 nested mongo note nothing
