-- ===== src/ChatBox/Projector/Redelivered.antt =====
-- An event that the change stream delivers a second time.
use ppchat.Prelude.{refl, Option, none, some, Bool-cases, inl, inr}
use ppchat.ChatBox.Projector.{
  ConversationEvent, Document, Value, Slot, Collections, EventCase, created, edited_event,
  redacted_event, visibility_changed, other_event, case_of, is, Db, is_public, target_slot,
  upsert_public, upsert_private, apply_edit, apply_redact, publish_found, move_private_to_public,
  project_case, project,
}
use ppchat.ChatBox.Projector.Slots.{Same, Same-refl, upsert_twice, update_one_twice}

module _ {C : Type 0} (empty : C) (nested : C → Value C) (mongo : Collections (Document C)) where
  open mongo use {Docs, find_one}

  abbrev pub SameDb : Db empty nested mongo → Db empty nested mongo → Type 0
  SameDb db db' =
      Same mongo db.public_timeline db'.public_timeline
      × Same mongo db.private_notes db'.private_notes

  publish_found_twice :
      (k : Slot) (o : Option (Document C)) (d : Docs)
      → let once = publish_found empty nested mongo k o d in
        Same mongo (publish_found empty nested mongo k o once) once
  unfolding publish_found
  publish_found_twice k none d = Same-refl mongo d
  publish_found_twice k (some pri) d = upsert_twice mongo d k _

  project_case_twice :
      (c : EventCase) (ev : ConversationEvent C) (db : Db empty nested mongo)
      → let once = project_case empty nested mongo c ev db in
        SameDb (project_case empty nested mongo c ev once) once
  unfolding project_case upsert_public upsert_private apply_edit apply_redact move_private_to_public
  project_case_twice created ev db = elim (Bool-cases (is_public empty nested mongo ev)) [
    | inl open_event ↦
        rw open_event (upsert_twice mongo db.public_timeline _ _, Same-refl mongo db.private_notes)
    | inr closed ↦
        rw closed (Same-refl mongo db.public_timeline, upsert_twice mongo db.private_notes _ _)
  ]
  project_case_twice edited_event ev db = (
    update_one_twice mongo db.public_timeline _ _ (λ u. refl),
    update_one_twice mongo db.private_notes _ _ (λ u. refl),
  )
  project_case_twice redacted_event ev db = (
    update_one_twice mongo db.public_timeline _ _ (λ u. refl),
    update_one_twice mongo db.private_notes _ _ (λ u. refl),
  )
  project_case_twice visibility_changed ev db = elim (Bool-cases (is ev.vis_mode "public")) [
    | inl open_event ↦ rw open_event (
      publish_found_twice (target_slot empty nested mongo ev)
          (find_one db.private_notes (target_slot empty nested mongo ev)) db.public_timeline,
      Same-refl mongo db.private_notes,
    )
    | inr closed ↦ rw closed (Same-refl mongo db.public_timeline, Same-refl mongo db.private_notes)
  ]
  project_case_twice other_event ev db =
      (Same-refl mongo db.public_timeline, Same-refl mongo db.private_notes)

  -- An event that is projected again, right after it was, changes no document of either collection.
  pub project_twice :
      (ev : ConversationEvent C) (db : Db empty nested mongo)
      → let once = project empty nested mongo ev db in
        SameDb (project empty nested mongo ev once) once
  unfolding project
  project_twice ev db = project_case_twice (case_of ev.event_type) ev db
