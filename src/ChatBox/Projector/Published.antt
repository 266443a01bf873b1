-- ===== src/ChatBox/Projector/Published.antt =====
-- Which events put a document into the timeline of the customer.
use ppchat.Prelude.{
  ◌≡◌, ◌≢◌, ◌⊎◌, inl, inr, refl, ap, ltb, length, ℕ, arith, String, true, false, Option, none, some,
  List, [], ◌∷◌, Bool-cases, str_dec,
}
use ppchat.ChatBox.Projector.{
  AclList, denies, ConversationEvent, Document, Value, Slot, Collections, EventCase, created,
  edited_event, redacted_event, visibility_changed, other_event, case_of, is, Db, is_public,
  own_slot, target_slot, upsert_public, upsert_private, apply_edit, apply_redact, publish_found,
  move_private_to_public, project_case, project, run,
}
use ppchat.ChatBox.Projector.Slots.{upsert-absent, update_one-absent}

module _ {C : Type 0} (empty : C) (nested : C → Value C) (mongo : Collections (Document C)) where
  open mongo use {Docs, find_one}

  -- The kinds of events that bring a message or a note.
  abbrev pub IsMessage : String → Type 0
  IsMessage t =
      (t ≡ "CustomerMessageCreated")
      ⊎ ((t ≡ "AgentMessageCreated") ⊎ ((t ≡ "AttachmentAdded") ⊎ (t ≡ "InternalNoteAdded")))

  -- No team, agent or role is denied.
  unfoldable pub NobodyDenied : Option AclList → Type 0
  NobodyDenied none = Unit
  NobodyDenied (some acl) = (acl.teams ≡ []) × (acl.agents ≡ []) × (acl.roles ≡ [])

  -- The event is a message that everybody may see, in this slot, or it makes the one there public.
  abbrev pub Publishes : ConversationEvent C → Slot → Type 0
  Publishes ev (tenant, conversation, n) =
      (ev.vis_mode ≡ "public")
      × (ev.tenant_id ≡ tenant)
      × (ev.conversation_id ≡ conversation)
      × ((IsMessage ev.event_type × NobodyDenied ev.vis_deny × (ev.seq ≡ n))
          ⊎ ((ev.event_type ≡ "VisibilityChanged") × (ev.target_seq ≡ n)))

  -- None of the events does.
  abbrev pub Unpublished : Slot → List (ConversationEvent C) → Type 0
  Unpublished k [] = Unit
  Unpublished k (ev ∷ evs) = (Publishes ev k → ⊥) × Unpublished k evs

  -- What the code tests for, of the kinds of `case_of`.
  unfoldable Puts : EventCase → ConversationEvent C → Slot → Type 0
  Puts created ev k =
      (is_public empty nested mongo ev ≡ true) × (own_slot empty nested mongo ev ≡ k)
  Puts visibility_changed ev k =
      (is ev.vis_mode "public" ≡ true) × (target_slot empty nested mongo ev ≡ k)
  Puts edited_event ev k = ⊥
  Puts redacted_event ev k = ⊥
  Puts other_event ev k = ⊥

  none_listed : (xs : List String) → ltb 0 (length xs) ≡ false → xs ≡ []
  none_listed [] h = refl
  none_listed (x ∷ xs) h = absurd (ground (arith, h))

  listed-NobodyDenied : (deny : Option AclList) → denies deny ≡ false → NobodyDenied deny
  unfolding NobodyDenied
  listed-NobodyDenied none free = tt
  listed-NobodyDenied (some acl) free = (
    none_listed acl.teams (ground (arith, free)),
    none_listed acl.agents (ground (arith, free)),
    none_listed acl.roles (ground (arith, free)),
  )

  abbrev kind : EventCase → ℕ
  kind created = 0
  kind edited_event = 1
  kind redacted_event = 2
  kind visibility_changed = 3
  kind other_event = 4

  case-IsMessage : (t : String) → kind (case_of t) ≡ 0 → IsMessage t
  case-IsMessage t h = elim (str_dec t "CustomerMessageCreated") [
    | yes a ↦ inl a
    | no a ↦ elim (str_dec t "AgentMessageCreated") [
      | yes b ↦ inr (inl b)
      | no b ↦ elim (str_dec t "AttachmentAdded") [
        | yes c ↦ inr (inr (inl c))
        | no c ↦ elim (str_dec t "InternalNoteAdded") [
          | yes d ↦ inr (inr (inr d))
          | no d ↦ absurd (ground (arith, h, a, b, c, d))
        ]
      ]
    ]
  ]

  case-Visibility : (t : String) → kind (case_of t) ≡ 3 → t ≡ "VisibilityChanged"
  case-Visibility t h = elim (str_dec t "VisibilityChanged") [
    | yes e ↦ e
    | no a ↦ absurd (ground (arith, h, a))
  ]

  Puts-Publishes :
      (c : EventCase) (ev : ConversationEvent C) (k : Slot)
      → case_of ev.event_type ≡ c
      → Puts c ev k
      → Publishes ev k
  unfolding Puts
  Puts-Publishes created ev (t, c, n) at (open_event, same) = (
    ground (arith, open_event),
    ap (λ (x : Slot). x.0) same,
    ap (λ (x : Slot). x.1) same,
    inl (
      case-IsMessage ev.event_type (ap kind at),
      listed-NobodyDenied ev.vis_deny (ground (arith, open_event)),
      ap (λ (x : Slot). x.2) same,
    ),
  )
  Puts-Publishes visibility_changed ev (t, c, n) at (open_event, same) = (
    ground (arith, open_event),
    ap (λ (x : Slot). x.0) same,
    ap (λ (x : Slot). x.1) same,
    inr (case-Visibility ev.event_type (ap kind at), ap (λ (x : Slot). x.2) same),
  )
  Puts-Publishes edited_event ev k at h = elim h [ ]
  Puts-Publishes redacted_event ev k at h = elim h [ ]
  Puts-Publishes other_event ev k at h = elim h [ ]

  publish_found-absent :
      (k j : Slot) (o : Option (Document C)) (d : Docs)
      → k ≢ j
      → find_one d j ≡ none
      → find_one (publish_found empty nested mongo k o d) j ≡ none
  unfolding publish_found
  publish_found-absent k j none d apart absent = absent
  publish_found-absent k j (some pri) d apart absent = upsert-absent mongo d k j _ apart absent

  project_case-absent :
      (c : EventCase) (ev : ConversationEvent C) (k : Slot) (db : Db empty nested mongo)
      → (Puts c ev k → ⊥)
      → find_one db.public_timeline k ≡ none
      → find_one (project_case empty nested mongo c ev db).public_timeline k ≡ none
  unfolding project_case upsert_public upsert_private apply_edit apply_redact move_private_to_public
      Puts
  project_case-absent created ev k db hidden absent =
      elim (Bool-cases (is_public empty nested mongo ev)) [
        | inl open_event ↦ rw open_event (
            upsert-absent mongo db.public_timeline (own_slot empty nested mongo ev) k _
              (λ same. hidden (open_event, same)) absent)
        | inr closed ↦ rw closed absent
      ]
  project_case-absent edited_event ev k db hidden absent =
      update_one-absent mongo db.public_timeline _ k _ absent
  project_case-absent redacted_event ev k db hidden absent =
      update_one-absent mongo db.public_timeline _ k _ absent
  project_case-absent visibility_changed ev k db hidden absent =
      elim (Bool-cases (is ev.vis_mode "public")) [
        | inl open_event ↦ rw open_event (
            publish_found-absent (target_slot empty nested mongo ev) k _ db.public_timeline
              (λ same. hidden (open_event, same)) absent)
        | inr closed ↦ rw closed absent
      ]
  project_case-absent other_event ev k db hidden absent = absent

  -- A slot of the timeline that the customer sees stays empty in any sequence of events of which none
  -- publishes it: none is a new message or note, with the mode public and without a team, an agent or
  -- a role that is denied, whose tenant, conversation and number are the slot, and none changes the
  -- visibility of the slot to public.
  pub run-Unpublished :
      (k : Slot) (evs : List (ConversationEvent C)) (db : Db empty nested mongo)
      → Unpublished k evs
      → find_one db.public_timeline k ≡ none
      → find_one (run empty nested mongo evs db).public_timeline k ≡ none
  unfolding run project
  run-Unpublished k [] db hidden absent = absent
  run-Unpublished k (ev ∷ evs) db hidden absent =
      run-Unpublished k evs (project empty nested mongo ev db) hidden.1 (
        project_case-absent (case_of ev.event_type) ev k db
          (λ puts. hidden.0 (Puts-Publishes (case_of ev.event_type) ev k refl puts)) absent)
