-- ===== src/ChatBox/Projector/Slots.antt =====
-- The collections of the projector, at one slot and at the others.
use ppchat.Prelude.{◌≡◌, ◌≢◌, refl, ap, subst, Option, none, some, str_dec, ℕ_discrete}
use ppchat.ChatBox.Projector.{Slot, Collections, changed}

pub slot_dec : Discrete Slot
slot_dec (t, c, n) (t', c', n') = elim (str_dec t t') [
  | no apart ↦ no (λ same. apart (ap (λ (k : Slot). k.0) same))
  | yes same_t ↦ elim (str_dec c c') [
    | no apart ↦ no (λ same. apart (ap (λ (k : Slot). k.1) same))
    | yes same_c ↦ elim (ℕ_discrete n n') [
      | no apart ↦ no (λ same. apart (ap (λ (k : Slot). k.2) same))
      | yes same_n ↦ yes (λ i. (same_t i, same_c i, same_n i))
    ]
  ]
]

module _ {D : Type 0} (mongo : Collections D) where
  open mongo use {
    Docs, find_one, upsert, update_one, find_one-upsert, find_one-upsert_other, find_one-update_one,
    find_one-update_one_other,
  }

  -- The same documents in the same slots.
  pub Same : Docs → Docs → Type 0
  Same d d' = (k : Slot) → find_one d k ≡ find_one d' k

  pub Same-refl : (d : Docs) → Same d d
  unfolding Same
  Same-refl d k = refl

  pub upsert-absent :
      (d : Docs) (k j : Slot) (v : D)
      → k ≢ j
      → find_one d j ≡ none
      → find_one (upsert d k v) j ≡ none
  upsert-absent d k j v apart absent = rw (find_one-upsert_other d k j v apart) absent

  pub update_one-absent :
      (d : Docs) (k j : Slot) (f : D → D)
      → find_one d j ≡ none
      → find_one (update_one d k f) j ≡ none
  update_one-absent d k j f absent = elim (slot_dec k j) [
    | yes same ↦
        subst (λ j. find_one (update_one d k f) j ≡ none) same
          (rw (find_one-update_one d k f, ap (find_one d) same, absent) refl)
    | no apart ↦ rw (find_one-update_one_other d k j f apart) absent
  ]

  pub upsert_twice : (d : Docs) (k : Slot) (v : D) → Same (upsert (upsert d k v) k v) (upsert d k v)
  unfolding Same
  upsert_twice d k v j = elim (slot_dec k j) [
    | yes same ↦
        subst (λ j. find_one (upsert (upsert d k v) k v) j ≡ find_one (upsert d k v) j) same
          (rw (find_one-upsert (upsert d k v) k v, find_one-upsert d k v) refl)
    | no apart ↦ find_one-upsert_other (upsert d k v) k j v apart
  ]

  changed_twice :
      (f : D → D)
      → ((u : D) → f (f u) ≡ f u)
      → (o : Option D) → changed f (changed f o) ≡ changed f o
  changed_twice f again none = refl
  changed_twice f again (some u) = ap (λ x. some x) (again u)

  pub update_one_twice :
      (d : Docs) (k : Slot) (f : D → D)
      → ((u : D) → f (f u) ≡ f u)
      → Same (update_one (update_one d k f) k f) (update_one d k f)
  unfolding Same
  update_one_twice d k f again j = elim (slot_dec k j) [
    | yes same ↦
        subst (λ j. find_one (update_one (update_one d k f) k f) j ≡ find_one (update_one d k f) j)
          same
          (rw (find_one-update_one (update_one d k f) k f, find_one-update_one d k f)
            (changed_twice f again (find_one d k)))
    | no apart ↦ find_one-update_one_other (update_one d k f) k j f apart
  ]
