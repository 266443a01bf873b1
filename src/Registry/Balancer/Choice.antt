-- ===== src/Registry/Balancer/Choice.antt =====
-- What `Next` returns, whatever the currents are: also where a sum wraps around.
use ppchat.Prelude.{
  ℕ, zero, suc, ◌+◌, ◌<◌, ◌≡◌, ◌≢◌, ◌⊎◌, inl, inr, refl, sym, ap, ◌∙◌, arith, false, not, ◌||◌,
  ◌==◌, Option, none, some, List, [], ◌∷◌, length, get_elem?, set, if◌then◌else◌, ℤ, pos, ◌+ℤ◌,
  ◌-ℤ◌, wrap64, Bool-cases,
}
use ppchat.Registry.Balancer.{
  Instance, SwItem, Swrr, next, beats, visit, visit_each, settle, settle_best,
}
use ppchat.Registry.Balancer.Items.{Each, Each-set, Each-get_elem?}
use ppchat.Registry.Balancer.Round.{Ready, next-cons}

abbrev pub instances : Swrr → List Instance
instances [] = []
instances (it ∷ its) = it.inst ∷ instances its

abbrev visited_best : ℕ → ℤ → Option (ℕ × ℤ) → Option (ℕ × ℤ)
visited_best i c best = if beats c best then some (i, c) else best

-- An item that takes part: its instance and its weight stay, and there is a best item then.
visit-Ready :
    (i : ℕ) (total : ℤ) (best : Option (ℕ × ℤ)) (it : SwItem)
    → Ready it
    → let (it', total', best') = visit i total best it in
      (it'.inst ≡ it.inst)
      × Ready it'
      × (best' ≢ none)
      × ((best' ≡ best) ⊎ ((c : ℤ) × (best' ≡ some (i, c))))
unfolding visit
visit-Ready i total best it ready =
    let runs : (not it.effective || (it.weight == 0)) ≡ false = ground arith in
    let c = wrap64 (it.current +ℤ pos it.weight) in rw runs (refl, ready, any c best, which c best)
  where
    any : (c : ℤ) (best : Option (ℕ × ℤ)) → visited_best i c best ≢ none
    any c none e = absurd cc
    any c (some b) e = elim (Bool-cases (beats c (some b))) [
      | inl yes_beats ↦
          let now : visited_best i c (some b) ≡ some (i, c) = rw yes_beats refl in absurd cc
      | inr no_beats ↦ let now : visited_best i c (some b) ≡ some b = rw no_beats refl in absurd cc
    ]

    which :
        (c : ℤ) (best : Option (ℕ × ℤ))
        → (visited_best i c best ≡ best) ⊎ ((d : ℤ) × (visited_best i c best ≡ some (i, d)))
    which c best = elim (Bool-cases (beats c best)) [
      | inl yes_beats ↦ inr (c, rw yes_beats refl)
      | inr no_beats ↦ inl (rw no_beats refl)
    ]

visit_each-Ready :
    (i : ℕ) (total : ℤ) (best : Option (ℕ × ℤ)) (its : Swrr)
    → Each Ready its
    → let (its', total', best') = visit_each i total best its in
      (instances its' ≡ instances its)
      × Each Ready its'
      × (best ≢ none → best' ≢ none)
      × (0 < length its → best' ≢ none)
      × ((best' ≡ best) ⊎ ((j : ℕ) × (c : ℤ) × (best' ≡ some (i + j, c)) × (j < length its)))
unfolding visit_each
visit_each-Ready i total best [] ready = (refl, tt, λ h. h, λ h. absurd (omega arith), inl refl)
visit_each-Ready i total best (it ∷ its) ready =
    let (same, ready', some_best, place) = visit-Ready i total best it ready.0 in
    let (total1, best1) : ℤ × Option (ℕ × ℤ) =
      ((visit i total best it).1, (visit i total best it).2) in
    let (same_all, ready_all, keeps, any, places) =
      visit_each-Ready (suc i) total1 best1 its ready.1 in
    (
      rw (same, same_all) refl,
      (ready', ready_all),
      λ h. keeps some_best,
      λ h. keeps some_best,
      elim places [
        | inr (j, c, at, in_range) ↦
            let shifted : suc i + j ≡ i + suc j = omega arith in
            inr (suc j, c, at ∙ ap (λ n. some (n, c)) shifted, omega arith)
        | inl kept ↦ elim place [
          | inl old ↦ inl (kept ∙ old)
          | inr (c, new) ↦
              let first : i ≡ i + 0 = omega arith in
              inr (0, c, kept ∙ new ∙ ap (λ n. some (n, c)) first, omega arith)
        ]
      ],
    )

instances-set :
    (its : Swrr) (j : ℕ) (it it' : SwItem)
    → get_elem? its j ≡ some it
    → it'.inst ≡ it.inst
    → instances (set its j it') ≡ instances its
instances-set [] j it it' at same = refl
instances-set (x ∷ its) zero it it' at same = let old : x ≡ it = cc in rw (old, same) refl
instances-set (x ∷ its) (suc j) it it' at same = rw (instances-set its j it it' at same) refl

get_elem?-instances :
    (its : Swrr) (j : ℕ) (it : SwItem)
    → get_elem? its j ≡ some it
    → get_elem? (instances its) j ≡ some it.inst
get_elem?-instances [] j it at = absurd cc
get_elem?-instances (x ∷ its) zero it at = let old : x ≡ it = cc in rw old refl
get_elem?-instances (x ∷ its) (suc j) it at = get_elem?-instances its j it at

get_elem?-some : (its : Swrr) (j : ℕ) → j < length its → (it : SwItem) × (get_elem? its j ≡ some it)
get_elem?-some [] j h = absurd (omega arith)
get_elem?-some (x ∷ its) zero h = (x, refl)
get_elem?-some (x ∷ its) (suc j) h = get_elem?-some its j (omega arith)

length-instances : (its : Swrr) → length (instances its) ≡ length its
length-instances [] = refl
length-instances (x ∷ its) = rw (length-instances its) refl

settled_at :
    (its : Swrr) (j : ℕ) (c total : ℤ) (it : SwItem)
    → get_elem? its j ≡ some it
    → settle_best its total (some (j, c))
      ≡ (set its j (record it { current = wrap64 (it.current -ℤ total) }), some it.inst)
unfolding settle_best settle
settled_at its j c total it at = rw at refl

-- The call returns one of the instances, and the instances stay as they are.
pub next-choice :
    (head : SwItem) (rest : Swrr)
    → Each Ready (head ∷ rest)
    → (its : Swrr) × (inst : Instance) × (j : ℕ) × (next (head ∷ rest) ≡ (its, some inst))
      × (instances its ≡ instances (head ∷ rest))
      × Each Ready its
      × (get_elem? (instances (head ∷ rest)) j ≡ some inst)
next-choice head rest ready =
    let its : Swrr = head ∷ rest in
    let (same, ready', keeps, any, places) = visit_each-Ready 0 (pos 0) none its ready in
    let (items, total, best) = visit_each 0 (pos 0) none its in
    elim places [
      | inl nothing ↦ absurd (any (omega arith) nothing)
      | inr (j, c, at, in_range) ↦
          let size : length items ≡ length its =
            sym (length-instances items)
            ∙ ap (λ (xs : List Instance). length xs) same
            ∙ length-instances its in
          let (it, elem) = get_elem?-some items (0 + j) (omega (arith, size)) in
          let it' = record it { current = wrap64 (it.current -ℤ total) } in
          (
            set items (0 + j) it',
            it.inst,
            0 + j,
            next-cons head rest
                ∙ ap (λ (b : Option (ℕ × ℤ)). settle_best items total b) at
                ∙ settled_at items (0 + j) c total it elem,
            instances-set items (0 + j) it it' elem refl ∙ same,
            Each-set Ready items (0 + j) it' ready'
                (Each-get_elem? Ready items (0 + j) it ready' elem),
            ap (λ (xs : List Instance). get_elem? xs (0 + j)) (sym same)
                ∙ get_elem?-instances items (0 + j) it elem,
          )
    ]
