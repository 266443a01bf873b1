-- ===== src/Ids/Unique.antt =====
-- The ids of one generator increase, those of two nodes differ, and `next` returns.
use mathlib.Core.List.{Memᴰ}
use ppchat.Prelude.{
  ℕ, zero, suc, ◌+◌, ◌%◌, ◌^◌, ◌≤◌, ◌<◌, ◌≡◌, ◌≢◌, inl, inr, refl, arith, Option, none, some, List,
  [], ◌∷◌, ltb, leb, ◌==◌, Option-cases, if_elim, subst,
}
use ppchat.Ids.{Time, Generator, id_of, wait_past, stamp_waited, next_same, next, take_ids}
use ppchat.Ids.Order.{IsFit, InEra, IsNext, Ends, next-Ends, id_of-parts}

abbrev pub IsAbove : ℕ → List ℕ → Type 0
IsAbove x [] = Unit
IsAbove x (y ∷ ys) = (x < y) × IsAbove y ys

-- Each is larger than the one before.
abbrev pub IsIncreasing : List ℕ → Type 0
IsIncreasing [] = Unit
IsIncreasing (x ∷ xs) = IsAbove x xs

-- The last time of the generator is in its era.
abbrev IsStamped : Generator → Type 0
IsStamped g = (g.epoch_ms ≤ g.last_ts_ms) × (g.last_ts_ms < g.epoch_ms + 2 ^ 41)

-- The fields in the order of their weight.
id_of-lt : (g g' : Generator) → IsFit g → IsStamped g → IsNext g g' → id_of g < id_of g'
id_of-lt g g' fit stamped n =
    let parts = id_of-parts g fit stamped.0 stamped.1 in
    let parts' = id_of-parts g' n.fit n.from n.until in
    let node = n.same_node in
    let epoch = n.same_epoch in
    elim n.later [
      | inl after ↦ omega (arith, parts, parts', node, epoch, after, fit, n.fit, stamped)
      | inr same ↦ omega (arith, parts, parts', node, epoch, same, fit, n.fit, stamped)
    ]

take_ids-IsAbove :
    (n : ℕ) (g : Generator) (clock : List Time)
    → IsFit g
    → IsStamped g
    → InEra g.epoch_ms clock
    → IsAbove (id_of g) (take_ids n g clock)
unfolding take_ids
take_ids-IsAbove zero g clock fit stamped era = tt
take_ids-IsAbove (suc n) g clock fit stamped era = elim (Option-cases (next g clock)) [
  | inl out ↦ rw (out, IsAbove) tt
  | inr ((g', id, rest), out) ↦
      let ends : Ends g (some (g', id, rest)) = subst (Ends g) out (next-Ends g clock fit era) in
      let (step, made, era') = ends in
      rw (out, IsAbove, made)
        (
          id_of-lt g g' fit stamped step,
          take_ids-IsAbove n g' rest step.fit (step.from, step.until) (rw step.same_epoch era'),
        )
]

-- The ids that a generator gives in turn, of a node below 1024, increase strictly, while the clock shows
-- times in the 2 ^ 41 milliseconds from the epoch on, also where it stands still or goes back.
pub take_ids-IsIncreasing :
    (n : ℕ) (g : Generator) (clock : List Time)
    → IsFit g
    → InEra g.epoch_ms clock
    → IsIncreasing (take_ids n g clock)
unfolding take_ids
take_ids-IsIncreasing zero g clock fit era = tt
take_ids-IsIncreasing (suc n) g clock fit era = elim (Option-cases (next g clock)) [
  | inl out ↦ rw (out, IsIncreasing) tt
  | inr ((g', id, rest), out) ↦
      let ends : Ends g (some (g', id, rest)) = subst (Ends g) out (next-Ends g clock fit era) in
      let (step, made, era') = ends in
      rw (out, IsIncreasing, made)
        (take_ids-IsAbove n g' rest step.fit (step.from, step.until) (rw step.same_epoch era'))
]

-- Two generators of different nodes below 1024, whatever they did before and whatever their clocks show
-- in their eras, never give the same id.
pub next_apart :
    (g h g' h' : Generator) (clock clock' rest rest' : List Time) (id id' : ℕ)
    → IsFit g
    → IsFit h
    → g.node_id ≢ h.node_id
    → InEra g.epoch_ms clock
    → InEra h.epoch_ms clock'
    → next g clock ≡ some (g', id, rest)
    → next h clock' ≡ some (h', id', rest')
    → id ≢ id'
next_apart g h g' h' clock clock' rest rest' id id' fit fit' apart era era' out out' same =
    let (step, made, _) : Ends g (some (g', id, rest)) =
      subst (Ends g) out (next-Ends g clock fit era) in
    let (step', made', _) : Ends h (some (h', id', rest')) =
      subst (Ends h) out' (next-Ends h clock' fit' era') in
    let parts = id_of-parts g' step.fit step.from step.until in
    let parts' = id_of-parts h' step'.fit step'.from step'.until in
    apart (
      omega (
        arith, same, made, made', parts, parts', step.same_node, step'.same_node, step.fit,
        step'.fit,
      ))

wait_past-returns :
    (last t : Time) (clock : List Time) → Memᴰ t clock → last < t → wait_past last clock ≢ none
unfolding wait_past
wait_past-returns last t [] h past = elim h [ ]
wait_past-returns last t (now ∷ clock) (Memᴰ.head e) past =
    if_elim (λ r. r ≢ none) (leb now last) (λ early. absurd (ground (arith, early, e, past)))
      (λ _ e'. cc)
wait_past-returns last t (now ∷ clock) (Memᴰ.tail h) past =
    if_elim (λ r. r ≢ none) (leb now last) (λ _. wait_past-returns last t clock h past) (λ _ e'. cc)

stamp_waited-returns :
    (g : Generator) (r : Option (Time × List Time)) → r ≢ none → stamp_waited g r ≢ none
unfolding stamp_waited
stamp_waited-returns g none some_r e = some_r refl
stamp_waited-returns g (some r) some_r e = cc

abbrev Returns : Option (Generator × ℕ × List Time) → Type 0
Returns r = r ≢ none

-- Once the clock shows a time after the last stamp, `next` has returned an id, whatever the clock showed
-- before.
pub next_returns :
    (g : Generator) (t : Time) (clock : List Time)
    → Memᴰ t clock
    → g.last_ts_ms < t
    → next g clock ≢ none
unfolding next
next_returns g t [] h past = elim h [ ]
next_returns g t (now ∷ clock) (Memᴰ.head e) past =
    if_elim Returns (ltb now g.last_ts_ms) (λ back. absurd (ground (arith, back, e, past)))
      λ _.
        if_elim Returns (now == g.last_ts_ms) (λ same. absurd (ground (arith, same, e, past)))
          λ _ e'. cc
next_returns g t (now ∷ clock) (Memᴰ.tail h) past =
    if_elim Returns (ltb now g.last_ts_ms) (λ _. next_returns g t clock h past)
      λ _.
        if_elim Returns (now == g.last_ts_ms)
          (λ _.
            unfold next_same in
            if_elim Returns ((g.seq + 1) % 4096 == 0)
              (λ _. stamp_waited-returns _ _ (wait_past-returns g.last_ts_ms t clock h past))
              (λ _ e'. cc))
          (λ _ e'. cc)
