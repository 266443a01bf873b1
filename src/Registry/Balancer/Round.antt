-- ===== src/Registry/Balancer/Round.antt =====
-- One call of `Next`, where no sum leaves the 64 bits.
use ppchat.Prelude.{
  ℕ, suc, ◌+◌, ◌<◌, ◌≡◌, ◌⊎◌, inl, inr, refl, sym, ap, subst, ◌∙◌, arith, Bool, true, false, not,
  ◌||◌, ◌==◌, Option, none, some, [], ◌∷◌, map, get_elem?, set, if◌then◌else◌, ℤ, pos, pos_part,
  neg_part, ◌+ℤ◌, ◌-ℤ◌, ◌≤ℤ◌, int_laws, Bool-cases, +ℤ_parts, +ℤ_le, -ℤ_le, wrap64, dec_le,
  wrap64_of-lt, pos-add, neg_part_of-lt, ◌<ℤ◌,
}
use ppchat.Registry.Balancer.{
  Instance, SwItem, Swrr, beats, visit, visit_each, settle, settle_best, next,
}
use ppchat.Registry.Balancer.Items.{
  sum_weight, sum_current, every, total_weight, Each, Each-map, Each-get_elem?, sum_current-le,
}

abbrev pub Ready : SwItem → Type 0
Ready it = (it.effective ≡ true) × (0 < it.weight)

abbrev pub grown : SwItem → SwItem
grown it = record it { current = it.current +ℤ pos it.weight }

abbrev pub grow : Swrr → Swrr
grow its = map grown its

abbrev pub Roomy : SwItem → Type 0
Roomy it =
    (pos_part it.current + it.weight < 9223372036854775808)
    × (neg_part it.current < 9223372036854775808)

abbrev AtLeast : Option (ℕ × ℤ) → ℤ → Type 0
AtLeast none c = ⊥
AtLeast (some (i, d)) c = c ≤ℤ d

abbrev improved : ℕ → ℤ → Option (ℕ × ℤ) → Option (ℕ × ℤ)
improved i c best = if beats c best then some (i, c) else best

improved-AtLeast :
    (i : ℕ) (c d : ℤ) (best : Option (ℕ × ℤ)) → AtLeast best d → AtLeast (improved i c best) d
improved-AtLeast i c d none h = absurd h
improved-AtLeast i c d (some (j, e)) h = ground arith

improved-own : (i : ℕ) (c : ℤ) (best : Option (ℕ × ℤ)) → AtLeast (improved i c best) c
improved-own i c none = omega arith
improved-own i c (some (j, e)) = ground arith

visit_lem :
    (i T : ℕ) (best : Option (ℕ × ℤ)) (it : SwItem)
    → Ready it
    → Roomy it
    → T + it.weight < 9223372036854775808
    → visit i (pos T) best it ≡ (grown it, pos (T + it.weight), improved i (grown it).current best)
unfolding visit
visit_lem i T best it ready roomy fits =
    let runs : (not it.effective || (it.weight == 0)) ≡ false = ground arith in
    let sum = it.current +ℤ pos it.weight in
    let sum_fits : wrap64 sum ≡ sum =
      wrap64_of-lt sum (omega (arith, +ℤ_le it.current (pos it.weight)))
        (omega (arith, +ℤ_le it.current (pos it.weight))) in
    let total : wrap64 (pos T +ℤ pos it.weight) ≡ pos (T + it.weight) =
      rw (pos-add T it.weight) (wrap64_of-lt (pos (T + it.weight)) fits (omega arith)) in
    rw (runs, sum_fits, total) refl

-- Where the loop leaves `best`: as it was, or at one of the items.
Found : ℕ → Option (ℕ × ℤ) → Option (ℕ × ℤ) → Swrr → Type 0
Found i best best' its =
    (best' ≡ best)
    ⊎ ((j : ℕ) × (it : SwItem) × (best' ≡ some (i + j, it.current)) × (get_elem? its j ≡ some it))

improved-Found :
    (i : ℕ) (best best' : Option (ℕ × ℤ)) (it : SwItem) (its : Swrr)
    → Found (suc i) (improved i it.current best) best' its
    → Found i best best' (it ∷ its)
unfolding Found
improved-Found i best best' it its (inr (j, x, at, found)) =
    let shifted : suc i + j ≡ i + suc j = omega arith in inr (suc j, x, rw (sym shifted) at, found)
improved-Found i best best' it its (inl same) = elim (Bool-cases (beats it.current best)) [
  | inl beaten ↦
      let first : i + 0 ≡ i = omega arith in
      let new : improved i it.current best ≡ some (i, it.current) = rw beaten refl in
      inr (0, it, rw first (same ∙ new), refl)
  | inr kept ↦ let old : improved i it.current best ≡ best = rw kept refl in inl (same ∙ old)
]

-- What the loop over the items returns.
abbrev Loop : ℕ → ℕ → Option (ℕ × ℤ) → Swrr → Swrr × ℤ × Option (ℕ × ℤ) → Type 0
Loop i T best its (its', total, best') =
    (its' ≡ grow its)
    × (total ≡ pos (T + total_weight its))
    × Each (λ it. AtLeast best' it.current) (grow its)
    × ((c : ℤ) → AtLeast best c → AtLeast best' c)
    × Found i best best' (grow its)

visit_each-cons :
    (i T : ℕ) (best : Option (ℕ × ℤ)) (it : SwItem) (its : Swrr)
    → Ready it
    → Roomy it
    → T + it.weight < 9223372036854775808
    → visit_each i (pos T) best (it ∷ its) ≡ (
        let (its', total, best') =
          visit_each (suc i) (pos (T + it.weight)) (improved i (grown it).current best) its in
        (grown it ∷ its', total, best'))
unfolding visit_each
visit_each-cons i T best it its ready roomy fits = rw (visit_lem i T best it ready roomy fits) refl

visit_each_lem :
    (i T : ℕ) (best : Option (ℕ × ℤ)) (its : Swrr)
    → Each Ready its
    → Each Roomy its
    → T + total_weight its < 9223372036854775808
    → Loop i T best its (visit_each i (pos T) best its)
unfolding visit_each Found
visit_each_lem i T best [] ready roomy fits =
    let whole : T ≡ T + 0 = omega arith in (refl, ap (λ n. pos n) whole, tt, λ c h. h, inl refl)
visit_each_lem i T best (it ∷ its) ready roomy fits =
    let best1 = improved i (grown it).current best in
    let (same, total, most, keeps, found) =
      visit_each_lem (suc i) (T + it.weight) best1 its ready.1 roomy.1 (omega arith) in
    let best' = (visit_each (suc i) (pos (T + it.weight)) best1 its).2 in
    let sum : T + it.weight + total_weight its ≡ T + (it.weight + total_weight its) = omega arith in
    subst (Loop i T best (it ∷ its))
      (sym (visit_each-cons i T best it its ready.0 roomy.0 (omega arith)))
      (
        ap (λ (xs : Swrr). grown it ∷ xs) same,
        total ∙ ap (λ n. pos n) sum,
        (keeps (grown it).current (improved-own i (grown it).current best), most),
        λ c h. keeps c (improved-AtLeast i (grown it).current c best h),
        improved-Found i best best' (grown it) (grow its) found,
      )

pub Each-grow :
    (P : SwItem → Type 0) (its : Swrr) → Each (λ it. P (grown it)) its → Each P (grow its)
Each-grow P [] h = tt
Each-grow P (it ∷ its) h = (h.0, Each-grow P its h.1)

sum_grown : (c d : ℤ) (w v : ℕ) → c +ℤ pos w +ℤ (d +ℤ pos v) ≡ c +ℤ d +ℤ pos (w + v)
sum_grown c d w v = omega int_laws

pub sum_current-grow :
    (p : Instance → Bool) (its : Swrr)
    → sum_current p (grow its) ≡ sum_current p its +ℤ pos (sum_weight p its)
sum_current-grow p [] = sym (pos-add 0 0)
sum_current-grow p (it ∷ its) = elim (Bool-cases (p it.inst)) [
  | inl here ↦
      rw (here, sum_current-grow p its)
        (sum_grown it.current (sum_current p its) it.weight (sum_weight p its))
  | inr away ↦ rw (away) (sum_current-grow p its)
]

abbrev pub settled : ℕ → SwItem → SwItem
settled W it = record it { current = it.current -ℤ pos W }

-- The position of the item that is chosen, and the item as the loop left it.
unfoldable pub Chosen : Swrr → ℕ → SwItem → Type 0
Chosen its j it =
    (get_elem? (grow its) j ≡ some it)
    × (pos 0 <ℤ it.current)
    × (next its ≡ (set (grow its) j (settled (total_weight its) it), some it.inst))

settle_lem :
    (its : Swrr) (j W : ℕ) (it : SwItem)
    → get_elem? its j ≡ some it
    → pos 0 <ℤ it.current
    → pos_part it.current < 9223372036854775808
    → W < 9223372036854775808
    → settle_best its (pos W) (some (j, it.current)) ≡ (set its j (settled W it), some it.inst)
unfolding settle_best settle
settle_lem its j W it at above fits fits' =
    let less = it.current -ℤ pos W in
    let none_below = neg_part_of-lt it.current above in
    let same : wrap64 less ≡ less =
      wrap64_of-lt less (omega (arith, -ℤ_le it.current (pos W)))
        (omega (arith, none_below, -ℤ_le it.current (pos W))) in
    rw (at, same) refl

above_zero :
    (its : Swrr) (it : SwItem)
    → 0 < total_weight its
    → sum_current every its ≡ pos 0
    → Each (λ x. x.current ≤ℤ it.current) (grow its)
    → pos 0 <ℤ it.current
above_zero its it positive zero_sum most =
    elim (dec_le (pos_part it.current) (neg_part it.current)) [
      | no above ↦ omega arith
      | yes below ↦
          let grew : sum_current every (grow its) ≡ pos 0 +ℤ pos (total_weight its) =
            sum_current-grow every its ∙ ap (λ c. c +ℤ pos (total_weight its)) zero_sum in
          let sum = sum_current-le it.current (grow its) most (omega arith) in
          absurd (
            omega (
              arith,
              sum,
              ap (λ c. pos_part c) grew,
              ap (λ c. neg_part c) grew,
              positive,
              +ℤ_parts (pos 0) (pos (total_weight its)),
            ))
    ]

pub next-cons :
    (head : SwItem) (rest : Swrr)
    → next (head ∷ rest) ≡ (
        let (items, total, best) = visit_each 0 (pos 0) none (head ∷ rest) in
        settle_best items total best)
unfolding next
next-cons head rest = refl

pub next_lem :
    (head : SwItem) (rest : Swrr)
    → let its = head ∷ rest in
      Each Ready its
      → Each Roomy its
      → total_weight its < 9223372036854775808
      → sum_current every its ≡ pos 0
      → (j : ℕ) × (it : SwItem) × Chosen its j it
unfolding Chosen Found
next_lem head rest ready roomy fits zero_sum =
    let its = head ∷ rest in
    let W = total_weight its in
    let (same, total, most, keeps, found) = visit_each_lem 0 0 none its ready roomy (omega arith) in
    elim found [
      | inl nothing ↦
          absurd (subst (λ (b : Option (ℕ × ℤ)). AtLeast b (grown head).current) nothing most.0)
      | inr (j, it, at, elem) ↦
          let from_0 : 0 + j ≡ j = omega arith in
          let from_0' : 0 + W ≡ W = omega arith in
          let at' = at ∙ ap (λ n. some (n, it.current)) from_0 in
          let total' = total ∙ ap (λ n. pos n) from_0' in
          let most' =
            subst (λ (b : Option (ℕ × ℤ)). Each (λ x. AtLeast b x.current) (grow its)) at' most in
          let above = above_zero its it (omega (arith, ready.0.1)) zero_sum most' in
          let fits_all =
            Each-grow (λ x. pos_part x.current < 9223372036854775808) its
              (Each-map _ _ (λ x h. omega (arith, h.0, +ℤ_le x.current (pos x.weight))) its
                roomy) in
          let fits_it = Each-get_elem? _ (grow its) j it fits_all elem in
          (
            j,
            it,
            (
              elem,
              above,
              rw (next-cons head rest, same, total', at')
                  (settle_lem (grow its) j W it elem above fits_it fits),
            ),
          )
    ]
