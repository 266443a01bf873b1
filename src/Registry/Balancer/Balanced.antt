-- ===== src/Registry/Balancer/Balanced.antt =====
-- The state of a balancer between two calls of `Next`.
use ppchat.Prelude.{
  ℕ, zero, suc, ◌+◌, ◌*◌, ◌≤◌, ◌<◌, ◌≡◌, inl, inr, refl, sym, ap, subst, ◌∙◌, arith, Bool, some, [],
  ◌∷◌, map, length, get_elem?, set, if◌then◌else◌, ℤ, pos, pos_part, neg_part, ◌+ℤ◌, ◌-ℤ◌, ◌<ℤ◌,
  int_laws, eq_of_parts, Bool-cases, +ℤ_parts, -ℤ_parts, +ℤ_le, neg_part_of-lt,
}
use ppchat.Registry.Balancer.{Instance, SwItem, Swrr, next}
use ppchat.Registry.Balancer.Items.{
  sum_weight, sum_current, every, total_weight, Each, Each-map, Each-both, Each-get_elem?, Each-set,
  sum_current-set, sum_current-set_other, bounded,
}
use ppchat.Registry.Balancer.Round.{
  Ready, Roomy, grow, settled, Chosen, next_lem, sum_current-grow, Each-grow,
}

abbrev pub blank : SwItem → SwItem
blank it = record it { current = pos 0 }

-- The items as `Update` leaves them.
abbrev pub reset : Swrr → Swrr
reset its = map blank its

reset-grow : (its : Swrr) → reset (grow its) ≡ reset its
reset-grow [] = refl
reset-grow (it ∷ its) = ap (λ (xs : Swrr). blank it ∷ xs) (reset-grow its)

reset-set :
    (its : Swrr) (j : ℕ) (it it' : SwItem)
    → get_elem? its j ≡ some it
    → blank it' ≡ blank it
    → reset (set its j it') ≡ reset its
reset-set [] j it it' at same = refl
reset-set (x ∷ its) zero it it' at same =
    let old : x ≡ it = cc in ap (λ y. y ∷ reset its) (same ∙ ap blank (sym old))
reset-set (x ∷ its) (suc j) it it' at same =
    ap (λ (xs : Swrr). blank x ∷ xs) (reset-set its j it it' at same)

sum_weight-reset : (p : Instance → Bool) (its : Swrr) → sum_weight p (reset its) ≡ sum_weight p its
sum_weight-reset p [] = refl
sum_weight-reset p (it ∷ its) = rw (sum_weight-reset p its) refl

length-reset : (its : Swrr) → length (reset its) ≡ length its
length-reset [] = refl
length-reset (it ∷ its) = rw (length-reset its) refl

Each-reset : (its its' : Swrr) → reset its ≡ reset its' → Each Ready its → Each Ready its'
Each-reset its its' same h = from its' (subst (Each Ready) same (into its h))
  where
    into : (xs : Swrr) → Each Ready xs → Each Ready (reset xs)
    into [] h = tt
    into (x ∷ xs) h = (h.0, into xs h.1)

    from : (xs : Swrr) → Each Ready (reset xs) → Each Ready xs
    from [] h = tt
    from (x ∷ xs) h = (h.0, from xs h.1)

pub same_weight :
    (p : Instance → Bool) (a b : Swrr) → reset a ≡ reset b → sum_weight p a ≡ sum_weight p b
same_weight p a b same =
    sym (sum_weight-reset p a) ∙ ap (λ (xs : Swrr). sum_weight p xs) same ∙ sum_weight-reset p b

pub same_length : (a b : Swrr) → reset a ≡ reset b → length a ≡ length b
same_length a b same = sym (length-reset a) ∙ ap (λ (xs : Swrr). length xs) same ∙ length-reset b

-- The state between two calls: the weights are positive and sum up to `W`, the currents sum up to 0,
-- each is above -W, and no sum leaves the 64 bits.
pub record Balanced (W : ℕ) (its : Swrr) : Type 0 where
  pub ready : Each Ready its
  pub total : total_weight its ≡ W
  pub zero_sum : sum_current every its ≡ pos 0
  pub above : Each (λ it. neg_part it.current < W) its
  pub fits : suc (length its) * W < 9223372036854775808

weight-le : (W : ℕ) (its : Swrr) → total_weight its ≤ W → Each (λ it. it.weight ≤ W) its
weight-le W [] h = tt
weight-le W (it ∷ its) h = (omega arith, weight-le W its (omega arith))

Balanced-Roomy : (W : ℕ) (its : Swrr) → Balanced W its → Each Roomy its
Balanced-Roomy W its b =
    let n = length its in
    let small =
      bounded W (n * W) its b.above
        (omega (arith, ap (λ c. pos_part c) b.zero_sum, ap (λ c. neg_part c) b.zero_sum)) in
    let light = weight-le W its (omega (arith, b.total)) in
    let wide : suc n * W ≡ n * W + W = omega arith in
    Each-map _ _
      (λ it h. (omega (arith, h.0.0, h.0.1, b.fits, wide), omega (arith, h.1, b.fits, wide))) its
      (Each-both _ _ its (Each-both _ _ its small light) b.above)

-- How far the current is from `k` times the weight, in units of `W`.
abbrev pub Residue : ℕ → ℕ → SwItem → Type 0
Residue W k it = (n : ℕ) × (pos_part it.current + W * n ≡ neg_part it.current + k * it.weight)

Residue-step :
    (W k : ℕ) (c : ℤ) (w n : ℕ)
    → pos_part c + W * n ≡ neg_part c + k * w
    → pos_part (c +ℤ pos w) + W * n ≡ neg_part (c +ℤ pos w) + suc k * w
Residue-step W k c w n h = omega (arith, +ℤ_parts c (pos w))

Residue-settled :
    (W k : ℕ) (c : ℤ) (w n : ℕ)
    → pos_part c + W * n ≡ neg_part c + k * w
    → pos_part (c -ℤ pos W) + W * suc n ≡ neg_part (c -ℤ pos W) + k * w
Residue-settled W k c w n h = omega (arith, -ℤ_parts c (pos W))

-- A current above 0 stays above -W when W is taken from it.
above-settled : (W : ℕ) (c : ℤ) → pos 0 <ℤ c → 0 < W → neg_part (c -ℤ pos W) < W
unfolding ◌-ℤ◌
above-settled W c h positive = ground (arith, neg_part_of-lt c h)

above-grown : (W : ℕ) (c : ℤ) (w : ℕ) → neg_part c < W → neg_part (c +ℤ pos w) < W
above-grown W c w h = omega (arith, +ℤ_le c (pos w))

abbrev pub taken : Bool → ℕ → ℕ
taken b W = if b then W else 0

-- What a call of `Next` does to such a state, when it returns `inst`.
pub record Round (W : ℕ) (its its' : Swrr) (inst : Instance) : Type 0 where
  pub after : Balanced W its'
  pub kept : reset its' ≡ reset its
  pub sums :
      (p : Instance → Bool)
      → sum_current p its' +ℤ pos (taken (p inst) W) ≡ sum_current p its +ℤ pos (sum_weight p its)
  pub residues : (k : ℕ) → Each (Residue W k) its → Each (Residue W (suc k)) its'

restore : (a b c : ℤ) (W : ℕ) → a +ℤ b ≡ a -ℤ pos W +ℤ c → b +ℤ pos W ≡ c
restore a b c W h = eq_of_parts (b +ℤ pos W) c (
    omega (
      arith,
      ap (λ x. pos_part x) h,
      ap (λ x. neg_part x) h,
      +ℤ_parts a b,
      +ℤ_parts (a -ℤ pos W) c,
      -ℤ_parts a (pos W),
      +ℤ_parts b (pos W),
    ))

sums_lem :
    (W j : ℕ) (its : Swrr) (it : SwItem)
    → get_elem? (grow its) j ≡ some it
    → (p : Instance → Bool)
    → sum_current p (set (grow its) j (settled W it)) +ℤ pos (taken (p it.inst) W)
      ≡ sum_current p its +ℤ pos (sum_weight p its)
sums_lem W j its it at p = elim (Bool-cases (p it.inst)) [
  | inl here ↦ rw here (
      restore it.current (sum_current p (set (grow its) j (settled W it))) _ W
        (sum_current-set p (grow its) j it (settled W it) at refl here)
      ∙ sum_current-grow p its)
  | inr away ↦
      rw
        (
          away,
          sum_current-set_other p (grow its) j it (settled W it) at refl away,
          sum_current-grow p its,
        )
        (omega int_laws)
]

cancel_W : (a b : ℤ) (W V : ℕ) → a +ℤ pos W ≡ b +ℤ pos V → V ≡ W → b ≡ pos 0 → a ≡ pos 0
cancel_W a b W V h same zero_b = eq_of_parts a (pos 0) (
    omega (
      arith,
      ap (λ x. pos_part x) h,
      ap (λ x. neg_part x) h,
      +ℤ_parts a (pos W),
      +ℤ_parts b (pos V),
      ap (λ x. pos_part x) zero_b,
      ap (λ x. neg_part x) zero_b,
    ))

step-reset :
    (W j : ℕ) (its : Swrr) (it : SwItem)
    → get_elem? (grow its) j ≡ some it
    → reset (set (grow its) j (settled W it)) ≡ reset its
step-reset W j its it at = reset-set (grow its) j it (settled W it) at refl ∙ reset-grow its

step-Balanced :
    (W j : ℕ) (its : Swrr) (it : SwItem)
    → Balanced W its
    → get_elem? (grow its) j ≡ some it
    → pos 0 <ℤ it.current
    → 0 < W
    → Balanced W (set (grow its) j (settled W it))
step-Balanced W j its it b at up positive =
    let its' = set (grow its) j (settled W it) in
    let kept = step-reset W j its it at in
    let size = same_length its' its kept in
    record {
      ready = Each-reset its its' (sym kept) b.ready;
      total = same_weight every its' its kept ∙ b.total;
      zero_sum =
          cancel_W (sum_current every its') (sum_current every its) W (total_weight its)
            (sums_lem W j its it at every) b.total b.zero_sum;
      above =
          Each-set _ (grow its) j (settled W it)
            (Each-grow _ its (Each-map _ _ (λ x h. above-grown W x.current x.weight h) its b.above))
            (above-settled W it.current up positive);
      fits = rw size b.fits;
    }

step-Residue :
    (W j k : ℕ) (its : Swrr) (it : SwItem)
    → get_elem? (grow its) j ≡ some it
    → Each (Residue W k) its
    → Each (Residue W (suc k)) (set (grow its) j (settled W it))
step-Residue W j k its it at h =
    let after =
      Each-grow (Residue W (suc k)) its
        (Each-map _ _ (λ x r. (r.0, Residue-step W k x.current x.weight r.0 r.1)) its h) in
    let (n, own) = Each-get_elem? (Residue W (suc k)) (grow its) j it after at in
    Each-set _ (grow its) j (settled W it) after
      (suc n, Residue-settled W (suc k) it.current it.weight n own)

pub round_lem :
    (W : ℕ) (head : SwItem) (rest : Swrr)
    → Balanced W (head ∷ rest)
    → (its' : Swrr) × (inst : Instance) × (next (head ∷ rest) ≡ (its', some inst))
      × Round W (head ∷ rest) its' inst
unfolding Chosen
round_lem W head rest b =
    let its : Swrr = head ∷ rest in
    let V = total_weight its in
    let below : V < 9223372036854775808 = omega (arith, b.fits, b.total) in
    let positive : 0 < W = omega (arith, b.total, b.ready.0.1) in
    let (j, it, (at, up, runs)) =
      next_lem head rest b.ready (Balanced-Roomy W its b) below b.zero_sum in
    let runs' = runs ∙ ap (λ (w : ℕ). (set (grow its) j (settled w it), some it.inst)) b.total in
    (
      set (grow its) j (settled W it),
      it.inst,
      runs',
      record {
        after = step-Balanced W j its it b at up positive;
        kept = step-reset W j its it at;
        sums = sums_lem W j its it at;
        residues = λ k. step-Residue W j k its it at;
      },
    )
