-- ===== src/Registry/Balancer/Fair.antt =====
-- The calls of `Next` between two updates.
use ppchat.Prelude.{
  ℕ, zero, suc, ◌+◌, ◌*◌, ◌≤◌, ◌<◌, ◌≡◌, inl, inr, refl, ap, subst, ◌∙◌, arith, Bool, Option, none,
  some, List, [], ◌∷◌, length, if◌then◌else◌, ℤ, pos, pos_part, neg_part, ◌+ℤ◌, int_laws,
  eq_of_parts, Bool-cases, +ℤ_parts, +ℤ_le, pos_part_of-le, neg_part_of-le, dec_le,
}
use native.Mathlib.Nat.{mul-le-mul_left, eq_of_mul-eq-mul_left}
use ppchat.Registry.Balancer.{Instance, SwItem, Swrr, next, update, new_item}
use ppchat.Registry.Balancer.Balanced.{
  blank, reset, Balanced, Residue, taken, same_weight, same_length, round_lem,
}
use ppchat.Registry.Balancer.Updated.{
  update-Balanced, update-Residue, sum_current-update, total_weight-positive,
}
use ppchat.Registry.Balancer.Items.{
  sum_weight, sum_current, every, total_weight, Each, Each-map, Each-both,
}

-- `n` calls of `Next`, and the instances that they return.
abbrev pub add_pick : Option Instance → List Instance → List Instance
add_pick none picks = picks
add_pick (some inst) picks = inst ∷ picks

unfoldable pub calls : ℕ → Swrr → Swrr × List Instance
calls zero b = (b, [])
calls (suc n) b =
    let (b1, inst) = next b in let (b2, picks) = calls n b1 in (b2, add_pick inst picks)

abbrev pub count : (Instance → Bool) → List Instance → ℕ
count p [] = 0
count p (inst ∷ picks) = if p inst then suc (count p picks) else count p picks

-- What `n` calls do to such a state.
record Calls (W n : ℕ) (its : Swrr) (res : Swrr × List Instance) : Type 0 where
  after : Balanced W res.0
  kept : reset res.0 ≡ reset its
  sums :
      (p : Instance → Bool)
      → sum_current p res.0 +ℤ pos (W * count p res.1)
        ≡ sum_current p its +ℤ pos (n * sum_weight p its)
  residues : (k : ℕ) → Each (Residue W k) its → Each (Residue W (k + n)) res.0

sum_step :
    (a b c : ℤ) (W V N M X : ℕ) (t : Bool)
    → a +ℤ pos (taken t W) ≡ b +ℤ pos V
    → c +ℤ pos N ≡ a +ℤ pos M
    → X ≡ N + taken t W
    → c +ℤ pos X ≡ b +ℤ pos (V + M)
sum_step a b c W V N M X t h k same = eq_of_parts _ _ (
    omega (
      arith,
      ap (λ x. pos_part x) h,
      ap (λ x. neg_part x) h,
      ap (λ x. pos_part x) k,
      ap (λ x. neg_part x) k,
      +ℤ_parts a (pos (taken t W)),
      +ℤ_parts b (pos V),
      +ℤ_parts c (pos N),
      +ℤ_parts a (pos M),
      +ℤ_parts c (pos X),
      +ℤ_parts b (pos (V + M)),
    ))

count-more :
    (W : ℕ) (p : Instance → Bool) (inst : Instance) (picks : List Instance)
    → W * count p (inst ∷ picks) ≡ W * count p picks + taken (p inst) W
count-more W p inst picks = elim (Bool-cases (p inst)) [
  | inl here ↦ rw here (omega arith)
  | inr away ↦ rw away (omega arith)
]

more : (n w : ℕ) → w + n * w ≡ suc n * w
more n w = omega arith

calls_lem : (W n : ℕ) (its : Swrr) → Balanced W its → 0 < length its → Calls W n its (calls n its)
unfolding calls
calls_lem W zero its b some_left = record {
  after = b;
  kept = refl;
  sums = λ p. omega int_laws;
  residues = λ k h. Each-map _ _ (λ x r. let same : k + 0 ≡ k = omega arith in rw same r) its h;
}
calls_lem W (suc n) [] b some_left = absurd (omega arith)
calls_lem W (suc n) (it ∷ items) b some_left =
    let its = it ∷ items in
    let (its', inst, runs, one) = round_lem W it items b in
    let size = same_length its' its one.kept in
    let rest = calls_lem W n its' one.after (omega arith) in
    let (its2, picks) = calls n its' in
    rw runs (record {
      after = rest.after;
      kept = rest.kept ∙ one.kept;
      sums = λ p.
          sum_step (sum_current p its') (sum_current p its) (sum_current p its2) W
            (sum_weight p its) (W * count p picks) (n * sum_weight p its)
            (W * count p (inst ∷ picks)) (p inst) (one.sums p)
            (rest.sums p
              ∙ ap (λ (w : ℕ). sum_current p its' +ℤ pos (n * w)) (same_weight p its' its one.kept))
            (count-more W p inst picks)
          ∙ ap (λ (w : ℕ). sum_current p its +ℤ pos w) (more n (sum_weight p its));
      residues = λ k h.
          let onward : suc k + n ≡ k + suc n = omega arith in
          subst (λ (m : ℕ). Each (Residue W m) its2) onward
            (rest.residues (suc k) (one.residues k h));
    })

multiple : (W n w m : ℕ) → m < W → W * n ≡ m + W * w → m ≡ 0
multiple W n w m small h = elim (dec_le n w) [
  | yes few ↦ let le : W * n ≤ W * w = mul-le-mul_left W few in omega arith
  | no many ↦ let ge : W * suc w ≤ W * n = mul-le-mul_left W (omega arith) in absurd (omega arith)
]

whole_turns :
    (W : ℕ) (it : SwItem) → Residue W W it → neg_part it.current < W → neg_part it.current ≡ 0
whole_turns W it (n, h) small = elim (dec_le (neg_part it.current) (pos_part it.current)) [
  | yes up ↦ neg_part_of-le it.current up
  | no down ↦
      let flat = pos_part_of-le it.current (omega arith) in
      multiple W n it.weight (neg_part it.current) small (omega (arith, flat, h))
]

sum_current-nonneg :
    (its : Swrr) → Each (λ it. neg_part it.current ≡ 0) its → neg_part (sum_current every its) ≡ 0
sum_current-nonneg [] h = refl
sum_current-nonneg (it ∷ its) h =
    omega (arith, h.0, sum_current-nonneg its h.1, +ℤ_le it.current (sum_current every its))

-- Currents that are not below 0 and sum up to 0 are those that `Update` sets.
reset_of-zero :
    (its : Swrr)
    → Each (λ it. neg_part it.current ≡ 0) its
    → pos_part (sum_current every its) ≡ 0
    → its ≡ reset its
reset_of-zero [] h z = refl
reset_of-zero (it ∷ its) h z =
    let parts = +ℤ_parts it.current (sum_current every its) in
    let later = sum_current-nonneg its h.1 in
    let both = +ℤ_le it.current (sum_current every its) in
    let here : it.current ≡ pos 0 =
      eq_of_parts it.current (pos 0) (omega (arith, parts, later, both, h.0, z)) in
    let rest = reset_of-zero its h.1 (omega (arith, parts, later, both, h.0, z)) in
    ap (λ (c : ℤ). record it { current = c } ∷ its) here ∙ ap (λ (xs : Swrr). blank it ∷ xs) rest

reset-update : (insts : List Instance) → reset (update insts) ≡ update insts
reset-update [] = refl
reset-update (inst ∷ insts) = ap (λ (xs : Swrr). new_item inst ∷ xs) (reset-update insts)

equal_turns :
    (W n w : ℕ) {a b : ℤ}
    → 0 < W
    → a ≡ pos 0
    → b ≡ pos 0
    → a +ℤ pos (W * n) ≡ b +ℤ pos (W * w)
    → n ≡ w
equal_turns W n w {a} {b} positive zero_a zero_b h = eq_of_mul-eq-mul_left W positive n w (
    omega (
      arith,
      ap (λ c. pos_part c) h,
      ap (λ c. neg_part c) h,
      ap (λ c. pos_part c) zero_a,
      ap (λ c. neg_part c) zero_a,
      ap (λ c. pos_part c) zero_b,
      ap (λ c. neg_part c) zero_b,
      +ℤ_parts a (pos (W * n)),
      +ℤ_parts b (pos (W * w)),
    ))

from_0 : (W : ℕ) (its : Swrr) → Each (Residue W (0 + W)) its → Each (Residue W W) its
from_0 W its h =
    let same : 0 + W ≡ W = omega arith in subst (λ (m : ℕ). Each (Residue W m) its) same h

-- From an update with at least one instance, where the 64 bits hold one more than the number of
-- instances times the sum `W` of their weights, `W` calls of `Next` return each instance as often as its
-- weight says (for every test on instances, the calls that return one that passes are as many as the
-- weights of those sum up to), and leave the state as the update made it.
pub next-fair :
    (head : Instance) (rest : List Instance)
    → let b = update (head ∷ rest) in
      suc (length b) * total_weight b < 9223372036854775808
      → ((p : Instance → Bool) → count p (calls (total_weight b) b).1 ≡ sum_weight p b)
        × ((calls (total_weight b) b).0 ≡ b)
next-fair head rest fits =
    let b = update (head ∷ rest) in
    let W = total_weight b in
    let all = calls_lem W W b (update-Balanced head rest fits) (omega arith) in
    let turns : Each (λ it. neg_part it.current ≡ 0) (calls W b).0 =
      Each-map _ _ (λ it h. whole_turns W it h.0 h.1) (calls W b).0
        (Each-both _ _ (calls W b).0
          (from_0 W (calls W b).0 (all.residues 0 (update-Residue W (head ∷ rest))))
          all.after.above) in
    let back : (calls W b).0 ≡ b =
      reset_of-zero (calls W b).0 turns (ap (λ c. pos_part c) all.after.zero_sum)
      ∙ all.kept
      ∙ reset-update (head ∷ rest) in
    (
      λ p.
          equal_turns W _ _ (total_weight-positive head rest)
            (ap (λ (xs : Swrr). sum_current p xs) back ∙ sum_current-update p (head ∷ rest))
            (sum_current-update p (head ∷ rest)) (all.sums p),
      back,
    )
