-- ===== src/Registry/Balancer/Items.antt =====
-- Sums over the items of a balancer, and what holds of each of them.
use ppchat.Prelude.{
  ℕ, zero, suc, ◌+◌, ◌*◌, ◌≤◌, ◌<◌, ◌≡◌, refl, subst, arith, Bool, true, false, some, [], ◌∷◌,
  length, get_elem?, set, if◌then◌else◌, ℤ, pos, pos_part, neg_part, ◌+ℤ◌, ◌≤ℤ◌, int_laws,
  Bool-cases, inl, inr, +ℤ_parts,
}
use ppchat.Registry.Balancer.{Instance, SwItem, Swrr}

-- The sum of the weights, and of the currents, of the items whose instance passes.
abbrev pub sum_weight : (Instance → Bool) → Swrr → ℕ
sum_weight p [] = 0
sum_weight p (it ∷ its) = if p it.inst then it.weight + sum_weight p its else sum_weight p its

abbrev pub sum_current : (Instance → Bool) → Swrr → ℤ
sum_current p [] = pos 0
sum_current p (it ∷ its) = if p it.inst then it.current +ℤ sum_current p its else sum_current p its

abbrev pub every : Instance → Bool
every inst = true

abbrev pub total_weight : Swrr → ℕ
total_weight its = sum_weight every its

abbrev pub Each : (SwItem → Type 0) → Swrr → Type 0
Each P [] = Unit
Each P (it ∷ its) = P it × Each P its

pub Each-map :
    (P Q : SwItem → Type 0) → ((it : SwItem) → P it → Q it) → (its : Swrr) → Each P its → Each Q its
Each-map P Q f [] h = tt
Each-map P Q f (it ∷ its) h = (f it h.0, Each-map P Q f its h.1)

pub Each-both :
    (P Q : SwItem → Type 0) (its : Swrr) → Each P its → Each Q its → Each (λ it. P it × Q it) its
Each-both P Q [] h k = tt
Each-both P Q (it ∷ its) h k = ((h.0, k.0), Each-both P Q its h.1 k.1)

pub Each-get_elem? :
    (P : SwItem → Type 0) (its : Swrr) (j : ℕ) (it : SwItem)
    → Each P its
    → get_elem? its j ≡ some it
    → P it
Each-get_elem? P [] j it h e = absurd cc
Each-get_elem? P (k ∷ its) zero it h e = let same : k ≡ it = cc in subst P same h.0
Each-get_elem? P (k ∷ its) (suc j) it h e = Each-get_elem? P its j it h.1 e

pub Each-set :
    (P : SwItem → Type 0) (its : Swrr) (j : ℕ) (it : SwItem)
    → Each P its
    → P it
    → Each P (set its j it)
Each-set P [] j it h k = tt
Each-set P (x ∷ its) zero it h k = (k, h.1)
Each-set P (x ∷ its) (suc j) it h k = (h.0, Each-set P its j it h.1 k)

swap_heads : (a b c : ℤ) → a +ℤ (b +ℤ c) ≡ b +ℤ (a +ℤ c)
swap_heads a b c = omega int_laws

-- A write of an item over another with the same instance.
pub sum_current-set :
    (p : Instance → Bool) (its : Swrr) (j : ℕ) (it it' : SwItem)
    → get_elem? its j ≡ some it
    → it'.inst ≡ it.inst
    → p it.inst ≡ true
    → it.current +ℤ sum_current p (set its j it') ≡ it'.current +ℤ sum_current p its
sum_current-set p [] j it it' at same here = absurd cc
sum_current-set p (x ∷ its) zero it it' at same here =
    let old : x ≡ it = cc in
    rw (old, same, here) (swap_heads it.current it'.current (sum_current p its))
sum_current-set p (x ∷ its) (suc j) it it' at same here =
    let ih = sum_current-set p its j it it' at same here in
    elim (Bool-cases (p x.inst)) [
      | inl also ↦
          rw
            (
              also,
              swap_heads it.current x.current (sum_current p (set its j it')),
              ih,
              swap_heads x.current it'.current (sum_current p its),
            )
            refl
      | inr apart ↦ rw apart ih
    ]

pub sum_current-set_other :
    (p : Instance → Bool) (its : Swrr) (j : ℕ) (it it' : SwItem)
    → get_elem? its j ≡ some it
    → it'.inst ≡ it.inst
    → p it.inst ≡ false
    → sum_current p (set its j it') ≡ sum_current p its
sum_current-set_other p [] j it it' at same away = absurd cc
sum_current-set_other p (x ∷ its) zero it it' at same away =
    let old : x ≡ it = cc in rw (old, same, away) refl
sum_current-set_other p (x ∷ its) (suc j) it it' at same away =
    rw (sum_current-set_other p its j it it' at same away) refl

-- Where no current is below -W, the sum bounds each of them from above.
sum_current-ge :
    (W : ℕ) (its : Swrr)
    → Each (λ it. neg_part it.current < W) its
    → neg_part (sum_current every its) ≤ pos_part (sum_current every its) + length its * W
sum_current-ge W [] h = omega arith
sum_current-ge W (it ∷ its) h =
    omega (arith, h.0, sum_current-ge W its h.1, +ℤ_parts it.current (sum_current every its))

pub bounded :
    (W B : ℕ) (its : Swrr)
    → Each (λ it. neg_part it.current < W) its
    → pos_part (sum_current every its) + length its * W ≤ neg_part (sum_current every its) + B
    → Each (λ it. pos_part it.current ≤ B) its
bounded W B [] h k = tt
bounded W B (it ∷ its) h k = (
  omega (arith, sum_current-ge W its h.1, +ℤ_parts it.current (sum_current every its)),
  bounded W B its h.1 (omega (arith, h.0, +ℤ_parts it.current (sum_current every its))),
)

-- Where no current is above one that is not above 0, the sum is not.
pub sum_current-le :
    (c : ℤ) (its : Swrr)
    → Each (λ it. it.current ≤ℤ c) its
    → c ≤ℤ pos 0
    → sum_current every its ≤ℤ pos 0
sum_current-le c [] h k = omega arith
sum_current-le c (it ∷ its) h k =
    omega (arith, h.0, sum_current-le c its h.1 k, +ℤ_parts it.current (sum_current every its))
