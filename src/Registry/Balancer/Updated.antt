-- ===== src/Registry/Balancer/Updated.antt =====
-- The state of a balancer after `Update`, and the weights that it reads.
use Prim.Native.String.{String}
use Prim.Native.Char.{code}
use ppchat.Prelude.{
  ◌==◌, str_dec, lookup, Option-cases, ℕ, suc, ◌*◌, ◌<◌, ◌≡◌, inl, inr, refl, arith, Bool, Option,
  none, some, List, [], ◌∷◌, length, pos, neg_part, Bool-cases, pos-add,
}
use ppchat.Registry.Balancer.{
  Instance, update, parse_digits, positive_or_one, negated, parse_text, parse_weight,
}
use ppchat.Registry.Balancer.Items.{sum_current, every, total_weight, Each}
use ppchat.Registry.Balancer.Round.{Ready}
use ppchat.Registry.Balancer.Balanced.{Balanced, Residue}

positive_or_one-positive : (n : Option ℕ) → 0 < positive_or_one n
unfolding positive_or_one
positive_or_one-positive none = omega arith
positive_or_one-positive (some n) = ground arith

parse_text-positive : (s : String) → 0 < parse_text s
unfolding parse_text
parse_text-positive String.[] = omega arith
parse_text-positive (String.◌∷◌ c s) = elim (Bool-cases (code c == b'-')) [
  | inl minus ↦ rw minus (positive_or_one-positive (negated (parse_digits 0 s)))
  | inr digit ↦ rw digit (positive_or_one-positive (parse_digits 0 (String.◌∷◌ c s)))
]

parse_weight-positive : (meta : List (String × String)) → 0 < parse_weight meta
unfolding parse_weight
parse_weight-positive meta = elim (Option-cases (lookup str_dec "weight" meta)) [
  | inl absent ↦ rw (absent, parse_weight) (omega arith)
  | inr (wstr, there) ↦ rw (there, parse_weight) (parse_text-positive wstr)
]

pub update-Ready : (insts : List Instance) → Each Ready (update insts)
update-Ready [] = tt
update-Ready (inst ∷ insts) = ((refl, parse_weight-positive inst.metadata), update-Ready insts)

pub sum_current-update :
    (p : Instance → Bool) (insts : List Instance) → sum_current p (update insts) ≡ pos 0
sum_current-update p [] = refl
sum_current-update p (inst ∷ insts) = elim (Bool-cases (p inst)) [
  | inl here ↦ rw (here, sum_current-update p insts) (pos-add 0 0)
  | inr away ↦ rw away (sum_current-update p insts)
]

update-above :
    (W : ℕ) (insts : List Instance) → 0 < W → Each (λ it. neg_part it.current < W) (update insts)
update-above W [] positive = tt
update-above W (inst ∷ insts) positive = (positive, update-above W insts positive)

pub update-Residue : (W : ℕ) (insts : List Instance) → Each (Residue W 0) (update insts)
update-Residue W [] = tt
update-Residue W (inst ∷ insts) = ((0, omega arith), update-Residue W insts)

pub total_weight-positive :
    (head : Instance) (rest : List Instance) → 0 < total_weight (update (head ∷ rest))
total_weight-positive head rest = omega (arith, parse_weight-positive head.metadata)

pub update-Balanced :
    (head : Instance) (rest : List Instance)
    → let b = update (head ∷ rest) in
      suc (length b) * total_weight b < 9223372036854775808 → Balanced (total_weight b) b
update-Balanced head rest fits = record {
  ready = update-Ready (head ∷ rest);
  total = refl;
  zero_sum = sum_current-update every (head ∷ rest);
  above = update-above _ (head ∷ rest) (total_weight-positive head rest);
  fits = fits;
}
