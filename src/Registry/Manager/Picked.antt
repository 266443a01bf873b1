-- ===== src/Registry/Manager/Picked.antt =====
-- The instance that `Pick` returns.
use mathlib.Core.List.{Memᴰ}
use ppchat.Prelude.{
  str_dec, ◌⊎◌, ap, lookup, Option-cases, ℕ, zero, suc, ◌≡◌, refl, sym, subst, ◌∙◌, arith, String,
  Bool, true, false, Option, none, some, List, [], ◌∷◌, length, get_elem?, ◌==◌, if◌then◌else◌,
  Bool-cases, inl, inr,
}
use ppchat.Registry.Balancer.{Instance, Swrr, update, next}
use ppchat.Registry.Balancer.Items.{Each}
use ppchat.Registry.Balancer.Round.{Ready}
use ppchat.Registry.Balancer.Updated.{update-Ready}
use ppchat.Registry.Balancer.Choice.{instances, next-choice}
use ppchat.Registry.Manager.{
  Manager, Client, Filter, ensure, all, pick, pick_any, pick_from, is_open, passes, requires, read,
  pool_of,
}
use ppchat.Registry.Manager.Watched.{IsValid, instances-update}
use ppchat.Registry.Manager.Reachable.{Reach, Reach-IsValid}

-- The metadata of the instance have this value; a key that is missing has the empty one.
abbrev pub Has : String → String → Instance → Type 0
Has k v it =
    (lookup str_dec k it.metadata ≡ some v) ⊎ ((lookup str_dec k it.metadata ≡ none) × (v ≡ ""))

-- What a filter asks of an instance: the zone, where it names one, under `zone` or under `az`, and
-- each value that it requires.
unfoldable pub IsWanted : Option Filter → Instance → Type 0
IsWanted none it = Unit
IsWanted (some f) it =
    ((f.zone ≡ "") ⊎ (Has "zone" f.zone it ⊎ Has "az" f.zone it))
    × ((k v : String) → Memᴰ (k, v) f.require → Has k v it)

-- A choice among the instances that are wanted: one of them, and none only where there is none.
unfoldable pub IsChoice : Option Filter → List Instance → Option Instance → Type 0
IsChoice f insts none = (j : ℕ) (it : Instance) → get_elem? insts j ≡ some it → IsWanted f it → ⊥
IsChoice f insts (some inst) = ((j : ℕ) × (get_elem? insts j ≡ some inst)) × IsWanted f inst

read-Has : (k v : String) (it : Instance) → read k it.metadata ≡ v → Has k v it
read-Has k v it h = elim (Option-cases (lookup str_dec k it.metadata)) [
  | inl away ↦ inr (away, ground (arith, away, h))
  | inr (w, at) ↦ inl (ground (arith, at, h))
]

Has-read : (k v : String) (it : Instance) → Has k v it → read k it.metadata ≡ v
Has-read k v it (inl at) = ground (arith, at)
Has-read k v it (inr (away, empty)) = ground (arith, away, empty)

requires-Has :
    (r : List (String × String)) (it : Instance)
    → requires r it ≡ true
    → (k v : String) → Memᴰ (k, v) r
    → Has k v it
requires-Has [] it h k v at = elim at [ ]
requires-Has ((a, b) ∷ r) it h k v (Memᴰ.head e) = read-Has k v it (
    ap (λ (x : String × String). read x.0 it.metadata) e
    ∙ ground (arith, h)
    ∙ sym (ap (λ (x : String × String). x.1) e))
requires-Has ((a, b) ∷ r) it h k v (Memᴰ.tail at) = requires-Has r it (ground (arith, h)) k v at

Has-requires :
    (r : List (String × String)) (it : Instance)
    → ((k v : String) → Memᴰ (k, v) r → Has k v it)
    → requires r it ≡ true
Has-requires [] it h = refl
Has-requires ((a, b) ∷ r) it h =
    let this = Has-read a b it (h a b (Memᴰ.head refl)) in
    let rest = Has-requires r it (λ k v at. h k v (Memᴰ.tail at)) in ground (arith, this, rest)

passes-IsWanted : (f : Filter) (it : Instance) → passes f it ≡ true → IsWanted (some f) it
unfolding IsWanted
passes-IsWanted f it h = (
  elim (str_dec f.zone "") [
    | yes any ↦ inl any
    | no named ↦ elim (str_dec (read "zone" it.metadata) f.zone) [
      | yes same ↦ inr (inl (read-Has "zone" f.zone it same))
      | no apart ↦ inr (inr (read-Has "az" f.zone it (ground (arith, h, named, apart))))
    ]
  ],
  requires-Has f.require it (ground (arith, h)),
)

IsWanted-passes : (f : Filter) (it : Instance) → IsWanted (some f) it → passes f it ≡ true
unfolding IsWanted
IsWanted-passes f it (zone, required) =
    let all = Has-requires f.require it required in
    elim zone [
      | inl any ↦ ground (arith, any, all)
      | inr (inl here) ↦ ground (arith, Has-read "zone" f.zone it here, all)
      | inr (inr here) ↦ ground (arith, Has-read "az" f.zone it here, all)
    ]

-- What the code asks.
abbrev wanted : Option Filter → Instance → Bool
wanted none it = true
wanted (some f) it = passes f it

-- The same of a test.
Choice : (Instance → Bool) → List Instance → Option Instance → Type 0
Choice p insts none = (j : ℕ) (it : Instance) → get_elem? insts j ≡ some it → p it ≡ false
Choice p insts (some inst) = ((j : ℕ) × (get_elem? insts j ≡ some inst)) × (p inst ≡ true)

next-nil : next [] ≡ ([], none)
unfolding next
next-nil = refl

next-Choice : (lb : Swrr) → Each Ready lb → Choice (λ it. true) (instances lb) (next lb).1
unfolding Choice
next-Choice [] ready = rw next-nil (λ j it at. absurd cc)
next-Choice (head ∷ rest) ready =
    let (lb, inst, j, runs_to, kept, ready', at) = next-choice head rest ready in
    rw runs_to ((j, at), refl)

-- An instance of the list that passes.
abbrev Found : Filter → List Instance → Instance → Type 0
Found f insts it = ((i : ℕ) × (get_elem? insts i ≡ some it)) × (passes f it ≡ true)

Found-cons :
    (f : Filter) (x : Instance) (insts pool : List Instance) (it : Instance)
    → ((j : ℕ) → get_elem? pool j ≡ some it → Found f insts it)
    → (b : Bool) → passes f x ≡ b
    → (j : ℕ) → get_elem? (if b then x ∷ pool else pool) j ≡ some it
    → Found f (x ∷ insts) it
Found-cons f x insts pool it later false out j at =
    let ((i, found), good) = later j at in ((suc i, found), good)
Found-cons f x insts pool it later true kept zero at =
    let same : x ≡ it = cc in ((0, at), rw (sym same) kept)
Found-cons f x insts pool it later true kept (suc j) at =
    let ((i, found), good) = later j at in ((suc i, found), good)

pool_of-Found :
    (f : Filter) (insts : List Instance) (it : Instance) (j : ℕ)
    → get_elem? (pool_of f insts) j ≡ some it
    → Found f insts it
pool_of-Found f [] it j at = absurd cc
pool_of-Found f (x ∷ insts) it j at =
    Found-cons f x insts (pool_of f insts) it (pool_of-Found f insts it) (passes f x) refl j at

pool_of-all :
    (f : Filter) (insts : List Instance) (j : ℕ) (it : Instance)
    → get_elem? insts j ≡ some it
    → passes f it ≡ true
    → (i : ℕ) × (get_elem? (pool_of f insts) i ≡ some it)
pool_of-all f [] j it at good = absurd cc
pool_of-all f (x ∷ insts) zero it at good = let same : x ≡ it = cc in (0, rw (same, good) refl)
pool_of-all f (x ∷ insts) (suc j) it at good =
    let (i, found) = pool_of-all f insts j it at good in
    elim (Bool-cases (passes f x)) [
      | inl kept ↦ (suc i, rw kept found)
      | inr out ↦ (i, rw out found)
    ]

pick_from-Choice :
    (f : Filter) (insts : List Instance) → Choice (passes f) insts (pick_from (pool_of f insts))
unfolding pick_from Choice
pick_from-Choice f insts =
    let pool = pool_of f insts in
    from_pool (next (update pool)).1 (
      subst (λ (xs : List Instance). Choice (λ it. true) xs (next (update pool)).1)
        (instances-update pool) (next-Choice (update pool) (update-Ready pool)))
  where
    from_pool :
        (picked : Option Instance)
        → Choice (λ it. true) (pool_of f insts) picked
        → Choice (passes f) insts picked
    from_pool (some inst) ((j, at), ok) = pool_of-Found f insts inst j at
    from_pool none nothing = λ j it at. elim (Bool-cases (passes f it)) [
      | inr bad ↦ bad
      | inl good ↦
          let (i, found) = pool_of-all f insts j it at good in
          let wrong = nothing i it found in absurd cc
    ]

-- A filter without conditions lets everything pass.
is_open-passes : (f : Filter) (it : Instance) → is_open f ≡ true → passes f it ≡ true
is_open-passes f it h = ground (arith, h, no_requires f.require it)
  where
    no_requires :
        (r : List (String × String)) (it : Instance) → (length r == 0) ≡ true → requires r it ≡ true
    no_requires [] it h = refl
    no_requires (c ∷ r) it h = absurd (ground (arith, h))

Choice-wanted :
    (p q : Instance → Bool) (insts : List Instance) (picked : Option Instance)
    → ((it : Instance) → p it ≡ q it)
    → Choice p insts picked
    → Choice q insts picked
unfolding Choice
Choice-wanted p q insts none same h = λ j it at. sym (same it) ∙ h j it at
Choice-wanted p q insts (some inst) same (at, good) = (at, sym (same inst) ∙ good)

pick_any-Choice :
    (service : String) (m : Manager)
    → IsValid m
    → Choice (λ it. true) (all service m) (pick_any service m).1
unfolding pick_any all
pick_any-Choice service m h =
    let (same, ready) = h.coherent service in
    subst (λ (xs : List Instance). Choice (λ it. true) xs (next (ensure service m).lb).1) same
      (next-Choice (ensure service m).lb ready)

wanted-IsChoice :
    (f : Option Filter) (insts : List Instance) (picked : Option Instance)
    → Choice (wanted f) insts picked
    → IsChoice f insts picked
unfolding Choice IsChoice IsWanted
wanted-IsChoice none insts none h = λ j it at _. let wrong = h j it at in absurd cc
wanted-IsChoice none insts (some inst) (at, good) = (at, tt)
wanted-IsChoice (some f) insts none h =
    λ j it at want. absurd (ground (arith, h j it at, IsWanted-passes f it want))
wanted-IsChoice (some f) insts (some inst) (at, good) = (at, passes-IsWanted f inst good)

module _ {R : Type 0} (client : Client R) where
  pick-Choice :
      (m : Manager)
      → Reach client m
      → (service : String) (f : Option Filter)
      → Choice (wanted f) (all service m) (pick service f m).1
  unfolding pick
  pick-Choice m reached service none = pick_any-Choice service m (Reach-IsValid client m reached)
  pick-Choice m reached service (some f) = elim (Bool-cases (is_open f)) [
    | inl open_filter ↦ rw open_filter (
        Choice-wanted (λ it. true) (passes f) (all service m) (pick_any service m).1
          (λ it. sym (is_open-passes f it open_filter))
          (pick_any-Choice service m (Reach-IsValid client m reached)))
    | inr closed ↦ rw closed (pick_from-Choice f (all service m))
  ]

  -- In a manager after any calls, answers and failures, `Pick` returns an instance of the service that
  -- the filter asks for, and none only where no instance of the service is one.
  pub pick-IsChoice :
      (m : Manager)
      → Reach client m
      → (service : String) (f : Option Filter) → IsChoice f (all service m) (pick service f m).1
  pick-IsChoice m reached service f =
      wanted-IsChoice f (all service m) _ (pick-Choice m reached service f)
