-- ===== src/Registry/Manager/Watched.antt =====
-- The states of services in a manager, and the loops that keep them up to date.
use ppchat.Prelude.{
  ℕ, suc, ◌≤◌, ◌<◌, ◌≡◌, ◌≢◌, inl, inr, refl, sym, ap, subst, ◌∙◌, arith, String, ite, Bool, true,
  false, Option, none, some, List, [], ◌∷◌, ◌==◌, if◌then◌else◌, str_dec, lookup-insert, Bool-cases,
  if_pos, if_neg,
}
use ppchat.Registry.Balancer.{Instance, Swrr, update, next}
use ppchat.Registry.Balancer.Items.{Each}
use ppchat.Registry.Balancer.Updated.{update-Ready}
use ppchat.Registry.Balancer.Round.{Ready}
use ppchat.Registry.Balancer.Choice.{instances, next-choice}
use ppchat.Registry.Manager.{
  Manager, ServiceState, ensure, store, state_or_new, apply, apply_listed, watch_new, start_watch,
  end_loop, cancelled, stop_watch, watch_fails, pick_any, pick, is_open, Filter,
}

-- Whether the loop of a context runs, and how many run for a service.
abbrev pub runs : ℕ → String → List (ℕ × String) → Bool
runs k s [] = false
runs k s ((n, t) ∷ live) = if n == k then ite (str_dec t s) true (runs k s live) else runs k s live

abbrev pub loops : String → List (ℕ × String) → ℕ
loops s [] = 0
loops s ((n, t) ∷ live) = ite (str_dec t s) (suc (loops s live)) (loops s live)

-- A state that the balancer of which has the instances of, with weights that are positive.
abbrev pub Coherent : ServiceState → Type 0
Coherent v = (instances v.lb ≡ v.all) × Each Ready v.lb

abbrev pub allowed : Bool → ℕ
allowed watching = if watching then 1 else 0

pub record IsValid (m : Manager) : Type 0 where
  pub coherent : (s : String) → Coherent (ensure s m)
  pub known : (k : ℕ) (s : String) → runs k s m.live ≡ true → (ensure s m).cancel ≡ some k
  pub single : (s : String) → loops s m.live ≤ allowed (ensure s m).watching

-- What holds of the state that is stored, and of the others, holds of all.
stored :
    (P : String → ServiceState → Type 0) (t : String) (v : ServiceState) (m : Manager)
    → P t v
    → ((s : String) → t ≢ s → P s (ensure s m))
    → (s : String) → P s (ensure s (store t v m))
unfolding ensure
stored P t v m own others s = elim (str_dec t s) [
  | yes same ↦
      let here = lookup-insert str_dec t s v m.states ∙ if_pos (str_dec t s) same _ _ in
      let own' : P s v = subst (λ x. P x v) same own in
      subst (λ o. P s (state_or_new o)) (sym here) own'
  | no apart ↦
      let there = lookup-insert str_dec t s v m.states ∙ if_neg (str_dec t s) apart _ _ in
      subst (λ o. P s (state_or_new o)) (sym there) (others s apart)
]

-- A store that leaves `watching` and `cancel`.
store-IsValid :
    (t : String) (v : ServiceState) (m : Manager)
    → IsValid m
    → Coherent v
    → v.watching ≡ (ensure t m).watching
    → v.cancel ≡ (ensure t m).cancel
    → IsValid (store t v m)
store-IsValid t v m h fine same_watching same_cancel = record {
  coherent = stored (λ s x. Coherent x) t v m fine (λ s apart. h.coherent s);
  known = λ k.
      stored (λ s x. runs k s m.live ≡ true → x.cancel ≡ some k) t v m
        (λ r. same_cancel ∙ h.known k t r) (λ s apart. h.known k s);
  single =
      stored (λ s x. loops s m.live ≤ allowed x.watching) t v m (rw same_watching (h.single t))
        (λ s apart. h.single s);
}

ensure-IsValid : (t : String) (m : Manager) → IsValid m → IsValid (store t (ensure t m) m)
ensure-IsValid t m h = store-IsValid t (ensure t m) m h (h.coherent t) refl refl

pub instances-update : (insts : List Instance) → instances (update insts) ≡ insts
instances-update [] = refl
instances-update (inst ∷ insts) = ap (λ (xs : List Instance). inst ∷ xs) (instances-update insts)

apply-IsValid :
    (t : String) (insts : List Instance) (m : Manager) → IsValid m → IsValid (apply t insts m)
unfolding apply
apply-IsValid t insts m h =
    store-IsValid t (record (ensure t m) { all = insts; lb = update insts }) m h
      (instances-update insts, update-Ready insts) refl refl

pub apply_listed-IsValid :
    (t : String) (listed : Option (List Instance)) (m : Manager)
    → IsValid m
    → IsValid (apply_listed t listed m)
unfolding apply_listed
apply_listed-IsValid t none m h = h
apply_listed-IsValid t (some insts) m h = apply-IsValid t insts m h

-- The loops when one context ends.
pub runs-end_loop :
    (n k : ℕ) (s : String) (live : List (ℕ × String))
    → runs k s (end_loop n live) ≡ true
    → runs k s live ≡ true
runs-end_loop n k s [] h = h
runs-end_loop n k s ((i, t) ∷ live) h = ground (arith, h, runs-end_loop n k s live)

pub loops-end_loop :
    (n : ℕ) (s : String) (live : List (ℕ × String)) → loops s (end_loop n live) ≤ loops s live
loops-end_loop n s [] = omega arith
loops-end_loop n s ((i, t) ∷ live) = ground (arith, loops-end_loop n s live)

runs-cancelled :
    (o : Option ℕ) (k : ℕ) (s : String) (live : List (ℕ × String))
    → runs k s (cancelled o live) ≡ true
    → runs k s live ≡ true
runs-cancelled none k s live h = h
runs-cancelled (some n) k s live h = runs-end_loop n k s live h

loops-cancelled-le :
    (o : Option ℕ) (s : String) (live : List (ℕ × String))
    → loops s (cancelled o live) ≤ loops s live
loops-cancelled-le none s live = omega arith
loops-cancelled-le (some n) s live = loops-end_loop n s live

pub end_loop-silent :
    (n : ℕ) (s : String) (live : List (ℕ × String)) → runs n s (end_loop n live) ≡ false
end_loop-silent n s [] = refl
end_loop-silent n s ((i, t) ∷ live) = ground (arith, end_loop-silent n s live)

pub loops_of-silent :
    (s : String) (live : List (ℕ × String)) → ((k : ℕ) → runs k s live ≡ false) → loops s live ≡ 0
loops_of-silent s [] h = refl
loops_of-silent s ((n, t) ∷ live) h =
    let rest = loops_of-silent s live (λ k. ground (arith, h k)) in ground (arith, h n, rest)

pub watch_fails-IsValid : (n : ℕ) (m : Manager) → IsValid m → IsValid (watch_fails n m)
unfolding watch_fails ensure
watch_fails-IsValid n m h = record {
  coherent = h.coherent;
  known = λ k s r. h.known k s (runs-end_loop n k s m.live r);
  single = λ s. omega (arith, loops-end_loop n s m.live, h.single s);
}

next-nil : next [] ≡ ([], none)
unfolding next
next-nil = refl

next-Coherent :
    (insts : List Instance) (lb : Swrr)
    → (instances lb ≡ insts) × Each Ready lb
    → (instances (next lb).0 ≡ insts) × Each Ready (next lb).0
next-Coherent insts [] fine = rw next-nil fine
next-Coherent insts (it ∷ its) (same, ready) =
    let (lb, inst, j, runs_to, kept, ready', at) = next-choice it its ready in
    rw runs_to (kept ∙ same, ready')

pick_any-IsValid : (t : String) (m : Manager) → IsValid m → IsValid (pick_any t m).0
unfolding pick_any
pick_any-IsValid t m h =
    store-IsValid t (record (ensure t m) { lb = (next (ensure t m).lb).0 }) m h
      (next-Coherent (ensure t m).all (ensure t m).lb (h.coherent t)) refl refl

pub pick-IsValid :
    (t : String) (f : Option Filter) (m : Manager) → IsValid m → IsValid (pick t f m).0
unfolding pick
pick-IsValid t none m h = pick_any-IsValid t m h
pick-IsValid t (some f) m h = elim (Bool-cases (is_open f)) [
  | inl open_filter ↦ rw open_filter (pick_any-IsValid t m h)
  | inr closed ↦ rw closed (ensure-IsValid t m h)
]

pub runs-loops :
    (k : ℕ) (s : String) (live : List (ℕ × String)) → runs k s live ≡ true → 0 < loops s live
runs-loops k s [] h = absurd cc
runs-loops k s ((n, t) ∷ live) h = ground (arith, h, runs-loops k s live)

fresh_runs :
    (n k : ℕ) (t : String) (live : List (ℕ × String))
    → loops t live ≡ 0
    → runs k t ((n, t) ∷ live) ≡ true
    → n ≡ k
fresh_runs n k t live idle h = ground (arith, idle, h, runs-loops k t live)

-- The new context, for a service without a loop.
watch_new-IsValid :
    (t : String) (listed : Option (List Instance)) (m : Manager)
    → (ensure t m).watching ≡ false
    → IsValid m
    → IsValid (watch_new t listed m)
unfolding watch_new ensure
watch_new-IsValid t listed m idle h =
    let n = m.contexts in
    let v : ServiceState = record (ensure t m) { cancel = some n; watching = true } in
    let live = (n, t) ∷ m.live in
    let m1 = record m { contexts = suc n; live = live } in
    let none_runs : loops t m.live ≡ 0 = ground (arith, h.single t, idle) in
    apply_listed-IsValid t listed (store t v m1) (record {
      coherent = stored (λ s x. Coherent x) t v m1 (h.coherent t) (λ s apart. h.coherent s);
      known = λ k.
          stored (λ s x. runs k s live ≡ true → x.cancel ≡ some k) t v m1
            (λ r. ap (λ i. some i) (fresh_runs n k t m.live none_runs r))
            (λ s apart r. h.known k s (ground (arith, apart, r)));
      single =
          stored (λ s x. loops s live ≤ allowed x.watching) t v m1 (ground (arith, none_runs))
            (λ s apart.
              let same : loops s live ≡ loops s m.live = ground (arith, apart) in
              rw same (h.single s));
    })

pub start_watch-IsValid :
    (t : String) (listed : Option (List Instance)) (m : Manager)
    → IsValid m
    → IsValid (start_watch t listed m)
unfolding start_watch
start_watch-IsValid t listed m h = elim (Bool-cases (ensure t m).watching) [
  | inl busy ↦ rw busy (ensure-IsValid t m h)
  | inr idle ↦ rw idle (watch_new-IsValid t listed m idle h)
]

-- After the end of the context that the state names, no loop of the service runs.
pub loops-cancelled :
    (o : Option ℕ) (t : String) (live : List (ℕ × String))
    → ((k : ℕ) → runs k t live ≡ true → o ≡ some k)
    → loops t (cancelled o live) ≡ 0
loops-cancelled none t live h = loops_of-silent t live (λ k. elim (Bool-cases (runs k t live)) [
  | inl going ↦ let named = h k going in absurd cc
  | inr over ↦ over
])
loops-cancelled (some n) t live h = loops_of-silent t (end_loop n live) (λ k.
    elim (Bool-cases (runs k t (end_loop n live))) [
      | inl going ↦
          let named = h k (runs-end_loop n k t live going) in
          let same : n ≡ k = cc in
          let ended = end_loop-silent n t live in absurd (ground (arith, same, going, ended))
      | inr over ↦ over
    ])

pub stop_watch-IsValid : (t : String) (m : Manager) → IsValid m → IsValid (stop_watch t m)
unfolding stop_watch ensure
stop_watch-IsValid t m h =
    let v : ServiceState = record (ensure t m) { watching = false } in
    let live = cancelled (ensure t m).cancel m.live in
    let m1 = record m { live = live } in
    let none_runs = loops-cancelled (ensure t m).cancel t m.live (λ k. h.known k t) in
    record {
      coherent = stored (λ s x. Coherent x) t v m1 (h.coherent t) (λ s apart. h.coherent s);
      known = λ k.
          stored (λ s x. runs k s live ≡ true → x.cancel ≡ some k) t v m1
            (λ r. h.known k t (runs-cancelled (ensure t m).cancel k t m.live r))
            (λ s apart r. h.known k s (runs-cancelled (ensure t m).cancel k s m.live r));
      single =
          stored (λ s x. loops s live ≤ allowed x.watching) t v m1 (omega (arith, none_runs))
            (λ s apart. omega (arith, h.single s, loops-cancelled-le (ensure t m).cancel s m.live));
    }
