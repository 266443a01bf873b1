-- ===== src/Storage/Online/Sample.antt =====
-- Keys of Redis as functions, for the runs of the tests.
mod Tests
use ppchat.Prelude.{
  ℕ, ◌+◌, ◌≤◌, ◌<◌, ◌≡◌, refl, sym, arith, String, ite, Bool, true, false, not, ◌&&◌, Option, none,
  some, List, [], ◌∷◌, ltb, leb, if◌then◌else◌, length, str_dec, Option-cases, Bool-cases, inl, inr,
  lookup, insert, erase, lookup-insert, lookup-erase,
}
use ppchat.Storage.Online.RedisIndex.{Time, Second, RedisIndex, occurs, within, alive}

-- The strings, the sorted sets and the deadlines.
record Sample : Type 0 where
  strings : String → Bool
  sets : String → List (String × Second)
  until : String → Option Time

abbrev at_key {ℓ} : {A : Type ℓ} → String → A → (String → A) → String → A
at_key k v f j = ite (str_dec k j) v (f j)

abbrev score_of : Sample → String → String → Option Second
score_of r z m = lookup str_dec m (r.sets z)

-- The entries whose name passes.
abbrev select : (String → Bool) → List (String × Second) → List (String × Second)
select p [] = []
select p ((m, s) ∷ xs) = let rest = select p xs in if p m then (m, s) ∷ rest else rest

abbrev names : List (String × Second) → List String
names [] = []
names ((m, s) ∷ xs) = m ∷ names xs

-- A name with the largest score from `lo` on.
abbrev better :
    Second → String → Option Second → Option (String × Second) → Option (String × Second)
better lo m none rest = rest
better lo m (some s) none = if leb lo s then some (m, s) else none
better lo m (some s) (some (n, t)) = if leb lo s && ltb t s then some (m, s) else some (n, t)

abbrev best : (String → Option Second) → Second → List String → Option (String × Second)
best f lo [] = none
best f lo (m ∷ ms) = better lo m (f m) (best f lo ms)

abbrev first_of : Option (String × Second) → Option String
first_of none = none
first_of (some (m, s)) = some m

abbrev last_of : Sample → String → Second → Option String
last_of r z lo = first_of (best (score_of r z) lo (names (r.sets z)))

lookup-select :
    (p : String → Bool) (m : String) (xs : List (String × Second))
    → lookup str_dec m (select p xs) ≡ (if p m then lookup str_dec m xs else none)
unfolding lookup
lookup-select p m [] = ground arith
lookup-select p m ((n, s) ∷ xs) = ground (arith, lookup-select p m xs)

occurs-names :
    (m : String) (xs : List (String × Second))
    → occurs m (names xs) ≡ within 0 none (lookup str_dec m xs)
unfolding lookup
occurs-names m [] = refl
occurs-names m ((n, s) ∷ xs) = ground (arith, occurs-names m xs)

-- What `best` keeps, of the result alone.
abbrev Bests : (String → Option Second) → Second → List String → Option (String × Second) → Type 0
Bests f lo ms none = (n : String) → occurs n ms ≡ true → within lo none (f n) ≡ false
Bests f lo ms (some (m, s)) =
    (f m ≡ some s)
    × (lo ≤ s)
    × ((n : String) (t : Second) → occurs n ms ≡ true → f n ≡ some t → t ≤ s)

better-Bests :
    (f : String → Option Second) (lo : Second) (m : String) (ms : List String) (at : Option Second)
    (rest : Option (String × Second))
    → f m ≡ at
    → Bests f lo ms rest
    → Bests f lo (m ∷ ms) (better lo m at rest)
better-Bests f lo m ms none none here h = λ n there. ground (arith, here, there, h n)
better-Bests f lo m ms none (some (k, t)) here h =
    let (at_k, late, most) = h in
    (at_k, late, λ n u there at_n. ground (arith, here, there, most n u, at_n))
better-Bests f lo m ms (some s) none here h = elim (Bool-cases (leb lo s)) [
  | inl late ↦
      rw late
        (here, ground (arith, late), λ n u there at_n. ground (arith, here, there, h n, at_n, late))
  | inr early ↦ rw early (λ n there. ground (arith, here, there, h n, early))
]
better-Bests f lo m ms (some s) (some (k, t)) here h =
    let (at_k, late, most) = h in
    elim (Bool-cases (leb lo s && ltb t s)) [
      | inl more ↦ rw more (
        here,
        ground (arith, more),
        λ n u there at_n. ground (arith, here, there, most n u, at_n, more),
      )
      | inr less ↦
          rw less
            (at_k, late, λ n u there at_n. ground (arith, here, there, most n u, at_n, less, late))
    ]

best-Bests :
    (f : String → Option Second) (lo : Second) (ms : List String) → Bests f lo ms (best f lo ms)
best-Bests f lo [] = λ n h. absurd cc
best-Bests f lo (m ∷ ms) = better-Bests f lo m ms (f m) (best f lo ms) refl (best-Bests f lo ms)

occurs_of-score :
    (r : Sample) (z n : String) (t : Second)
    → score_of r z n ≡ some t
    → occurs n (names (r.sets z)) ≡ true
occurs_of-score r z n t h = ground (arith, h, occurs-names n (r.sets z))

last_of-none :
    (r : Sample) (z : String) (lo : Second) (b : Option (String × Second))
    → Bests (score_of r z) lo (names (r.sets z)) b
    → first_of b ≡ none
    → (m : String) → within lo none (score_of r z m) ≡ false
last_of-none r z lo none h e m = ground (arith, occurs-names m (r.sets z), h m)
last_of-none r z lo (some (k, s)) h e m = absurd cc

last_of-some :
    (r : Sample) (z : String) (lo : Second) (b : Option (String × Second)) (m : String)
    → Bests (score_of r z) lo (names (r.sets z)) b
    → first_of b ≡ some m
    → (s : Second) × (score_of r z m ≡ some s)
      × (lo ≤ s)
      × ((n : String) (s' : Second) → score_of r z n ≡ some s' → s' ≤ s)
last_of-some r z lo none m h e = absurd cc
last_of-some r z lo (some (k, s)) m h e =
    let same : k ≡ m = cc in
    let (at_k, late, most) = h in
    (s, rw (sym same) at_k, late, λ n t at_n. most n t (occurs_of-score r z n t at_n) at_n)

abbrev set_at : Sample → String → Option Time → Sample
set_at r k d = record {
  strings = at_key k true r.strings;
  sets = r.sets;
  until = at_key k d r.until;
}

abbrev del_at : Sample → String → Sample
del_at r k = record {
  strings = at_key k false r.strings;
  sets = at_key k [] r.sets;
  until = at_key k none r.until;
}

abbrev zadd_at : Sample → String → Second → String → Sample
zadd_at r z s m = record {
  strings = r.strings;
  sets = at_key z (insert str_dec m s (r.sets z)) r.sets;
  until = r.until;
}

abbrev zrem_at : Sample → String → String → Sample
zrem_at r z m = record {
  strings = r.strings;
  sets = at_key z (erase str_dec m (r.sets z)) r.sets;
  until = r.until;
}

abbrev zrem_range_at : Sample → String → Second → Sample
zrem_range_at r z hi = record {
  strings = r.strings;
  sets = at_key z (select (λ m. not (within 0 (some hi) (score_of r z m))) (r.sets z)) r.sets;
  until = r.until;
}

abbrev expire_at : Sample → String → Time → Time → Sample
expire_at r k now t = record {
  strings = at_key k (ltb now t && r.strings k) r.strings;
  sets = at_key k (if ltb now t then r.sets k else []) r.sets;
  until = at_key k (some t) r.until;
}

abbrev pass_to : Time → Sample → Sample
pass_to t r = record {
  strings = λ k. alive t (r.until k) && r.strings k;
  sets = λ z. if alive t (r.until z) then r.sets z else [];
  until = r.until;
}

abbrev range_of : Sample → String → Second → Option Second → List String
range_of r z lo hi = names (select (λ m. within lo hi (score_of r z m)) (r.sets z))

sample_score-del :
    (r : Sample) (k z m : String)
    → score_of (del_at r k) z m ≡ ite (str_dec k z) none (score_of r z m)
unfolding lookup
sample_score-del r k z m = ground arith

sample_score-zadd :
    (r : Sample) (z : String) (s : Second) (m y n : String)
    → score_of (zadd_at r z s m) y n
      ≡ ite (str_dec z y) (ite (str_dec m n) (some s) (score_of r y n)) (score_of r y n)
sample_score-zadd r z s m y n = ground (arith, lookup-insert str_dec m n s (r.sets z))

sample_score-zrem :
    (r : Sample) (z m y n : String)
    → score_of (zrem_at r z m) y n
      ≡ ite (str_dec z y) (ite (str_dec m n) none (score_of r y n)) (score_of r y n)
sample_score-zrem r z m y n = ground (arith, lookup-erase str_dec m n (r.sets z))

sample_score-zrem_range :
    (r : Sample) (z : String) (hi : Second) (y n : String)
    → score_of (zrem_range_at r z hi) y n
      ≡ ite
          (str_dec z y)
          (if within 0 (some hi) (score_of r y n) then none else score_of r y n)
          (score_of r y n)
sample_score-zrem_range r z hi y n =
    ground (arith, lookup-select (λ m. not (within 0 (some hi) (score_of r z m))) n (r.sets z))

sample_score-expire :
    (r : Sample) (k : String) (now t : Time) (z m : String)
    → score_of (expire_at r k now t) z m
      ≡ ite (str_dec k z) (if ltb now t then score_of r z m else none) (score_of r z m)
unfolding lookup
sample_score-expire r k now t z m = ground arith

sample_holds-expire :
    (r : Sample) (k : String) (now t : Time) (j : String)
    → (expire_at r k now t).strings j ≡ ite (str_dec k j) (ltb now t && r.strings j) (r.strings j)
sample_holds-expire r k now t j = ground arith

sample_deadline-expire :
    (r : Sample) (k : String) (now t : Time) (j : String)
    → (expire_at r k now t).until j ≡ ite (str_dec k j) ((expire_at r k now t).until k) (r.until j)
sample_deadline-expire r k now t j = ground arith

sample_deadline-expire_set :
    (r : Sample) (z : String) (now t : Time) → (expire_at r z now t).until z ≡ some t
sample_deadline-expire_set r z now t = ground arith

sample_score-pass :
    (r : Sample) (t : Time) (z m : String)
    → score_of (pass_to t r) z m ≡ (if alive t (r.until z) then score_of r z m else none)
unfolding lookup
sample_score-pass r t z m = ground arith

sample_occurs-zrange :
    (r : Sample) (z : String) (lo : Second) (hi : Option Second) (m : String)
    → occurs m (range_of r z lo hi) ≡ within lo hi (score_of r z m)
sample_occurs-zrange r z lo hi m = ground (
  arith,
  occurs-names m (select (λ n. within lo hi (score_of r z n)) (r.sets z)),
  lookup-select (λ n. within lo hi (score_of r z n)) m (r.sets z),
)

abbrev sample : RedisIndex
sample = record {
  Keys = Sample;
  holds = λ r k. r.strings k;
  score = score_of;
  deadline = λ r k. r.until k;
  set = set_at;
  del = del_at;
  zadd = zadd_at;
  zrem = zrem_at;
  zrem_range = zrem_range_at;
  expire = expire_at;
  pass = pass_to;
  zrange = range_of;
  zcount = λ r z lo hi. length (range_of r z lo hi);
  zlast = last_of;
  holds-set = λ r k d j. refl;
  score-set = λ r k d z m. refl;
  deadline-set = λ r k d j. refl;
  holds-del = λ r k j. refl;
  score-del = sample_score-del;
  deadline-del = λ r k j. refl;
  holds-zadd = λ r z s m j. refl;
  score-zadd = sample_score-zadd;
  deadline-zadd = λ r z s m j. refl;
  holds-zrem = λ r z m j. refl;
  score-zrem = sample_score-zrem;
  deadline-zrem = λ r z m j h. refl;
  holds-zrem_range = λ r z hi j. refl;
  score-zrem_range = sample_score-zrem_range;
  holds-expire = sample_holds-expire;
  score-expire = sample_score-expire;
  deadline-expire = sample_deadline-expire;
  deadline-expire_set = λ r z now t m s h. sample_deadline-expire_set r z now t;
  holds-pass = λ r t k. refl;
  score-pass = sample_score-pass;
  occurs-zrange = sample_occurs-zrange;
  zcount-zrange = λ r z lo hi. refl;
  zlast-none = λ r z lo.
      last_of-none r z lo (best (score_of r z) lo (names (r.sets z)))
        (best-Bests (score_of r z) lo (names (r.sets z)));
  zlast-some = λ r z lo m.
      last_of-some r z lo (best (score_of r z) lo (names (r.sets z))) m
        (best-Bests (score_of r z) lo (names (r.sets z)));
}
