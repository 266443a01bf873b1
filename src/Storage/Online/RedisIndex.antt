-- ===== src/Storage/Online/RedisIndex.antt =====
-- What service/storage/online.go relies on in Redis: string keys, sorted sets and their expiry.
use ppchat.Prelude.{
  ℕ, ◌≤◌, ◌≡◌, String, ite, Bool, true, false, ◌&&◌, Option, none, some, List, [], ◌∷◌, ltb, leb,
  if◌then◌else◌, length, str_dec, ◌≢◌,
}

-- Milliseconds, and seconds.
abbrev pub Time : Type 0
Time = ℕ

abbrev pub Second : Type 0
Second = ℕ

abbrev pub occurs : String → List String → Bool
occurs t [] = false
occurs t (s ∷ ss) = ite (str_dec s t) true (occurs t ss)

-- A score from `lo` on, up to `hi` where there is one; `-inf` is 0.
abbrev pub within : Second → Option Second → Option Second → Bool
within lo hi none = false
within lo none (some s) = leb lo s
within lo (some hi) (some s) = leb lo s && leb s hi

-- A deadline that has not passed.
abbrev pub alive : Time → Option Time → Bool
alive now none = true
alive now (some t) = ltb now t

-- Redis, by its documented behaviour on the commands that the scripts call; a script and a
-- `TxPipeline` run as one step. The strings (`holds`) and the sorted sets (`score`) are observed apart,
-- since no name serves for both. The clock moves by `pass` only, to a time that is not before.
pub record RedisIndex : Type 1 where
  pub Keys : Type 0
  pub holds : Keys → String → Bool
  pub score : Keys → String → String → Option Second
  pub deadline : Keys → String → Option Time
  pub set : Keys → String → Option Time → Keys
  pub del : Keys → String → Keys
  pub zadd : Keys → String → Second → String → Keys
  pub zrem : Keys → String → String → Keys
  pub zrem_range : Keys → String → Second → Keys
  pub expire : Keys → String → Time → Time → Keys
  pub pass : Time → Keys → Keys
  pub zrange : Keys → String → Second → Option Second → List String
  pub zcount : Keys → String → Second → Option Second → ℕ
  pub zlast : Keys → String → Second → Option String
  pub holds-set :
      (r : Keys) (k : String) (d : Option Time) (j : String)
      → holds (set r k d) j ≡ ite (str_dec k j) true (holds r j)
  pub score-set :
      (r : Keys) (k : String) (d : Option Time) (z m : String) → score (set r k d) z m ≡ score r z m
  pub deadline-set :
      (r : Keys) (k : String) (d : Option Time) (j : String)
      → deadline (set r k d) j ≡ ite (str_dec k j) d (deadline r j)
  pub holds-del :
      (r : Keys) (k j : String) → holds (del r k) j ≡ ite (str_dec k j) false (holds r j)
  pub score-del :
      (r : Keys) (k z m : String) → score (del r k) z m ≡ ite (str_dec k z) none (score r z m)
  pub deadline-del :
      (r : Keys) (k j : String) → deadline (del r k) j ≡ ite (str_dec k j) none (deadline r j)
  pub holds-zadd :
      (r : Keys) (z : String) (s : Second) (m j : String) → holds (zadd r z s m) j ≡ holds r j
  pub score-zadd :
      (r : Keys) (z : String) (s : Second) (m y n : String)
      → score (zadd r z s m) y n
        ≡ ite (str_dec z y) (ite (str_dec m n) (some s) (score r y n)) (score r y n)
  pub deadline-zadd :
      (r : Keys) (z : String) (s : Second) (m j : String) → deadline (zadd r z s m) j ≡ deadline r j
  pub holds-zrem : (r : Keys) (z m j : String) → holds (zrem r z m) j ≡ holds r j
  pub score-zrem :
      (r : Keys) (z m y n : String)
      → score (zrem r z m) y n
        ≡ ite (str_dec z y) (ite (str_dec m n) none (score r y n)) (score r y n)
  -- A sorted set that becomes empty goes, with its own deadline.
  pub deadline-zrem : (r : Keys) (z m j : String) → z ≢ j → deadline (zrem r z m) j ≡ deadline r j
  pub holds-zrem_range :
      (r : Keys) (z : String) (hi : Second) (j : String) → holds (zrem_range r z hi) j ≡ holds r j
  pub score-zrem_range :
      (r : Keys) (z : String) (hi : Second) (y n : String)
      → score (zrem_range r z hi) y n
        ≡ ite
            (str_dec z y)
            (if within 0 (some hi) (score r y n) then none else score r y n)
            (score r y n)
  -- `expire r k now t`, at the time `now`: a deadline that has passed deletes the key.
  pub holds-expire :
      (r : Keys) (k : String) (now t : Time) (j : String)
      → holds (expire r k now t) j ≡ ite (str_dec k j) (ltb now t && holds r j) (holds r j)
  pub score-expire :
      (r : Keys) (k : String) (now t : Time) (z m : String)
      → score (expire r k now t) z m
        ≡ ite (str_dec k z) (if ltb now t then score r z m else none) (score r z m)
  -- Only a key that is there gets a deadline.
  pub deadline-expire :
      (r : Keys) (k : String) (now t : Time) (j : String)
      → deadline (expire r k now t) j
        ≡ ite (str_dec k j) (deadline (expire r k now t) k) (deadline r j)
  pub deadline-expire_set :
      (r : Keys) (z : String) (now t : Time) (m : String) (s : Second)
      → score (expire r z now t) z m ≡ some s
      → deadline (expire r z now t) z ≡ some t
  pub holds-pass :
      (r : Keys) (t : Time) (k : String)
      → holds (pass t r) k ≡ (alive t (deadline r k) && holds r k)
  pub score-pass :
      (r : Keys) (t : Time) (z m : String)
      → score (pass t r) z m ≡ (if alive t (deadline r z) then score r z m else none)
  -- The members with a score in the range; how many; and one of the last of them.
  pub occurs-zrange :
      (r : Keys) (z : String) (lo : Second) (hi : Option Second) (m : String)
      → occurs m (zrange r z lo hi) ≡ within lo hi (score r z m)
  pub zcount-zrange :
      (r : Keys) (z : String) (lo : Second) (hi : Option Second)
      → zcount r z lo hi ≡ length (zrange r z lo hi)
  pub zlast-none :
      (r : Keys) (z : String) (lo : Second)
      → zlast r z lo ≡ none
      → (m : String) → within lo none (score r z m) ≡ false
  pub zlast-some :
      (r : Keys) (z : String) (lo : Second) (m : String)
      → zlast r z lo ≡ some m
      → (s : Second) × (score r z m ≡ some s)
        × (lo ≤ s)
        × ((n : String) (s' : Second) → score r z n ≡ some s' → s' ≤ s)
