-- ===== src/Seq/Allocator/Weights.antt =====
-- Who holds a number of a conversation: the segment in Redis, a call that is about to store a segment,
-- or a call that has returned.
use ppchat.Prelude.{
  ℕ, zero, suc, ◌+◌, ◌≤◌, ◌≡◌, ◌≢◌, refl, arith, String, ite, ◌&&◌, Option, none, some, List, [],
  ◌∷◌, ◌++◌, get_elem?, set, ltb, leb, if◌then◌else◌, str_dec,
}
use ppchat.Seq.Allocator.{
  Malloc, Pc, trying, allocating, setting, issuing, done, failed, positive_need,
}

-- The numbers above `curr`, up to `end`, are still to be granted.
abbrev pub seg_weight : Option ℕ → Option ℕ → ℕ → ℕ
seg_weight none last x = 0
seg_weight (some curr) none x = 0
seg_weight (some curr) (some last) x = if ltb curr x && leb x last then 1 else 0

abbrev pub pc_weight : ℕ → Pc → ℕ → ℕ
pc_weight need trying x = 0
pc_weight need (allocating i) x = 0
pc_weight need (setting i start last) x = if leb start x && leb x last then 1 else 0
pc_weight need (issuing i last) x = 0
pc_weight need (done start) x = if leb start x && ltb x (start + positive_need need) then 1 else 0
pc_weight need failed x = 0

abbrev pub weight : String → String → ℕ → Malloc → ℕ
weight t c x m =
    ite (str_dec m.tenant_id t) (ite (str_dec m.conversation_id c) (pc_weight m.need m.pc x) 0) 0

module _ (t c : String) (x : ℕ) where
  abbrev pub total : List Malloc → ℕ
  total [] = 0
  total (m ∷ ms) = weight t c x m + total ms

  pub total-append : (ms ns : List Malloc) → total (ms ++ ns) ≡ total ms + total ns
  total-append [] ns = omega arith
  total-append (m ∷ ms) ns = omega (arith, total-append ms ns)

  pub total-set :
      (ms : List Malloc) (i : ℕ) (m m' : Malloc)
      → get_elem? ms i ≡ some m
      → total (set ms i m') + weight t c x m ≡ total ms + weight t c x m'
  total-set [] i m m' at = absurd (cc)
  total-set (n ∷ ms) zero m m' at = let same : n ≡ m = ground arith in rw same (omega arith)
  total-set (n ∷ ms) (suc i) m m' at = omega (arith, total-set ms i m m' at)

  pub weight-le-total :
      (ms : List Malloc) (i : ℕ) (m : Malloc) → get_elem? ms i ≡ some m → weight t c x m ≤ total ms
  weight-le-total [] i m at = absurd (cc)
  weight-le-total (n ∷ ms) zero m at = let same : n ≡ m = ground arith in rw same (omega arith)
  weight-le-total (n ∷ ms) (suc i) m at = omega (arith, weight-le-total ms i m at)

  -- Two calls in a list weigh no more than the list.
  pub weights-le-total :
      (ms : List Malloc) (i j : ℕ) (m n : Malloc)
      → get_elem? ms i ≡ some m
      → get_elem? ms j ≡ some n
      → i ≢ j
      → weight t c x m + weight t c x n ≤ total ms
  weights-le-total [] i j m n at at' apart = absurd (cc)
  weights-le-total (k ∷ ms) zero zero m n at at' apart = absurd (apart refl)
  weights-le-total (k ∷ ms) zero (suc j) m n at at' apart =
      let same : k ≡ m = ground arith in rw same (omega (arith, weight-le-total ms j n at'))
  weights-le-total (k ∷ ms) (suc i) zero m n at at' apart =
      let same : k ≡ n = ground arith in rw same (omega (arith, weight-le-total ms i m at))
  weights-le-total (k ∷ ms) (suc i) (suc j) m n at at' apart =
      omega (arith, weights-le-total ms i j m n at at' (λ e. apart (omega arith)))
