-- ===== src/Prelude/Maps.antt =====
-- Go's `map[K]V` as the list of its entries, in the order in which a `range` visits them.
use Prim.Native.Nat.{◌+◌, ◌≤◌, ◌<◌}
use mathlib.Core.Path.{◌≡◌, refl}
use mathlib.Core.Logic.{ite, if_pos, if_neg, ◌≢◌}
use mathlib.Core.List.{List, [], ◌∷◌}
use mathlib.Core.Option.{Option, none, some}
use native.Mathlib.Omega.{arith}
use ppchat.Prelude.Lists.{length}

module _ {ℓ} {K V : Type ℓ} (dec : Discrete K) where
  -- `v, ok := m[k]`
  unfoldable pub lookup : K → List (K × V) → Option V
  lookup k [] = none
  lookup k ((j, v) ∷ m) = ite (dec j k) (some v) (lookup k m)

  -- `m[k] = v`
  unfoldable pub insert : K → V → List (K × V) → List (K × V)
  insert k v [] = (k, v) ∷ []
  insert k v ((j, w) ∷ m) = ite (dec j k) ((k, v) ∷ m) ((j, w) ∷ insert k v m)

  -- `delete(m, k)`
  unfoldable pub erase : K → List (K × V) → List (K × V)
  erase k [] = []
  erase k ((j, v) ∷ m) = let rest = erase k m in ite (dec j k) rest ((j, v) ∷ rest)

  pub lookup-insert :
      (k j : K) (v : V) (m : List (K × V))
      → lookup j (insert k v m) ≡ ite (dec k j) (some v) (lookup j m)
  unfolding lookup insert
  lookup-insert k j v [] = refl
  lookup-insert k j v ((i, w) ∷ m) = ground (arith, lookup-insert k j v m)

  pub lookup-erase :
      (k j : K) (m : List (K × V)) → lookup j (erase k m) ≡ ite (dec k j) none (lookup j m)
  unfolding lookup erase
  lookup-erase k j [] = ground arith
  lookup-erase k j ((i, w) ∷ m) = ground (arith, lookup-erase k j m)

  pub length-insert-le : (k : K) (v : V) (m : List (K × V)) → length (insert k v m) ≤ length m + 1
  unfolding insert
  length-insert-le k v [] = omega arith
  length-insert-le k v ((i, w) ∷ m) = ground (arith, length-insert-le k v m)

  pub length-erase-le : (k : K) (m : List (K × V)) → length (erase k m) ≤ length m
  unfolding erase
  length-erase-le k [] = omega arith
  length-erase-le k ((i, w) ∷ m) = ground (arith, length-erase-le k m)

  pub length-erase-lt :
      (k : K) (v : V) (m : List (K × V)) → lookup k m ≡ some v → length (erase k m) < length m
  unfolding lookup erase
  length-erase-lt k v [] h = absurd (cc)
  length-erase-lt k v ((i, w) ∷ m) h = ground (arith, length-erase-lt k v m, length-erase-le k m)

  pub lookup_of_length-eq-zero : (k : K) (m : List (K × V)) → length m ≡ 0 → lookup k m ≡ none
  unfolding lookup
  lookup_of_length-eq-zero k [] h = refl
  lookup_of_length-eq-zero k (e ∷ m) h = absurd (omega arith)

  -- No key stands twice.
  abbrev pub Unique : List (K × V) → Type ℓ
  Unique [] = Unit
  Unique ((k, v) ∷ m) = (lookup k m ≡ none) × Unique m

  pub insert-Unique : (k : K) (v : V) (m : List (K × V)) → Unique m → Unique (insert k v m)
  unfolding insert lookup
  insert-Unique k v [] u = (refl, tt)
  insert-Unique k v ((j, w) ∷ m) u = elim (dec j k) [
    | yes here ↦ rw (if_pos _ here) (ground arith)
    | no there ↦
        rw (if_neg _ there) (ground (arith, lookup-insert k j v m), insert-Unique k v m u.1)
  ]

  pub erase-Unique : (k : K) (m : List (K × V)) → Unique m → Unique (erase k m)
  unfolding erase lookup
  erase-Unique k [] u = tt
  erase-Unique k ((j, w) ∷ m) u = elim (dec j k) [
    | yes here ↦ rw (if_pos _ here) (erase-Unique k m u.1)
    | no there ↦ rw (if_neg _ there) (ground (arith, lookup-erase k j m), erase-Unique k m u.1)
  ]

  -- An entry of the tail is an entry of the whole.
  pub lookup-tail :
      (k : K) (v : V) (m : List (K × V)) (j : K) (w : V)
      → lookup k m ≡ none
      → lookup j m ≡ some w
      → (k ≢ j) × (lookup j ((k, v) ∷ m) ≡ some w)
  unfolding lookup
  lookup-tail k v m j w absent h = elim (dec k j) [
    | yes same ↦ absurd (cc)
    | no apart ↦ (apart, rw (if_neg _ apart) h)
  ]

  pub lookup-head : (k : K) (v : V) (m : List (K × V)) → lookup k ((k, v) ∷ m) ≡ some v
  unfolding lookup
  lookup-head k v m = if_pos (dec k k) refl _ _
