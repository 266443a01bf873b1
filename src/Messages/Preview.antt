-- ===== src/Messages/Preview.antt =====
-- How long the preview of a message in module/chat/service/message.go is (`TrimPreview`).
use Prim.Native.String.{String, ◌++◌}
use text.Mathlib.TextLemmas.{nil-append, cons-append}
use ppchat.Prelude.{ℕ, zero, suc, ◌+◌, ◌≡◌, ◌≤◌, refl, ap, arith, Bool-cases, inl, inr, ltb}
use ppchat.Messages.Copy.{Packages, rune_count, first_runes, preview, trim_preview}

rune_count-append : (s t : String) → rune_count (s ++ t) ≡ rune_count s + rune_count t
unfolding rune_count
rune_count-append String.[] t = rw (nil-append t) (omega arith)
rune_count-append (String.◌∷◌ c s) t = rw (cons-append c s t) (omega (arith, rune_count-append s t))

rune_count-first_runes : (n : ℕ) (s : String) → n ≤ rune_count s → rune_count (first_runes n s) ≡ n
unfolding rune_count first_runes
rune_count-first_runes zero s le = refl
rune_count-first_runes (suc n) String.[] le = absurd (omega arith)
rune_count-first_runes (suc n) (String.◌∷◌ c s) le =
    omega (arith, rune_count-first_runes n s (omega arith))

first_runes-append :
    (n : ℕ) (s t : String)
    → n ≤ rune_count s
    → first_runes n (first_runes n s ++ t) ≡ first_runes n s
unfolding rune_count first_runes
first_runes-append zero s t le = refl
first_runes-append (suc n) String.[] t le = absurd (omega arith)
first_runes-append (suc n) (String.◌∷◌ c s) t le =
    rw (cons-append c (first_runes n s) t)
      (ap (String.◌∷◌ c) (first_runes-append n s t (omega arith)))

module _ {Json Struct : Type 0} (p : Packages Json Struct) where
  -- `TrimPreview` returns at most 121 characters: the trimmed text where that has at most 120, and
  -- otherwise 121, the first 120 of which are those of the trimmed text.
  pub trim_preview_bound :
      (s : String)
      → (rune_count (trim_preview p s) ≤ 121)
        × (rune_count (p.trim_space s) ≤ 120 → trim_preview p s ≡ p.trim_space s)
        × (121 ≤ rune_count (p.trim_space s)
            → (rune_count (trim_preview p s) ≡ 121)
              × (first_runes 120 (trim_preview p s) ≡ first_runes 120 (p.trim_space s)))
  unfolding trim_preview preview
  trim_preview_bound s =
      let t = p.trim_space s in
      elim (Bool-cases (ltb 120 (rune_count t))) [
        | inl long ↦
            let many : 120 ≤ rune_count t = ground (arith, long) in
            let total : rune_count (first_runes 120 t ++ "…") ≡ 121 = omega (
              arith,
              rune_count-append (first_runes 120 t) "…",
              rune_count-first_runes 120 t many,
            ) in
            rw long (
              omega (arith, total),
              λ short. absurd (ground (arith, long, short)),
              λ _. (total, first_runes-append 120 t "…" many),
            )
        | inr short ↦
            let few : rune_count t ≤ 120 = ground (arith, short) in
            rw short (omega arith, λ _. refl, λ long. absurd (omega arith))
      ]
