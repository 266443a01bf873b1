-- ===== src/Errs/Relation.antt =====
-- Which codes `Add` relates.
use ppchat.Prelude.{
  ℕ, ◌≡◌, refl, arith, Bool, false, ◌||◌, ◌&&◌, List, [], ◌∷◌, length, ltb, ◌==◌, ℕ_discrete,
  lookup, insert, lookup-insert,
}
use ppchat.Errs.{
  CodeSet, CodeRelation, or_empty, add_all, relate, relate_each, add_codes, has_code, is_related,
  CodeError, error_is,
}

abbrev pub occurs : ℕ → List ℕ → Bool
occurs c [] = false
occurs c (d ∷ ds) = (d == c) || occurs c ds

-- `p` stands before `c` in the list.
abbrev pub precedes : ℕ → ℕ → List ℕ → Bool
precedes p c [] = false
precedes p c (d ∷ ds) = ((d == p) && occurs c ds) || precedes p c ds

abbrev held : ℕ → ℕ → CodeRelation → Bool
held p c r = has_code c (or_empty (lookup ℕ_discrete p r))

has_code-add_all :
    (c : ℕ) (codes : List ℕ) (s : CodeSet)
    → has_code c (add_all codes s) ≡ has_code c s || occurs c codes
unfolding add_all has_code
has_code-add_all c [] s = ground arith
has_code-add_all c (d ∷ ds) s =
    ground
      (arith, has_code-add_all c ds (insert ℕ_discrete d tt s), lookup-insert ℕ_discrete d c tt s)

held-relate :
    (p c parent : ℕ) (codes : List ℕ) (r : CodeRelation)
    → held p c (relate parent codes r) ≡ held p c r || ((parent == p) && occurs c codes)
unfolding relate
held-relate p c parent codes r =
    let old = or_empty (lookup ℕ_discrete parent r) in
    ground
      (arith, lookup-insert ℕ_discrete parent p (add_all codes old) r, has_code-add_all c codes old)

held-relate_each :
    (p c : ℕ) (codes : List ℕ) (r : CodeRelation)
    → held p c (relate_each codes r) ≡ held p c r || precedes p c codes
unfolding relate_each
held-relate_each p c [] r = ground arith
held-relate_each p c (d ∷ []) r = ground arith
held-relate_each p c (d ∷ e ∷ es) r =
    ground
      (arith, held-relate_each p c (e ∷ es) (relate d (e ∷ es) r), held-relate p c d (e ∷ es) r)

is_related_lem : (p c : ℕ) (r : CodeRelation) → is_related r p c ≡ (p == c) || held p c r
unfolding is_related has_code lookup
is_related_lem p c r = ground arith

-- A short list has no round.
add_codes_lem : (codes : List ℕ) (r : CodeRelation) → (add_codes codes r).0 ≡ relate_each codes r
unfolding add_codes relate_each
add_codes_lem [] r = refl
add_codes_lem (d ∷ []) r = refl
add_codes_lem (d ∷ e ∷ es) r = unfold relate_each in ground arith

-- After an `Add` of any list of codes, the relation holds of a parent and a child exactly if it held
-- before, or the parent stands before the child in the list; an `Add` of fewer than two codes returns
-- an error and changes nothing.
pub add_codes-is_related :
    (codes : List ℕ) (r : CodeRelation) (p c : ℕ)
    → (is_related (add_codes codes r).0 p c ≡ is_related r p c || precedes p c codes)
      × ((add_codes codes r).1 ≡ ltb 1 (length codes))
add_codes-is_related codes r p c = (
  rw (add_codes_lem codes r) (
      ground (
        arith,
        is_related_lem p c (relate_each codes r),
        is_related_lem p c r,
        held-relate_each p c codes r,
      )),
  unfold add_codes in ground arith,
)

-- After an `Add` of any list of codes, `Is` matches two errors exactly if it matched them before, or the
-- code of the first stands before that of the second in the list.
error_is-add_codes :
    (codes : List ℕ) (r : CodeRelation) (e err : CodeError)
    → error_is (add_codes codes r).0 e err ≡ error_is r e err || precedes e.code err.code codes
unfolding error_is
error_is-add_codes codes r e err = ground (arith, add_codes-is_related codes r e.code err.code)
