-- ===== src/Errs.antt =====
-- tools/errs/coderr.go: the errors with codes, and the relation of codes. A code is not negative.
pub mod Relation
mod Tests
use Prim.Native.String.{◌++◌}
use ppchat.Prelude.{
  ℕ, ◌≡◌, String, ite, Bool, true, false, ◌||◌, Option, none, some, List, [], ◌∷◌, length, ltb,
  ◌==◌, if◌then◌else◌, str_dec, ℕ_discrete, lookup, insert,
}

-- A `map[int]struct{}`, and the map of these.
abbrev pub CodeSet : Type 0
CodeSet = List (ℕ × Unit {0})

abbrev pub CodeRelation : Type 0
CodeRelation = List (ℕ × CodeSet)

abbrev pub or_empty : Option CodeSet → CodeSet
or_empty none = []
or_empty (some s) = s

-- `for _, code := range codes[i:] { s[code] = struct{}{} }`
unfoldable pub add_all : List ℕ → CodeSet → CodeSet
add_all [] s = s
add_all (code ∷ codes) s = add_all codes (insert ℕ_discrete code tt s)

-- A round of the loop of `Add`, for `parent` and the codes after it.
unfoldable pub relate : ℕ → List ℕ → CodeRelation → CodeRelation
relate parent codes r =
    insert ℕ_discrete parent (add_all codes (or_empty (lookup ℕ_discrete parent r))) r

-- The loop, which has no round for the last code.
unfoldable pub relate_each : List ℕ → CodeRelation → CodeRelation
relate_each [] r = r
relate_each (parent ∷ []) r = r
relate_each (parent ∷ code ∷ codes) r = relate_each (code ∷ codes) (relate parent (code ∷ codes) r)

-- The relation after `Add`, and whether it returns no error.
unfoldable pub add_codes : List ℕ → CodeRelation → CodeRelation × Bool
add_codes codes r = if ltb (length codes) 2 then (r, false) else (relate_each codes r, true)

unfoldable pub has_code : ℕ → CodeSet → Bool
has_code code s = elim (lookup ℕ_discrete code s) [ none ↦ false | some u ↦ true ]

unfoldable pub is_related : CodeRelation → ℕ → ℕ → Bool
unfolding has_code
is_related r parent child =
    if parent == child
    then true
    else elim (lookup ℕ_discrete parent r) [ none ↦ false | some s ↦ has_code child s ]

pub record CodeError : Type 0 where
  pub code : ℕ
  pub msg : String
  pub detail : String

abbrev pub new_code_error : ℕ → String → CodeError
new_code_error code msg = record { code = code; msg = msg; detail = "" }

-- `CodeError.Is`
unfoldable pub error_is : CodeRelation → CodeError → CodeError → Bool
unfolding is_related
error_is r e err = if e.code == err.code then true else is_related r e.code err.code

unfoldable pub with_detail : String → CodeError → CodeError
with_detail detail e = record e {
  detail = ite (str_dec e.detail "") detail (e.detail ++ ", " ++ detail);
}

-- `text` is `toString` of the message and the pairs, or nothing where there are none of both.
unfoldable pub wrapped : Option String → CodeError → CodeError
unfolding with_detail
wrapped none e = e
wrapped (some text) e = with_detail text e

-- `Error()`, with `itoa` for strconv.Itoa.
unfoldable pub error_text : (ℕ → String) → CodeError → String
error_text itoa e =
    let start = itoa e.code ++ " " ++ e.msg in
    ite (str_dec e.detail "") start (start ++ " " ++ e.detail)
