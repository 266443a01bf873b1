-- ===== src/Errs/Tests.antt =====
-- Runs of tools/errs/coderr.go.
use ppchat.Prelude.{ℕ, ◌≡◌, ◌||◌, List, [], ◌∷◌, length, ltb}
use ppchat.Errs.{CodeRelation, add_codes, is_related}
use ppchat.Errs.Relation.{precedes, add_codes-is_related}

abbrev codes : List ℕ
codes = 1000 ∷ 1001 ∷ 1002 ∷ []

abbrev no_relation : CodeRelation
no_relation = []

add_codes-is_related_example :
    (is_related (add_codes codes no_relation).0 1000 1002
      ≡ is_related no_relation 1000 1002 || precedes 1000 1002 codes)
    × ((add_codes codes no_relation).1 ≡ ltb 1 (length codes))
add_codes-is_related_example = add_codes-is_related codes no_relation 1000 1002
