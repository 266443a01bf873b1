-- ===== src/Registry/Balancer.antt =====
-- service/registry/registry.go: the smooth weighted round robin, under its lock.
use Prim.Native.String.{String, ◌∷◌}
use Prim.Native.Char.{code}
use ppchat.Prelude.{
  ℕ, zero, suc, ◌+◌, ◌-◌, ◌*◌, ◌%◌, ite, Bool, true, false, not, ◌&&◌, ◌||◌, Option, none, some,
  List, [], ◌∷◌, map, length, get_elem?, set, ltb, leb, ◌==◌, if◌then◌else◌, str_dec, lookup, ℤ,
  pos, ◌+ℤ◌, ◌-ℤ◌, ltb_ℤ, wrap64,
}
pub mod Items
pub mod Round
pub mod Balanced
pub mod Updated
pub mod Fair
pub mod Choice
mod Tests

-- A map that is nil has no entries.
pub record Instance : Type 0 where
  pub service : String
  pub id : String
  pub address : String
  pub port : ℕ
  pub metadata : List (String × String)
  pub ephemeral : Bool

pub record SwItem : Type 0 where
  pub inst : Instance
  pub weight : ℕ
  pub current : ℤ
  pub effective : Bool

-- The list of `SWRR`; `NewSWRR` has the empty one.
abbrev pub Swrr : Type 0
Swrr = List SwItem

-- `n = n*10 + int(c-'0')` on the 64 bits of an int; `none` for a character that is no digit.
unfoldable parse_digits : ℕ → String → Option ℕ
parse_digits n String.[] = some n
parse_digits n (String.◌∷◌ c s) =
    let rest = parse_digits ((n * 10 + (code c - 48)) % 18446744073709551616) s in
    if leb 48 (code c) && leb (code c) 57 then rest else none

-- Bits that are not a positive int count as 1.
unfoldable positive_or_one : Option ℕ → ℕ
positive_or_one none = 1
positive_or_one (some n) = if ltb 0 n && ltb n 9223372036854775808 then n else 1

abbrev negated : Option ℕ → Option ℕ
negated none = none
negated (some n) = some ((18446744073709551616 - n) % 18446744073709551616)

unfoldable parse_text : String → ℕ
unfolding parse_digits positive_or_one
parse_text String.[] = 1
parse_text (String.◌∷◌ c s) =
    if code c == b'-'
    then positive_or_one (negated (parse_digits 0 s))
    else positive_or_one (parse_digits 0 (String.◌∷◌ c s))

unfoldable pub parse_weight : List (String × String) → ℕ
unfolding parse_text lookup
parse_weight meta = elim (lookup str_dec "weight" meta) [ none ↦ 1 | some wstr ↦ parse_text wstr ]

abbrev pub new_item : Instance → SwItem
new_item inst = record {
  inst = inst;
  weight = parse_weight inst.metadata;
  current = pos 0;
  effective = true;
}

-- `Update`
abbrev pub update : List Instance → Swrr
update insts = map new_item insts

-- `best == nil || it.current > best.current`, where `best` is a position and its `current`
abbrev beats : ℤ → Option (ℕ × ℤ) → Bool
beats current none = true
beats current (some (i, c)) = ltb_ℤ c current

-- The body of the loop of `Next`, for the item at `i`.
unfoldable visit : ℕ → ℤ → Option (ℕ × ℤ) → SwItem → SwItem × ℤ × Option (ℕ × ℤ)
unfolding wrap64 ◌+ℤ◌
visit i total best it =
    if not it.effective || (it.weight == 0)
    then (it, total, best)
    else let current = wrap64 (it.current +ℤ pos it.weight) in
      (
        record it { current = current },
        wrap64 (total +ℤ pos it.weight),
        if beats current best then some (i, current) else best,
      )

unfoldable visit_each : ℕ → ℤ → Option (ℕ × ℤ) → Swrr → Swrr × ℤ × Option (ℕ × ℤ)
unfolding visit
visit_each i total best [] = ([], total, best)
visit_each i total best (it ∷ its) =
    let (it', total', best') = visit i total best it in
    let (its', total_all, best_all) = visit_each (suc i) total' best' its in
    (it' ∷ its', total_all, best_all)

-- `best.current -= total`
unfoldable settle : Swrr → ℕ → ℤ → Option SwItem → Swrr × Option Instance
unfolding wrap64 ◌-ℤ◌
settle its i total none = (its, none)
settle its i total (some it) =
    (set its i (record it { current = wrap64 (it.current -ℤ total) }), some it.inst)

unfoldable settle_best : Swrr → ℤ → Option (ℕ × ℤ) → Swrr × Option Instance
unfolding settle
settle_best its total none = (its, none)
settle_best its total (some (i, c)) = settle its i total (get_elem? its i)

-- `Next`
unfoldable pub next : Swrr → Swrr × Option Instance
unfolding visit_each settle_best
next [] = ([], none)
next (it ∷ its) =
    let (items, total, best) = visit_each 0 (pos 0) none (it ∷ its) in settle_best items total best
