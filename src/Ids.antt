-- ===== src/Ids.antt =====
-- tools/ids/snowid.go: the generator of snowflake ids. `next` reads the clock again and again; its
-- readings are a list, and `none` means that it ended before `next` had an id. The mutex makes `next`
-- one step. A mask of low bits is a remainder, and a shift a product.
mod Bits
pub mod Order
pub mod Unique
mod Tests
use Prim.Native.Nat.{bit_or}
use ppchat.Prelude.{
  ℕ, zero, suc, ◌+◌, ◌-◌, ◌*◌, ◌%◌, ◌^◌, Option, none, some, List, [], ◌∷◌, ltb, leb, ◌==◌,
  if◌then◌else◌,
}

-- Milliseconds.
abbrev pub Time : Type 0
Time = ℕ

pub record Generator : Type 0 where
  pub epoch_ms : Time
  pub node_id : ℕ
  pub seq : ℕ
  pub last_ts_ms : Time

-- The generator that `initDefault` makes: 2020-01-01 in UTC, node 1.
abbrev pub default_gen : Generator
default_gen = record { epoch_ms = 1577836800000; node_id = 1; seq = 0; last_ts_ms = 0 }

-- A negative node also gives 1.
unfoldable pub set_node_id : ℕ → Generator → Generator
set_node_id node g = record g { node_id = if ltb 1023 node then 1 else node }

-- The mask keeps the difference modulo 2 ^ 41, also where the clock is before the epoch.
unfoldable pub id_of : Generator → ℕ
id_of g =
    let ts = (g.last_ts_ms + 2 ^ 41 - g.epoch_ms % 2 ^ 41) % 2 ^ 41 in
    bit_or (bit_or (ts * 2 ^ 22) (g.node_id * 2 ^ 12)) g.seq

-- `for now <= g.lastTSMS { now = time.Now().UnixMilli() }`
unfoldable pub wait_past : Time → List Time → Option (Time × List Time)
wait_past last [] = none
wait_past last (now ∷ clock) =
    let later = wait_past last clock in if leb now last then later else some (now, clock)

-- `g.lastTSMS = now`, and the id.
unfoldable pub stamp : Generator → Time × List Time → Generator × ℕ × List Time
unfolding id_of
stamp g (now, clock) = let g' = record g { last_ts_ms = now } in (g', id_of g', clock)

unfoldable pub stamp_waited :
    Generator → Option (Time × List Time) → Option (Generator × ℕ × List Time)
stamp_waited g none = none
stamp_waited g (some r) = some (stamp g r)

-- The branch `now == g.lastTSMS`.
unfoldable pub next_same : Generator → Time → List Time → Option (Generator × ℕ × List Time)
next_same g now clock =
    let g' = record g { seq = (g.seq + 1) % 4096 } in
    if g'.seq == 0
    then stamp_waited g' (wait_past g.last_ts_ms clock)
    else some (stamp g' (now, clock))

unfoldable pub next : Generator → List Time → Option (Generator × ℕ × List Time)
next g [] = none
next g (now ∷ clock) =
    let again = next g clock in
    if ltb now g.last_ts_ms
    then again
    else if now == g.last_ts_ms
    then next_same g now clock
    else some (stamp (record g { seq = 0 }) (now, clock))

-- The ids of up to `n` calls in turn, until the clock's readings end.
unfoldable pub take_ids : ℕ → Generator → List Time → List ℕ
take_ids zero g clock = []
take_ids (suc n) g clock = elim (next g clock) [
  | none ↦ []
  | some (g', id, rest) ↦ id ∷ take_ids n g' rest
]
