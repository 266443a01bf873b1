-- ===== src/Ids/Tests.antt =====
-- Runs of tools/ids/snowid.go.
use mathlib.Core.List.{Memᴰ}
use ppchat.Prelude.{ℕ, ◌≡◌, ◌≢◌, refl, arith, none, some, List, [], ◌∷◌}
use ppchat.Ids.{Time, Generator, default_gen, id_of, stamp, next_same, next, take_ids}
use ppchat.Ids.Order.{IsFit, InEra}
use ppchat.Ids.Unique.{IsIncreasing, take_ids-IsIncreasing, next_apart, next_returns}

-- The clock shows a millisecond twice, goes back, and goes on.
abbrev clock : List Time
clock = 1577836800007 ∷ 1577836800007 ∷ 1577836800005 ∷ 1577836800009 ∷ []

abbrev first : Generator
first = record default_gen { last_ts_ms = 1577836800007 }

abbrev other : Generator
other = record default_gen { node_id = 2 }

clock-InEra : InEra default_gen.epoch_ms clock
clock-InEra = (
  omega arith,
  omega arith,
  (omega arith, omega arith, (omega arith, omega arith, (omega arith, omega arith, tt))),
)

default_gen-IsFit : IsFit default_gen
default_gen-IsFit = (omega arith, omega arith)

take_three : take_ids 5 default_gen clock ≡ 29364224 ∷ 29364225 ∷ 37752832 ∷ []
unfolding take_ids next next_same stamp id_of
take_three = refl

take_ids-IsIncreasing_example : IsIncreasing (take_ids 5 default_gen clock)
take_ids-IsIncreasing_example =
    take_ids-IsIncreasing 5 default_gen clock default_gen-IsFit clock-InEra

first_step :
    next default_gen clock
    ≡ some (first, 29364224, 1577836800007 ∷ 1577836800005 ∷ 1577836800009 ∷ [])
unfolding next stamp id_of
first_step = refl

other_step :
    next other clock
    ≡ some
        (record first { node_id = 2 }, 29368320, 1577836800007 ∷ 1577836800005 ∷ 1577836800009 ∷ [])
unfolding next stamp id_of
other_step = refl

abbrev id_one : ℕ
id_one = 29364224

abbrev id_two : ℕ
id_two = 29368320

next_apart_example : id_one ≢ id_two
next_apart_example =
    next_apart default_gen other first (record first { node_id = 2 }) clock clock
      (1577836800007 ∷ 1577836800005 ∷ 1577836800009 ∷ [])
      (1577836800007 ∷ 1577836800005 ∷ 1577836800009 ∷ []) 29364224 29368320 default_gen-IsFit
      (omega arith, omega arith) (λ e. omega (arith, e)) clock-InEra clock-InEra first_step
      other_step

next_returns_example : next first clock ≢ none
next_returns_example =
    next_returns first 1577836800009 clock (Memᴰ.tail (Memᴰ.tail (Memᴰ.tail (Memᴰ.head refl))))
      (omega arith)
