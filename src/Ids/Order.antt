-- ===== src/Ids/Order.antt =====
-- The ids of one generator increase, and those of two nodes differ.
use ppchat.Prelude.{
  ℕ, ◌+◌, ◌-◌, ◌*◌, ◌%◌, ◌^◌, ◌≤◌, ◌<◌, ◌≡◌, ◌⊎◌, inl, inr, refl, arith, Option, none, some, List,
  [], ◌∷◌, ltb, leb, ◌==◌, if_elim,
}
use ppchat.Ids.Bits.{bit_or-12, bit_or-22}
use ppchat.Ids.{Time, Generator, id_of, wait_past, stamp, stamp_waited, next_same, next}

-- The node and the sequence fit their bits.
abbrev pub IsFit : Generator → Type 0
IsFit g = (g.node_id < 1024) × (g.seq < 4096)

-- The clock is in the 2 ^ 41 milliseconds from the epoch on.
abbrev pub InEra : Time → List Time → Type 0
InEra epoch [] = Unit {0}
InEra epoch (t ∷ clock) = (epoch ≤ t) × (t < epoch + 2 ^ 41) × InEra epoch clock

-- The three fields of an id.
pub id_of-parts :
    (g : Generator)
    → IsFit g
    → g.epoch_ms ≤ g.last_ts_ms
    → g.last_ts_ms < g.epoch_ms + 2 ^ 41
    → id_of g ≡ ((g.last_ts_ms - g.epoch_ms) * 2 ^ 10 + g.node_id) * 2 ^ 12 + g.seq
unfolding id_of
id_of-parts g fit from until =
    let ts = g.last_ts_ms - g.epoch_ms in
    let masked : (g.last_ts_ms + 2 ^ 41 - g.epoch_ms % 2 ^ 41) % 2 ^ 41 ≡ ts =
      omega (arith, from, until) in
    let joined : ts * 2 ^ 22 + g.node_id * 2 ^ 12 ≡ (ts * 2 ^ 10 + g.node_id) * 2 ^ 12 =
      omega arith in
    rw (masked, bit_or-22 ts (g.node_id * 2 ^ 12) (omega (arith, fit)), joined)
      (bit_or-12 (ts * 2 ^ 10 + g.node_id) g.seq fit.1)

-- What a call of `next` on `g` may end with, given the clock that it read: a later stamp of the same
-- node, of a time that the clock showed.
pub record IsNext (g : Generator) (g' : Generator) : Type 0 where
  pub fit : IsFit g'
  pub same_node : g'.node_id ≡ g.node_id
  pub same_epoch : g'.epoch_ms ≡ g.epoch_ms
  pub later : (g.last_ts_ms < g'.last_ts_ms) ⊎ ((g'.last_ts_ms ≡ g.last_ts_ms) × (g.seq < g'.seq))
  pub from : g'.epoch_ms ≤ g'.last_ts_ms
  pub until : g'.last_ts_ms < g'.epoch_ms + 2 ^ 41

abbrev pub Ends : Generator → Option (Generator × ℕ × List Time) → Type 0
Ends g none = Unit
Ends g (some (g', id, clock)) = IsNext g g' × (id ≡ id_of g') × InEra g.epoch_ms clock

abbrev Waited : Time → Time → Option (Time × List Time) → Type 0
Waited last epoch none = Unit
Waited last epoch (some (now, rest)) =
    (last < now) × (epoch ≤ now) × (now < epoch + 2 ^ 41) × InEra epoch rest

wait_past_lem :
    (last epoch : Time) (clock : List Time)
    → InEra epoch clock
    → Waited last epoch (wait_past last clock)
unfolding wait_past
wait_past_lem last epoch [] era = tt
wait_past_lem last epoch (now ∷ clock) era =
    if_elim (Waited last epoch) (leb now last) (λ early. wait_past_lem last epoch clock era.2)
      (λ past. (ground (arith, past), era.0, era.1, era.2))

stamp_waited-Ends :
    (g : Generator) (r : Option (Time × List Time))
    → IsFit g
    → Waited g.last_ts_ms g.epoch_ms r
    → Ends g (stamp_waited (record g { seq = 0 }) r)
unfolding stamp_waited stamp
stamp_waited-Ends g none fit w = tt
stamp_waited-Ends g (some (now, rest)) fit w = (
  record {
    fit = (fit.0, omega arith);
    same_node = refl;
    same_epoch = refl;
    later = inl w.0;
    from = w.1;
    until = w.2;
  },
  refl,
  w.3,
)

next_same-Ends :
    (g : Generator) (now : Time) (clock : List Time)
    → IsFit g
    → now ≡ g.last_ts_ms
    → InEra g.epoch_ms (now ∷ clock)
    → Ends g (next_same g now clock)
unfolding next_same
next_same-Ends g now clock fit same era =
    if_elim (Ends g) ((g.seq + 1) % 4096 == 0)
      (λ full.
        let zero_seq : (g.seq + 1) % 4096 ≡ 0 = ground (arith, full) in
        rw zero_seq (
          stamp_waited-Ends g (wait_past g.last_ts_ms clock) fit
            (wait_past_lem g.last_ts_ms g.epoch_ms clock era.2)))
      (λ room.
        unfold stamp in
        (
          record {
            fit = (fit.0, omega arith);
            same_node = refl;
            same_epoch = refl;
            later = inr (same, ground (arith, room, fit));
            from = era.0;
            until = era.1;
          },
          refl,
          era.2,
        ))

pub next-Ends :
    (g : Generator) (clock : List Time) → IsFit g → InEra g.epoch_ms clock → Ends g (next g clock)
unfolding next
next-Ends g [] fit era = tt
next-Ends g (now ∷ clock) fit era =
    if_elim (Ends g) (ltb now g.last_ts_ms) (λ back. next-Ends g clock fit era.2)
      (λ ahead.
        if_elim (Ends g) (now == g.last_ts_ms)
          (λ same. next_same-Ends g now clock fit (ground (arith, same)) era)
          (λ later.
            unfold stamp in
            (
              record {
                fit = (fit.0, omega arith);
                same_node = refl;
                same_epoch = refl;
                later = inl (ground (arith, ahead, later));
                from = era.0;
                until = era.1;
              },
              refl,
              era.2,
            )))
