-- ===== src/Nats/Idem/Once.antt =====
-- How long a key counts as seen.
use ppchat.Prelude.{
  ℕ, ◌+◌, ◌<◌, ◌≡◌, arith, String, true, false, some, List, [], ◌∷◌, ◌==◌, if◌then◌else◌, str_dec,
  lookup, lookup-insert,
}
use ppchat.Nats.Idem.{Time, unix, MemIdem, purge, clean, seen_once}

-- An operation on the store, with the times of its readings of the clock.
pub data Op : Type 0 where
  sees : String → Time → Time → Time → Op
  cleans : Time → Op

pub run_op : Op → MemIdem → MemIdem
unfolding seen_once clean
run_op (sees key ttl called locked) mi = (seen_once key ttl called locked mi).0
run_op (cleans now) mi = clean now mi

unfoldable pub run_ops : List Op → MemIdem → MemIdem
run_ops [] mi = mi
run_ops (o ∷ os) mi = run_ops os (run_op o mi)

-- The clock shows a second before `until` when the operation decides.
abbrev pub Before : ℕ → Op → Type 0
Before until (sees key ttl called locked) = unix locked < until
Before until (cleans now) = unix now < until

abbrev pub AllBefore : ℕ → List Op → Type 0
AllBefore until [] = Unit {0}
AllBefore until (o ∷ os) = Before until o × AllBefore until os

-- The key is known to expire at `until`, and the map has it once.
lookup-purge :
    (now : ℕ) (key : String) (exp : ℕ) (m : List (String × ℕ))
    → lookup str_dec key m ≡ some exp
    → now < exp
    → lookup str_dec key (purge now m) ≡ some exp
unfolding lookup purge
lookup-purge now key exp [] at alive_now = absurd (cc)
lookup-purge now key exp ((k, e) ∷ m) at alive_now = ground (arith, lookup-purge now key exp m)

run_op-keeps :
    (o : Op) (mi : MemIdem) (key : String) (until : ℕ)
    → lookup str_dec key mi.m ≡ some until
    → Before until o
    → lookup str_dec key (run_op o mi).m ≡ some until
unfolding run_op
run_op-keeps (cleans now) mi key until at before = lookup-purge (unix now) key until mi.m at before
run_op-keeps (sees k ttl called locked) mi key until at before =
    ground
      (arith, lookup-insert str_dec k key (unix (called + (if ttl == 0 then mi.ttl else ttl))) mi.m)

run_ops-keeps :
    (os : List Op) (mi : MemIdem) (key : String) (until : ℕ)
    → lookup str_dec key mi.m ≡ some until
    → AllBefore until os
    → lookup str_dec key (run_ops os mi).m ≡ some until
unfolding run_ops
run_ops-keeps [] mi key until at before = at
run_ops-keeps (o ∷ os) mi key until at before =
    run_ops-keeps os (run_op o mi) key until (run_op-keeps o mi key until at before.0) before.1

-- After a `SeenOnce` that answers that a key is new, every `SeenOnce` for the key answers that it was
-- seen, until the second in which the ttl of the first ends, whatever other operations, cleanings
-- included, run in between.
pub seen_once-window :
    (key : String) (ttl called locked : Time) (mi : MemIdem) (os : List Op)
    (ttl' called' locked' : Time)
    → let until = unix (called + (if ttl == 0 then mi.ttl else ttl)) in
      (seen_once key ttl called locked mi).1 ≡ false
      → AllBefore until os
      → unix locked' < until
      → (seen_once key ttl' called' locked' (run_ops os (seen_once key ttl called locked mi).0)).1
        ≡ true
seen_once-window key ttl called locked mi os ttl' called' locked' new before within =
    let until = unix (called + (if ttl == 0 then mi.ttl else ttl)) in
    let mi1 : MemIdem = (seen_once key ttl called locked mi).0 in
    let stored : lookup str_dec key mi1.m ≡ some until =
      unfold seen_once in ground (arith, new, lookup-insert str_dec key key until mi.m) in
    let kept = run_ops-keeps os mi1 key until stored before in
    unfold seen_once in ground (arith, kept, within)
