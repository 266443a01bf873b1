-- ===== src/Chat/ConnManager/Expiry.antt =====
-- What one round of the sweeper does.
use mathlib.Core.List.{Memᴰ}
use ppchat.Prelude.{
  ◌≡◌, ◌⊎◌, refl, String, true, Option, none, some, List, [], ◌∷◌, ◌++◌, arith, ltb, if◌then◌else◌,
  Option-cases, Bool-cases, if_elim, inl, inr, str_dec, lookup, erase, Unique, lookup-erase, sym,
}
use ppchat.Chat.ConnManager.Index.{Ptr, SnowMap, entry}
use ppchat.Chat.ConnManager.State.{
  Socket, Time, WsConn, ConnManager, close_quiet, close_quiet-fields,
}
use ppchat.Chat.ConnManager.Removal.{sweep_entry, sweep_due, sweep_loop, close_each, sweep_once}
use ppchat.Chat.ConnManager.Invariant.{IsValid}
use ppchat.Chat.ConnManager.Removing.{sweep_once-IsValid}

sweep_due-fields :
    (now : Time) (s : String) (w : WsConn) (m : ConnManager)
    → ((sweep_due now s w m).heap ≡ m.heap)
      × ((sweep_due now s w m).closed ≡ m.closed)
      × ((sweep_due now s w m).by_snow
          ≡ (if ltb w.expire_at now then erase str_dec s m.by_snow else m.by_snow))
unfolding sweep_due sweep_entry
sweep_due-fields now s w m = (ground arith, ground arith, ground arith)

-- A connection that the sweeper keeps.
abbrev kept : Time → (Ptr → WsConn) → Ptr → Option Ptr
kept now heap p = if ltb (heap p).expire_at now then none else some p

sweep_loop-heap :
    (now : Time) (rest : SnowMap) (expired : List Ptr) (m : ConnManager)
    → (sweep_loop now rest expired m).0.heap ≡ m.heap
unfolding sweep_loop
sweep_loop-heap now [] expired m = refl
sweep_loop-heap now ((s, p) ∷ rest) expired m = ground (
  arith,
  sweep_due-fields now s (m.heap p) m,
  sweep_loop-heap now rest (if ltb (m.heap p).expire_at now then expired ++ p ∷ [] else expired)
      (sweep_due now s (m.heap p) m),
)

sweep_loop-lookup :
    (now : Time) (rest : SnowMap) (expired : List Ptr) (m : ConnManager) (j : String)
    → Unique str_dec rest
    → ((q : Ptr) → lookup str_dec j rest ≡ some q → lookup str_dec j m.by_snow ≡ some q)
    → lookup str_dec j (sweep_loop now rest expired m).0.by_snow ≡ elim (lookup str_dec j rest) [
      | none ↦ lookup str_dec j m.by_snow
      | some q ↦ kept now m.heap q
    ]
unfolding sweep_loop lookup
sweep_loop-lookup now [] expired m j u all = refl
sweep_loop-lookup now ((s, p) ∷ rest) expired m j u all =
    let m' : ConnManager = sweep_due now s (m.heap p) m in
    let f = sweep_due-fields now s (m.heap p) m in
    let law = lookup-erase str_dec s j m.by_snow in
    let all' : (q : Ptr) → lookup str_dec j rest ≡ some q → lookup str_dec j m'.by_snow ≡ some q =
      λ q at. ground (arith, f, law, all q) in
    ground (
      arith,
      f,
      law,
      all p,
      sweep_loop-lookup now rest
          (if ltb (m.heap p).expire_at now then expired ++ p ∷ [] else expired) m' j u.1 all',
    )

close_each-fields :
    (ps : List Ptr) (m : ConnManager)
    → ((close_each ps m).heap ≡ m.heap) × ((close_each ps m).by_snow ≡ m.by_snow)
unfolding close_each
close_each-fields [] m = (refl, refl)
close_each-fields (p ∷ ps) m = ground (
  arith,
  close_quiet-fields (m.heap p).conn m,
  close_each-fields ps (close_quiet (m.heap p).conn m),
)

-- Where the indexes are consistent, the sweeper removes exactly the connections whose time has passed
-- from the main index: for each id, it afterwards has no entry if there was none or `now` is after
-- the connection's `ExpireAt`, and the same connection otherwise.
pub sweep_once-lookup :
    (now : Time) (m : ConnManager) (s : String)
    → IsValid m
    → lookup str_dec s (sweep_once now m).by_snow ≡ elim (lookup str_dec s m.by_snow) [
      | none ↦ none
      | some p ↦ if ltb (m.heap p).expire_at now then none else some p
    ]
unfolding sweep_once
sweep_once-lookup now m s v =
    let loop = sweep_loop now m.by_snow [] m in
    ground (
      arith,
      sweep_loop-lookup now m.by_snow [] m s v.unique_snow (λ q e. e),
      close_each-fields loop.1 loop.0,
    )

sweep_once-heap : (now : Time) (m : ConnManager) → (sweep_once now m).heap ≡ m.heap
unfolding sweep_once
sweep_once-heap now m =
    let loop = sweep_loop now m.by_snow [] m in
    ground (arith, sweep_loop-heap now m.by_snow [] m, close_each-fields loop.1 loop.0)

-- Where the indexes are consistent, a connection that a user lists is no longer listed after a round of
-- the sweeper if `now` is after its `ExpireAt`, and is still listed otherwise.
sweep_once-entry :
    (now : Time) (m : ConnManager) (user s : String) (p : Ptr)
    → IsValid m
    → entry user s m.by_user ≡ some p
    → entry user s (sweep_once now m).by_user
      ≡ (if ltb (m.heap p).expire_at now then none else some p)
sweep_once-entry now m user s p v at =
    let v' = sweep_once-IsValid now m v in
    let swept : ConnManager = sweep_once now m in
    let there = v.linked.held user s p at in
    let owner = v.linked.owned user s p at in
    let law = sweep_once-lookup now m s v in
    let same = sweep_once-heap now m in
    elim (Bool-cases (ltb (m.heap p).expire_at now)) [
      | inl due ↦ elim (Option-cases (entry user s swept.by_user)) [
        | inl gone ↦ rw (due, gone) refl
        | inr (q, left) ↦ absurd (ground (arith, v'.linked.held user s q left))
      ]
      | inr live ↦ ground (arith, v'.linked.listed s p)
    ]

mem-left : {a : Ptr} {xs : List Ptr} (ys : List Ptr) → Memᴰ a xs → Memᴰ a (xs ++ ys)
mem-left ys (Memᴰ.head e) = Memᴰ.head e
mem-left ys (Memᴰ.tail h) = Memᴰ.tail (mem-left ys h)

mem-last : {a b : Ptr} (xs : List Ptr) → b ≡ a → Memᴰ a (xs ++ b ∷ [])
mem-last [] e = Memᴰ.head (sym e)
mem-last (x ∷ xs) e = Memᴰ.tail (mem-last xs e)

close_quiet-mem :
    (c : Option Socket) (m : ConnManager) (k : Socket)
    → (c ≡ some k) ⊎ Memᴰ k m.closed
    → Memᴰ k (close_quiet c m).closed
unfolding close_quiet
close_quiet-mem none m k (inl e) = absurd (cc)
close_quiet-mem none m k (inr h) = h
close_quiet-mem (some c) m k (inl e) = Memᴰ.head (cc)
close_quiet-mem (some c) m k (inr h) = Memᴰ.tail h

close_each-keeps :
    (ps : List Ptr) (m : ConnManager) (k : Socket)
    → Memᴰ k m.closed
    → Memᴰ k (close_each ps m).closed
unfolding close_each
close_each-keeps [] m k h = h
close_each-keeps (p ∷ ps) m k h =
    close_each-keeps ps _ k (close_quiet-mem (m.heap p).conn m k (inr h))

close_each-mem :
    (ps : List Ptr) (m : ConnManager) (p : Ptr) (k : Socket)
    → (m.heap p).conn ≡ some k
    → Memᴰ p ps
    → Memᴰ k (close_each ps m).closed
unfolding close_each
close_each-mem [] m p k opened h = elim h [ ]
close_each-mem (q ∷ ps) m p k opened (Memᴰ.head e) =
    close_each-keeps ps _ k (close_quiet-mem (m.heap q).conn m k (inl (rw (← e) opened)))
close_each-mem (q ∷ ps) m p k opened (Memᴰ.tail h) =
    close_each-mem ps (close_quiet (m.heap q).conn m) p k
      (rw (close_quiet-fields (m.heap q).conn m).0 opened) h

-- What is collected stays collected.
sweep_loop-keeps :
    (now : Time) (rest : SnowMap) (expired : List Ptr) (m : ConnManager) (p : Ptr)
    → Memᴰ p expired
    → Memᴰ p (sweep_loop now rest expired m).1
unfolding sweep_loop
sweep_loop-keeps now [] expired m p h = h
sweep_loop-keeps now ((s, q) ∷ rest) expired m p h =
    sweep_loop-keeps now rest _ _ p
      (if_elim (Memᴰ p) (ltb (m.heap q).expire_at now) (λ _. mem-left (q ∷ []) h) (λ _. h))

sweep_loop-mem :
    (now : Time) (rest : SnowMap) (expired : List Ptr) (m : ConnManager) (s : String) (p : Ptr)
    → lookup str_dec s rest ≡ some p
    → ltb (m.heap p).expire_at now ≡ true
    → Memᴰ p (sweep_loop now rest expired m).1
unfolding sweep_loop lookup
sweep_loop-mem now [] expired m s p at due = absurd (cc)
sweep_loop-mem now ((j, q) ∷ rest) expired m s p at due = elim (str_dec j s) [
  | yes here ↦
      let same : q ≡ p = ground arith in
      sweep_loop-keeps now rest _ _ p (
        if_elim (Memᴰ p) (ltb (m.heap q).expire_at now) (λ _. mem-last expired same)
          (λ live. absurd (ground arith)))
  | no there ↦
      sweep_loop-mem now rest _ (sweep_due now j (m.heap q) m) s p (ground arith)
        (rw (sweep_due-fields now j (m.heap q) m).0 due)
]

-- A round of the sweeper closes the socket of each connection of the main index whose `ExpireAt` is
-- before `now`.
sweep_once-closes :
    (now : Time) (m : ConnManager) (s : String) (p : Ptr) (k : Socket)
    → lookup str_dec s m.by_snow ≡ some p
    → ltb (m.heap p).expire_at now ≡ true
    → (m.heap p).conn ≡ some k
    → Memᴰ k (sweep_once now m).closed
unfolding sweep_once
sweep_once-closes now m s p k at due opened =
    close_each-mem _ _ p k (rw (sweep_loop-heap now m.by_snow [] m) opened)
      (sweep_loop-mem now m.by_snow [] m s p at due)
