-- ===== src/Chat/ConnManager/Tests.antt =====
-- Runs of service/chat/conn_manager.go on small managers.
use ppchat.Prelude.{
  ◌≤◌, ◌≡◌, inr, refl, arith, Bool, true, false, none, some, [], ◌∷◌, ltb, if◌then◌else◌, str_dec,
  str-ne, ℕ_discrete, lookup, insert, erase,
}
use ppchat.Chat.ConnManager.Index.{Ptr, conns_of, entry, link, unlink, size}
use ppchat.Chat.ConnManager.State.{ManagerConf, norm, WsConn, ConnManager, ok, oldest, evict, write}
use ppchat.Chat.ConnManager.Ops.{
  new_conn, add_authorized, register, ensure_room, bind_user, bind_room, unbind,
}
use ppchat.Chat.ConnManager.Removal.{sweep_once}
use ppchat.Chat.ConnManager.Reads.{get}
use ppchat.Chat.ConnManager.Invariant.{IsValid}
use ppchat.Chat.ConnManager.Adding.{add_authorized-IsValid}
use ppchat.Chat.ConnManager.History.{new_manager, Step, Reach, Reach-IsValid, new_manager-IsValid}
use ppchat.Chat.ConnManager.Capacity.{Fits, max_per_user_bound}
use ppchat.Chat.ConnManager.Expiry.{sweep_once-lookup}
use ppchat.Chat.ConnManager.Sharing.{bind_user-stale}

abbrev blank : Ptr → WsConn
blank p = record (new_conn "" "" false 0 0 0) { conn = none }

abbrev one_each : Bool → ManagerConf
one_each evicts = record {
  unauth_ttl = 0;
  auth_ttl = 100;
  sweep_every = 0;
  max_per_user = 1;
  evict_oldest = evicts;
}

abbrev empty : ConnManager
empty = new_manager blank (one_each true)

-- The user alice has the connection s1, socket 7, since time 10.
abbrev alice : ConnManager
alice = (add_authorized 1 "alice" "s1" (some 7) 10 empty).0

abbrev alice_shape : ConnManager
alice_shape = record {
  conns = ("alice", 7) ∷ [];
  by_snow = ("s1", 1) ∷ [];
  by_user = ("alice", ("s1", 1) ∷ []) ∷ [];
  conf = norm (one_each true);
  heap = write blank 1 (new_conn "s1" "alice" true 7 100 10);
  closed = [];
}

alice_lem : alice ≡ alice_shape
unfolding add_authorized new_manager ensure_room register insert lookup size conns_of link norm
    str_dec entry
alice_lem = refl

alice-Reach : Reach empty alice
unfolding new_manager lookup
alice-Reach = Reach.next Reach.here (Step.adds_authorized 1 "alice" "s1" (some 7) 10 (λ j e. cc))

Reach-IsValid_example : IsValid alice
Reach-IsValid_example = Reach-IsValid blank (one_each true) alice-Reach

alice-IsValid : IsValid alice
alice-IsValid =
    add_authorized-IsValid 1 "alice" "s1" (some 7) 10 empty
      (new_manager-IsValid blank (one_each true)) (λ j e. unfold new_manager lookup in cc)

at_s1 : lookup str_dec "s1" alice.by_snow ≡ some 1
unfolding lookup str_dec
at_s1 = rw alice_lem refl

held_s1 : entry "alice" "s1" alice.by_user ≡ some 1
unfolding entry conns_of lookup str_dec
held_s1 = rw alice_lem refl

opened_s1 : (alice.heap 1).conn ≡ some 7
unfolding ℕ_discrete
opened_s1 = rw alice_lem refl

legacy_alice : lookup str_dec "alice" alice.conns ≡ some 7
unfolding lookup str_dec
legacy_alice = rw alice_lem refl

full_alice : alice.conf.max_per_user ≤ size "alice" alice.by_user
unfolding size conns_of lookup str_dec norm
full_alice = rw alice_lem (omega arith)

limit_alice : alice.conf.max_per_user ≡ 1
unfolding norm
limit_alice = rw alice_lem refl

evicts_alice : alice.conf.evict_oldest ≡ true
unfolding norm
evicts_alice = rw alice_lem refl

oldest_alice : oldest alice.heap none (conns_of "alice" alice.by_user) ≡ some 1
unfolding conns_of lookup str_dec oldest
oldest_alice = rw alice_lem refl

due_alice : ltb (alice.heap 1).expire_at 500 ≡ true
unfolding ℕ_discrete
due_alice = rw alice_lem refl

empty-Fits : Fits empty
unfolding new_manager norm size conns_of lookup
empty-Fits = inr (λ u. omega arith)

max_per_user_bound_example :
    Fits (bind_user "s1" "alice" 10 empty).0
    × Fits (add_authorized 1 "alice" "s1" (some 7) 10 empty).0
max_per_user_bound_example =
    max_per_user_bound 1 "s1" "alice" (some 7) 10 empty (new_manager-IsValid blank (one_each true))
      empty-Fits

sweep_once-lookup_example :
    lookup str_dec "s1" (sweep_once 500 alice).by_snow ≡ elim (lookup str_dec "s1" alice.by_snow) [
      | none ↦ none
      | some p ↦ if ltb (alice.heap p).expire_at 500 then none else some p
    ]
sweep_once-lookup_example = sweep_once-lookup 500 alice "s1" alice-IsValid

room_alice : ensure_room "alice" alice ≡ some (evict "alice" 1 alice)
unfolding ensure_room
room_alice = ground (arith, full_alice, limit_alice, evicts_alice, oldest_alice)

bob_shape : (bind_user "s1" "bob" 20 alice_shape).1 ≡ ok
unfolding bind_user bind_room unbind ensure_room size conns_of lookup str_dec unlink norm ℕ_discrete
    insert erase
bob_shape = refl

bob_ok : (bind_user "s1" "bob" 20 alice).1 ≡ ok
bob_ok = rw alice_lem bob_shape

bind_user-stale_example :
    (get "alice" "" (bind_user "s1" "bob" 20 alice).0 ≡ some 7)
    × (get "bob" "s1" (bind_user "s1" "bob" 20 alice).0 ≡ some 7)
bind_user-stale_example =
    bind_user-stale "s1" "bob" "alice" 20 alice 1 7 alice-IsValid (str-ne "s1" "" refl)
      (str-ne "bob" "" refl) (str-ne "bob" "alice" refl) at_s1 opened_s1 legacy_alice bob_ok
