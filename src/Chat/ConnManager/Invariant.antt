-- ===== src/Chat/ConnManager/Invariant.antt =====
-- The well-formedness of the manager: its indexes are maps, and they agree with one another and with
-- the cells. Here it is shown of the steps that the methods share.
use ppchat.Prelude.{
  ◌≡◌, ◌⊎◌, String, Option, none, some, arith, ltb, Bool-cases, Option-cases, inl, inr, str_dec,
  Unique, erase-Unique, lookup-erase, ◌==◌, subst,
}
use ppchat.Chat.ConnManager.Index.{Ptr, conns_of, entry, size, entry-cut, IsUnique, cut-IsUnique}
use ppchat.Chat.ConnManager.State.{Socket, ConnManager, close_quiet, oldest, evict}
use ppchat.Chat.ConnManager.Ops.{ensure_room}
use ppchat.Chat.ConnManager.Linked.{Linked, erase-Linked}
use ppchat.Chat.ConnManager.Room.{oldest-lookup}

pub record IsValidBut (ex : Option Ptr) (m : ConnManager) : Type 0 where
  pub linked : Linked ex m.heap m.by_snow m.by_user
  pub unique_snow : Unique str_dec m.by_snow
  pub unique_user : IsUnique m.by_user

abbrev pub IsValid : ConnManager → Type 0
IsValid = IsValidBut none

pub close_quiet-IsValid :
    {ex : Option Ptr} (c : Option Socket) (m : ConnManager)
    → IsValidBut ex m
    → IsValidBut ex (close_quiet c m)
unfolding close_quiet
close_quiet-IsValid none m v = v
close_quiet-IsValid (some c) m v = record {
  linked = v.linked;
  unique_snow = v.unique_snow;
  unique_user = v.unique_user;
}

pub evict-IsValid :
    {ex : Option Ptr} (user sid : String) (p : Ptr) (m : ConnManager)
    → IsValidBut ex m
    → entry user sid m.by_user ≡ some p
    → IsValidBut ex (evict user p m)
unfolding evict
evict-IsValid user sid p m v at =
    let w = m.heap p in
    let at_snow = v.linked.held user sid p at in
    let sid_of : w.snow_id ≡ sid = v.linked.named sid p at_snow in
    close_quiet-IsValid w.conn _ (record {
      linked = rw sid_of (
          erase-Linked v.linked _ _ sid p at_snow (λ j. lookup-erase str_dec sid j m.by_snow)
            (λ u j. rw (v.linked.owned user sid p at).1 (entry-cut user sid m.by_user u j)));
      unique_snow = erase-Unique str_dec w.snow_id m.by_snow v.unique_snow;
      unique_user = cut-IsUnique user m.by_user v.unique_user w.snow_id;
    })

-- Making room changes nothing, or evicts the connection that `oldest` finds.
pub ensure_room_result :
    (user : String) (m m' : ConnManager)
    → ensure_room user m ≡ some m'
    → (m ≡ m')
      ⊎ ((p : Ptr) × (oldest m.heap none (conns_of user m.by_user) ≡ some p)
          × (evict user p m ≡ m'))
unfolding ensure_room
ensure_room_result user m m' e =
    elim (Option-cases (oldest m.heap none (conns_of user m.by_user))) [
      | inl nobody ↦ inl (ground arith)
      | inr (p, found) ↦ elim (Bool-cases (m.conf.max_per_user == 0)) [
        | inl free ↦ inl (ground arith)
        | inr limit ↦ elim (Bool-cases (ltb (size user m.by_user) m.conf.max_per_user)) [
          | inl room ↦ inl (ground arith)
          | inr full ↦ inr (p, found, ground arith)
        ]
      ]
    ]

-- So what holds before, and after the eviction of a connection of the user, holds.
pub ensure_room_cases {ℓ} :
    {ex : Option Ptr} (P : ConnManager → Type ℓ) (user : String) (m m' : ConnManager)
    → IsValidBut ex m
    → P m
    → ((sid : String) (p : Ptr)
        → entry user sid m.by_user ≡ some p
        → oldest m.heap none (conns_of user m.by_user) ≡ some p
        → P (evict user p m))
    → ensure_room user m ≡ some m'
    → P m'
unfolding entry
ensure_room_cases P user m m' v same evicted e = elim (ensure_room_result user m m' e) [
  | inl stay ↦ subst P stay same
  | inr (p, found, gone) ↦
      let (sid, at) = oldest-lookup m.heap _ p (v.unique_user user) found in
      subst P gone (evicted sid p at found)
]

pub ensure_room-IsValid :
    (user : String) (m m' : ConnManager) → IsValid m → ensure_room user m ≡ some m' → IsValid m'
ensure_room-IsValid user m m' v =
    ensure_room_cases IsValid user m m' v v (λ sid p at _. evict-IsValid user sid p m v at)
