-- ===== src/Chat/ConnManager/Capacity.antt =====
-- `MaxPerUser`: how many connections a user may have.
use ppchat.Prelude.{
  ◌≤◌, ◌<◌, ◌≡◌, ◌⊎◌, refl, String, false, Option, none, some, arith, ltb, ◌==◌, Bool-cases,
  Option-cases, ite_elim, if_elim, inl, inr, str_dec, lookup, subst, sym, lookup-erase, ◌↔◌,
}
use ppchat.Chat.ConnManager.Index.{
  Ptr, conns_of, entry, size, size-link-le, size-cut-le, size-unlink-le, size-cut-lt, entry-cut,
}
use ppchat.Chat.ConnManager.State.{Socket, Time, WsConn, ConnManager, Outcome, evict, evict-fields}
use ppchat.Chat.ConnManager.Ops.{
  ensure_room, add_authorized, register, bind_user, bind_room, bind_to, unbind,
}
use ppchat.Chat.ConnManager.Adding.{unbind-Moving}
use ppchat.Chat.ConnManager.Room.{oldest-lookup, oldest-ne-none, oldest-le}
use ppchat.Chat.ConnManager.Invariant.{IsValidBut, IsValid}

-- No user has more connections than the limit, where there is one.
abbrev pub IsBounded : ConnManager → Type 0
IsBounded m = 0 < m.conf.max_per_user → (u : String) → size u m.by_user ≤ m.conf.max_per_user

-- There is room for one more of the user.
record HasRoom (user : String) (m : ConnManager) : Type 0 where
  room : 0 < m.conf.max_per_user → size user m.by_user < m.conf.max_per_user
  rest : IsBounded m

evict-HasRoom :
    (user sid : String) (p : Ptr) (m : ConnManager)
    → entry user sid m.by_user ≡ some p
    → (m.heap p).snow_id ≡ sid
    → IsBounded m
    → HasRoom user (evict user p m)
evict-HasRoom user sid p m at named b =
    let f = evict-fields user p m in
    let cut_at : entry user (m.heap p).snow_id m.by_user ≡ some p = rw named at in
    record {
      room = λ pos. ground (
        arith,
        f,
        b,
        b (ground arith) user,
        size-cut-lt user (m.heap p).snow_id p m.by_user cut_at,
      );
      rest = λ pos u.
          ground (arith, f, b (ground arith) u, size-cut-le user (m.heap p).snow_id m.by_user u);
    }

ensure_room-HasRoom :
    {ex : Option Ptr} (user : String) (m m' : ConnManager)
    → IsValidBut ex m
    → IsBounded m
    → ensure_room user m ≡ some m'
    → HasRoom user m'
unfolding ensure_room entry
ensure_room-HasRoom user m m' v b e = elim (Bool-cases (m.conf.max_per_user == 0)) [
  | inl free ↦
      let same : m ≡ m' = ground arith in
      subst (HasRoom user) same
        (record { room = λ pos. absurd (ground arith); rest = λ pos u. absurd (ground arith) })
  | inr limit ↦ elim (Bool-cases (ltb (size user m.by_user) m.conf.max_per_user)) [
    | inl room ↦
        let same : m ≡ m' = ground arith in
        subst (HasRoom user) same (record { room = λ pos. ground arith; rest = b })
    | inr full ↦
        let (p, found) =
          oldest-ne-none m.heap (conns_of user m.by_user) (unfold size in ground arith) in
        let (sid, at) = oldest-lookup m.heap _ p (v.unique_user user) found in
        let gone : evict user p m ≡ m' = ground arith in
        subst (HasRoom user) gone
          (evict-HasRoom user sid p m at (v.linked.named sid p (v.linked.held user sid p at)) b)
  ]
]

abbrev Within : ConnManager × Outcome → Type 0
Within r = IsBounded r.0

-- A registered connection takes the room that was made.
add_authorized-IsBounded :
    (p : Ptr) (user sid : String) (c : Option Socket) (now : Time) (m : ConnManager)
    → IsValid m
    → IsBounded m
    → IsBounded (add_authorized p user sid c now m).0
unfolding add_authorized register
add_authorized-IsBounded p user sid none now m v b = b
add_authorized-IsBounded p user sid (some c) now m v b =
    ite_elim Within (str_dec user "") (λ _. b)
      λ _.
        ite_elim Within (str_dec sid "") (λ _. b)
          λ _. elim (Option-cases (lookup str_dec sid m.by_snow)) [
            | inr (q, taken) ↦ rw taken b
            | inl new ↦ elim (Option-cases (ensure_room user m)) [
              | inl full ↦ rw (new, full) b
              | inr (m1, room) ↦
                  rw (new, room)
                    λ pos u.
                      let h = ensure_room-HasRoom user m m1 v b room in
                      ground (arith, h.room pos, h.rest pos u, size-link-le user sid m1.by_user u p)
            ]
          ]

unbind-IsBounded :
    (p : Ptr) (user : String) (m : ConnManager) → IsBounded m → IsBounded (unbind p user m)
unfolding unbind
unbind-IsBounded p user m b =
    let w : WsConn = m.heap p in
    if_elim IsBounded w.authorized
      (λ _.
        ite_elim IsBounded (str_dec w.user_id "") (λ _. b)
          λ _.
            ite_elim IsBounded (str_dec w.user_id user) (λ _. b)
              λ _ pos u. omega (arith, b pos u, size-unlink-le w.user_id w.snow_id m.by_user u))
      (λ _. b)

bind_room-IsBounded :
    {ex : Option Ptr} (p : Ptr) (c : Socket) (user : String) (now : Time) (m1 : ConnManager)
    → IsValidBut ex m1
    → IsBounded m1
    → (room : Option ConnManager) → ensure_room user m1 ≡ room
    → Within (bind_room p c user now m1 room)
unfolding bind_room bind_to
bind_room-IsBounded p c user now m1 v b none e pos u = b pos u
bind_room-IsBounded p c user now m1 v b (some m2) e pos u =
    let h = ensure_room-HasRoom user m1 m2 v b e in
    ground (arith, h.room pos, h.rest pos u, size-link-le user (m2.heap p).snow_id m2.by_user u p)

-- A connection that its user has already is not taken off.
unbind_same :
    (p : Ptr) (user : String) (m : ConnManager) → (m.heap p).user_id ≡ user → unbind p user m ≡ m
unfolding unbind
unbind_same p user m same = ground arith

bind_user-IsBounded :
    (sid user : String) (now : Time) (m : ConnManager)
    → IsValid m
    → IsBounded m
    → IsBounded (bind_user sid user now m).0
unfolding bind_user
bind_user-IsBounded sid user now m v b =
    ite_elim Within (str_dec sid "") (λ _. b)
      λ _.
        ite_elim Within (str_dec user "") (λ _. b)
          λ _. elim (Option-cases (lookup str_dec sid m.by_snow)) [
            | inl missing ↦ rw missing b
            | inr (p, at) ↦ elim (Option-cases (m.heap p).conn) [
              | inl shut ↦ rw (at, shut) b
              | inr (c, opened) ↦
                  rw (at, opened)
                    (elim (str_dec (m.heap p).user_id user) [
                      | yes same ↦
                          bind_room-IsBounded p c user now (unbind p user m)
                            (subst IsValid (sym (unbind_same p user m same)) v)
                            (unbind-IsBounded p user m b) _ refl
                      | no other ↦
                          bind_room-IsBounded p c user now (unbind p user m)
                            (unbind-Moving sid user p m v at (λ _. other)).valid
                            (unbind-IsBounded p user m b) _ refl
                    ])
            ]
          ]

-- No limit, or no user above it.
abbrev pub Fits : ConnManager → Type 0
Fits m = (m.conf.max_per_user ≡ 0) ⊎ ((u : String) → size u m.by_user ≤ m.conf.max_per_user)

IsBounded-Fits : (m : ConnManager) → IsBounded m → Fits m
IsBounded-Fits m b = elim (Bool-cases (m.conf.max_per_user == 0)) [
  | inl free ↦ inl (ground arith)
  | inr limit ↦ inr (b (ground arith))
]

Fits-IsBounded : (m : ConnManager) → Fits m → IsBounded m
Fits-IsBounded m fits pos u = elim fits [ inl free ↦ absurd (omega arith) | inr b ↦ b u ]

-- Where the indexes are consistent, and `MaxPerUser` is 0 or no user has more connections than it
-- allows, the same holds after a `BindUser` and after an `AddAuthorized`, however these end.
pub max_per_user_bound :
    (p : Ptr) (sid user : String) (c : Option Socket) (now : Time) (m : ConnManager)
    → IsValid m
    → Fits m
    → Fits (bind_user sid user now m).0 × Fits (add_authorized p user sid c now m).0
max_per_user_bound p sid user c now m v fits =
    let b = Fits-IsBounded m fits in
    (
      IsBounded-Fits (bind_user sid user now m).0 (bind_user-IsBounded sid user now m v b),
      IsBounded-Fits (add_authorized p user sid c now m).0
          (add_authorized-IsBounded p user sid c now m v b),
    )

-- `ensureRoomForUserLocked` panics exactly when there is a limit, the user has reached it, and
-- `EvictOldest` is not set.
ensure_room-none_iff :
    (user : String) (m : ConnManager)
    → (ensure_room user m ≡ none) ↔ (
        (0 < m.conf.max_per_user)
        × (m.conf.max_per_user ≤ size user m.by_user)
        × (m.conf.evict_oldest ≡ false))
unfolding ensure_room
ensure_room-none_iff user m = (λ e. (ground arith, ground arith, ground arith), λ h. ground arith)

-- Where the indexes are consistent, the user has reached a positive limit, and
-- `ensureRoomForUserLocked` does not panic, one connection of the user leaves both indexes, which was
-- created no later than any other of that user.
ensure_room-oldest :
    (user : String) (m m' : ConnManager)
    → IsValid m
    → 0 < m.conf.max_per_user
    → m.conf.max_per_user ≤ size user m.by_user
    → ensure_room user m ≡ some m'
    → (sid : String) × (p : Ptr) × (entry user sid m.by_user ≡ some p)
      × (lookup str_dec sid m'.by_snow ≡ none)
      × (entry user sid m'.by_user ≡ none)
      × ((s : String) (q : Ptr)
          → entry user s m.by_user ≡ some q
          → (m.heap p).created_at ≤ (m.heap q).created_at)
unfolding entry
ensure_room-oldest user m m' v pos full e =
    let (p, found) = oldest-ne-none m.heap (conns_of user m.by_user) (unfold size in omega arith) in
    let (sid, at) = oldest-lookup m.heap _ p (v.unique_user user) found in
    let gone : evict user p m ≡ m' = unfold ensure_room in ground arith in
    let named = v.linked.named sid p (v.linked.held user sid p at) in
    let f = evict-fields user p m in
    (
      sid,
      p,
      at,
      ground (arith, f, named, lookup-erase str_dec (m.heap p).snow_id sid m.by_snow),
      ground (arith, f, named, entry-cut user (m.heap p).snow_id m.by_user user sid),
      oldest-le m.heap _ p found,
    )
