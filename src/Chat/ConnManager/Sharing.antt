-- ===== src/Chat/ConnManager/Sharing.antt =====
-- What the legacy index `conns` and the user index do to each other.
use mathlib.Core.List.{Memᴰ}
use ppchat.Prelude.{
  ◌≤◌, ◌<◌, ◌≡◌, ◌≢◌, refl, String, if_neg, true, Option, none, some, List, [], ◌∷◌, arith,
  Option-cases, inl, inr, str_dec, lookup, erase, lookup-insert, lookup-erase, sym, subst, ite_elim,
  ◌∙◌, ap,
}
use ppchat.Chat.ConnManager.Index.{Ptr, SnowMap, UserMap, conns_of, entry, cut, size, entry-link}
use ppchat.Chat.ConnManager.State.{
  Socket, Time, WsConn, ConnManager, Outcome, ok, close_quiet, close_quiet-fields, first_conn,
  sockets, relink, oldest, evict, evict-fields,
}
use ppchat.Chat.ConnManager.Ops.{ensure_room, unbind, bind_to, bind_room, bind_user}
use ppchat.Chat.ConnManager.Invariant.{IsValid, ensure_room_result}
use ppchat.Chat.ConnManager.Reads.{get, get_all}

-- The repair of one user's legacy entry leaves the others alone.
relink-lookup_ne :
    (heap : Ptr → WsConn) (user old : String) (shut : Option Socket) (mm : SnowMap)
    (conns : List (String × Socket))
    → user ≢ old
    → lookup str_dec old (relink heap user shut mm conns) ≡ lookup str_dec old conns
unfolding relink
relink-lookup_ne heap user old shut mm conns ne = elim (Option-cases (first_conn heap mm)) [
  | inl nobody ↦ ground (arith, lookup-erase str_dec user old conns)
  | inr (c, found) ↦ ground (arith, lookup-insert str_dec user old c conns)
]

evict-lookup_ne :
    (user old : String) (p : Ptr) (m : ConnManager)
    → user ≢ old
    → lookup str_dec old (evict user p m).conns ≡ lookup str_dec old m.conns
unfolding evict
evict-lookup_ne user old p m ne =
    let w : WsConn = m.heap p in
    let us : UserMap = cut user w.snow_id m.by_user in
    ground (
      arith,
      close_quiet-fields w.conn (record m {
        by_user = us;
        by_snow = erase str_dec w.snow_id m.by_snow;
        conns = relink m.heap user w.conn (conns_of user us) m.conns;
      }),
      relink-lookup_ne m.heap user old w.conn (conns_of user us) m.conns ne,
    )

ensure_room-lookup_ne :
    (user old : String) (m m' : ConnManager)
    → user ≢ old
    → ensure_room user m ≡ some m'
    → (lookup str_dec old m'.conns ≡ lookup str_dec old m.conns) × (m'.heap ≡ m.heap)
ensure_room-lookup_ne user old m m' ne e = elim (ensure_room_result user m m' e) [
  | inl same ↦ (rw same refl, rw same refl)
  | inr (p, found, gone) ↦
      (rw (← gone) (evict-lookup_ne user old p m ne), rw (← gone) (evict-fields user p m).0)
]

bind_room-legacy :
    (p : Ptr) (c : Socket) (user old : String) (now : Time) (m1 : ConnManager)
    → user ≢ old
    → (room : Option ConnManager) → ensure_room user m1 ≡ room
    → lookup str_dec old (bind_room p c user now m1 room).0.conns ≡ lookup str_dec old m1.conns
unfolding bind_room bind_to
bind_room-legacy p c user old now m1 ne none e = refl
bind_room-legacy p c user old now m1 ne (some m2) e =
    ground
      (arith, ensure_room-lookup_ne user old m1 m2 ne e, lookup-insert str_dec user old c m2.conns)

unbind-conns :
    (p : Ptr) (user : String) (m : ConnManager)
    → ((unbind p user m).conns ≡ m.conns) × ((unbind p user m).heap ≡ m.heap)
unfolding unbind
unbind-conns p user m = (ground arith, ground arith)

-- `BindUser` leaves the legacy entry of every other user as it is, whatever the connection was
-- bound to before.
bind_user-legacy :
    (sid user old : String) (now : Time) (m : ConnManager)
    → user ≢ old
    → lookup str_dec old (bind_user sid user now m).0.conns ≡ lookup str_dec old m.conns
unfolding bind_user
bind_user-legacy sid user old now m ne =
    ite_elim Same (str_dec sid "") (λ _. refl)
      λ _.
        ite_elim Same (str_dec user "") (λ _. refl)
          λ _. elim (Option-cases (lookup str_dec sid m.by_snow)) [
            | inl missing ↦ rw missing
            | inr (p, at) ↦ elim (Option-cases (m.heap p).conn) [
              | inl shut ↦ rw (at, shut)
              | inr (c, opened) ↦
                  rw (at, opened)
                    (bind_room-legacy p c user old now (unbind p user m) ne _ refl
                      ∙ ap (lookup str_dec old) (unbind-conns p user m).0)
            ]
          ]
  where
    Same : ConnManager × Outcome → Type 0
    Same r = lookup str_dec old r.0.conns ≡ lookup str_dec old m.conns

-- Where `BindUser` succeeds, the user then has the connection under its id.
bind_room-get :
    (p : Ptr) (c : Socket) (sid user : String) (now : Time) (m1 : ConnManager)
    → sid ≢ ""
    → (m1.heap p).snow_id ≡ sid
    → (m1.heap p).conn ≡ some c
    → (room : Option ConnManager) → ensure_room user m1 ≡ room
    → (bind_room p c user now m1 room).1 ≡ ok
    → get user sid (bind_room p c user now m1 room).0 ≡ some c
unfolding bind_room bind_to get
bind_room-get p c sid user now m1 ne named opened none e done = absurd (cc)
bind_room-get p c sid user now m1 ne named opened (some m2) e done =
    let same : m2.heap ≡ m1.heap = elim (ensure_room_result user m1 m2 e) [
      | inl stay ↦ rw stay refl
      | inr (q, found, left) ↦ rw (← left) (evict-fields user q m1).0
    ] in
    ground (arith, same, entry-link user (m2.heap p).snow_id p m2.by_user user sid)

evict-closed :
    (user : String) (p : Ptr) (m : ConnManager) (c : Socket)
    → (m.heap p).conn ≡ some c
    → (evict user p m).closed ≡ c ∷ m.closed
unfolding evict close_quiet
evict-closed user p m c opened = rw opened

sockets-mem :
    (heap : Ptr → WsConn) (mm : SnowMap) (sid : String) (p : Ptr) (c : Socket)
    → lookup str_dec sid mm ≡ some p
    → (heap p).conn ≡ some c
    → Memᴰ c (sockets heap mm)
unfolding sockets lookup
sockets-mem heap [] sid p c at opened = absurd (cc)
sockets-mem heap ((j, q) ∷ mm) sid p c at opened = elim (Option-cases (heap q).conn) [
  | inl shut ↦ rw (shut, sockets) (sockets-mem heap mm sid p c (ground arith) opened)
  | inr (d, open_q) ↦
      rw (open_q, sockets)
        (elim (str_dec j sid) [
          | yes here ↦ Memᴰ.head (ground arith)
          | no there ↦ Memᴰ.tail (sockets-mem heap mm sid p c (ground arith) opened)
        ])
]

-- `BindUser` past its checks.
bind_user_lem :
    (sid user : String) (now : Time) (m : ConnManager) (p : Ptr) (c : Socket)
    → sid ≢ ""
    → user ≢ ""
    → lookup str_dec sid m.by_snow ≡ some p
    → (m.heap p).conn ≡ some c
    → bind_user sid user now m
      ≡ bind_room p c user now (unbind p user m) (ensure_room user (unbind p user m))
unfolding bind_user
bind_user_lem sid user now m p c some_sid some_user at opened =
    rw (if_neg _ some_sid, if_neg _ some_user, at, opened)

-- Where the indexes are consistent, and a connection to whose socket the legacy entry of user `old`
-- points is bound to another user, with success, `Get(old, "")` still returns its socket, and so does
-- `Get` of the other user with its id.
pub bind_user-stale :
    (sid user old : String) (now : Time) (m : ConnManager) (p : Ptr) (c : Socket)
    → IsValid m
    → sid ≢ ""
    → user ≢ ""
    → user ≢ old
    → lookup str_dec sid m.by_snow ≡ some p
    → (m.heap p).conn ≡ some c
    → lookup str_dec old m.conns ≡ some c
    → (bind_user sid user now m).1 ≡ ok
    → (get old "" (bind_user sid user now m).0 ≡ some c)
      × (get user sid (bind_user sid user now m).0 ≡ some c)
unfolding get
bind_user-stale sid user old now m p c v some_sid some_user ne at opened legacy done =
    let m1 : ConnManager = unbind p user m in
    let past = bind_user_lem sid user now m p c some_sid some_user at opened in
    let same = (unbind-conns p user m).1 in
    (
      ground (arith, bind_user-legacy sid user old now m ne),
      subst (λ r. get user sid r.0 ≡ some c) (sym past)
          (bind_room-get p c sid user now m1 some_sid (rw same (v.linked.named sid p at))
            (rw same opened) (ensure_room user m1) refl (subst (λ r. r.1 ≡ ok) past done)),
    )

-- Where the indexes are consistent, `EvictOldest` is set, and a connection of a user who is at a
-- positive limit, the oldest that is found, is bound to that user again, it evicts itself: it is then
-- listed under its user and absent from the main index, and its socket is closed.
bind_user_evicts_itself :
    (sid user : String) (now : Time) (m : ConnManager) (p : Ptr) (c : Socket)
    → IsValid m
    → sid ≢ ""
    → entry user sid m.by_user ≡ some p
    → (m.heap p).conn ≡ some c
    → 0 < m.conf.max_per_user
    → m.conf.max_per_user ≤ size user m.by_user
    → m.conf.evict_oldest ≡ true
    → oldest m.heap none (conns_of user m.by_user) ≡ some p
    → (entry user sid (bind_user sid user now m).0.by_user ≡ some p)
      × (lookup str_dec sid (bind_user sid user now m).0.by_snow ≡ none)
      × Memᴰ c (bind_user sid user now m).0.closed
bind_user_evicts_itself sid user now m p c v some_sid held opened pos full set found =
    let at = v.linked.held user sid p held in
    let owner = v.linked.owned user sid p held in
    let named = v.linked.named sid p at in
    let stay : unbind p user m ≡ m = unfold unbind in ground arith in
    let room : ensure_room user m ≡ some (evict user p m) = unfold ensure_room in ground arith in
    let past : bind_user sid user now m ≡ bind_room p c user now m (some (evict user p m)) =
      bind_user_lem sid user now m p c some_sid owner.2 at opened ∙ rw (stay, room) in
    let f = evict-fields user p m in
    rw past (
      unfold bind_room bind_to in
      (
        ground (
          arith,
          f,
          named,
          entry-link user ((evict user p m).heap p).snow_id p (evict user p m).by_user user sid,
        ),
        ground (arith, f, named, lookup-erase str_dec (m.heap p).snow_id sid m.by_snow),
        subst (Memᴰ c) (sym (evict-closed user p m c opened)) (Memᴰ.head refl),
      ))

-- Where the legacy entry of a user is the socket of one of its connections, `GetAll` returns that
-- socket twice.
get_all_twice :
    (user sid : String) (m : ConnManager) (p : Ptr) (c : Socket)
    → entry user sid m.by_user ≡ some p
    → (m.heap p).conn ≡ some c
    → lookup str_dec user m.conns ≡ some c
    → (rest : List Socket) × (get_all user m ≡ c ∷ rest) × Memᴰ c rest
unfolding get_all entry
get_all_twice user sid m p c held opened legacy =
    (sockets m.heap (conns_of user m.by_user), rw legacy, sockets-mem m.heap _ sid p c held opened)
