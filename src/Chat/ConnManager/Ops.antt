-- ===== src/Chat/ConnManager/Ops.antt =====
-- The methods of `ConnManager` that change its state. Each returns the state that it leaves and how
-- it ends; a `*WsConn` that a method allocates (with `new`, or from the pool) has the address `p`.
use ppchat.Prelude.{
  ◌+◌, String, ite, Bool, true, false, not, Option, none, some, List, [], ◌∷◌, ◌==◌, ltb,
  if◌then◌else◌, str_dec, lookup, insert, erase,
}
use ppchat.Chat.ConnManager.Index.{Ptr, SnowMap, conns_of, link, unlink, drop, size}
use ppchat.Chat.ConnManager.State.{
  Socket, Time, WsConn, ConnManager, snow_id_conn_empty, snow_id_exists, snow_id_not_found,
  snow_id_user_empty, user_snow_id_conn_empty, snow_id_empty, Outcome, ok, failed, panicked, write,
  close_quiet, oldest, evict,
}

-- A connection is registered: a fresh `WsConn`, with all that a constructor literal sets.
abbrev pub new_conn : String → String → Bool → Socket → Time → Time → WsConn
new_conn sid user authorized c ttl now = record {
  snow_id = sid;
  user_id = user;
  authorized = authorized;
  conn = some c;
  created_at = now;
  updated_at = now;
  ttl = ttl;
  expire_at = now + ttl;
  heartbeat = now;
}

-- `none` stands for the panic.
unfoldable pub ensure_room : String → ConnManager → Option ConnManager
ensure_room user m =
    if m.conf.max_per_user == 0
    then some m
    else if ltb (size user m.by_user) m.conf.max_per_user
    then some m
    else if not m.conf.evict_oldest
    then none
    else elim (oldest m.heap none (conns_of user m.by_user)) [
      | none ↦ some m
      | some p ↦ some (evict user p m)
    ]

-- The loop `for sid, w := range mm { delete(m.bySnow, sid); closeQuiet(w.Conn) }`.
unfoldable pub close_all : SnowMap → ConnManager → ConnManager
close_all [] m = m
close_all ((sid, p) ∷ mm) m =
    close_all mm (close_quiet (m.heap p).conn (record m { by_snow = erase str_dec sid m.by_snow }))

unfoldable pub remove : String → ConnManager → ConnManager
remove user m = ite (str_dec user "") m (
    let m' =
      close_all (conns_of user m.by_user) (record m { conns = erase str_dec user m.conns }) in
    record m' { by_user = drop user m'.by_user })

unfoldable pub add : Ptr → String → String → Option Socket → Time → ConnManager → ConnManager
add p user sid none now m = m
add p user sid (some c) now m = ite (str_dec user "") m (
    let m1 =
      close_all (conns_of user m.by_user) (record m { conns = insert str_dec user c m.conns }) in
    record m1 {
      heap = write m1.heap p (new_conn sid user true c m.conf.auth_ttl now);
      by_snow = insert str_dec sid p m1.by_snow;
      by_user = insert str_dec user ((sid, p) ∷ []) (drop user m1.by_user);
    })

unfoldable pub add_unauth :
    Ptr → String → Option Socket → Time → ConnManager → ConnManager × Outcome
add_unauth p sid none now m = (m, failed snow_id_conn_empty)
add_unauth p sid (some c) now m =
    ite (str_dec sid "") (m, failed snow_id_conn_empty)
      (elim (lookup str_dec sid m.by_snow) [
        | some q ↦ (m, failed snow_id_exists)
        | none ↦ (
          record m {
            heap = write m.heap p (new_conn sid "" false c m.conf.unauth_ttl now);
            by_snow = insert str_dec sid p m.by_snow;
          },
          ok,
        )
      ])

-- `if _, ex := m.conns[user]; !ex { m.conns[user] = c }`
abbrev pub fill : String → Socket → List (String × Socket) → List (String × Socket)
fill user c conns = elim (lookup str_dec user conns) [
  | none ↦ insert str_dec user c conns
  | some old ↦ conns
]

-- `w` is taken off the index of the user that it is bound to, if that is another.
unfoldable pub unbind : Ptr → String → ConnManager → ConnManager
unbind p user m =
    let w = m.heap p in
    if w.authorized
    then ite (str_dec w.user_id "") m (
        ite (str_dec w.user_id user) m
          (record m { by_user = unlink w.user_id w.snow_id m.by_user }))
    else m

-- The cell of a connection that is bound to a user.
abbrev pub bound : WsConn → String → Time → Time → WsConn
bound w user ttl now = record w {
  user_id = user;
  authorized = true;
  ttl = ttl;
  expire_at = now + ttl;
  updated_at = now;
  heartbeat = now;
}

-- The rest of `BindUser`, once there is room.
unfoldable pub bind_to : Ptr → Socket → String → Time → ConnManager → ConnManager
bind_to p c user now m =
    let w = m.heap p in
    record m {
      by_user = link user w.snow_id p m.by_user;
      heap = write m.heap p (bound w user m.conf.auth_ttl now);
      conns = fill user c m.conns;
    }

-- `BindUser` from the call of `ensureRoomForUserLocked` on, given what that call returns.
unfoldable pub bind_room :
    Ptr → Socket → String → Time → ConnManager → Option ConnManager → ConnManager × Outcome
bind_room p c user now m1 none = (m1, panicked)
bind_room p c user now m1 (some m2) = (bind_to p c user now m2, ok)

unfoldable pub bind_user : String → String → Time → ConnManager → ConnManager × Outcome
bind_user sid user now m =
    ite (str_dec sid "") (m, failed snow_id_user_empty)
      (ite (str_dec user "") (m, failed snow_id_user_empty)
        (elim (lookup str_dec sid m.by_snow) [
          | none ↦ (m, failed snow_id_not_found)
          | some p ↦ elim (m.heap p).conn [
            | none ↦ (m, failed snow_id_not_found)
            | some c ↦ let m1 = unbind p user m in bind_room p c user now m1 (ensure_room user m1)
          ]
        ]))

unfoldable pub register : Ptr → String → String → Socket → Time → ConnManager → ConnManager
register p user sid c now m = record m {
  heap = write m.heap p (new_conn sid user true c m.conf.auth_ttl now);
  by_snow = insert str_dec sid p m.by_snow;
  by_user = link user sid p m.by_user;
  conns = fill user c m.conns;
}

unfoldable pub add_authorized :
    Ptr → String → String → Option Socket → Time → ConnManager → ConnManager × Outcome
add_authorized p user sid none now m = (m, failed user_snow_id_conn_empty)
add_authorized p user sid (some c) now m =
    ite (str_dec user "") (m, failed user_snow_id_conn_empty)
      (ite (str_dec sid "") (m, failed user_snow_id_conn_empty)
        (elim (lookup str_dec sid m.by_snow) [
          | some q ↦ (m, failed snow_id_exists)
          | none ↦ elim (ensure_room user m) [
            | none ↦ (m, panicked)
            | some m1 ↦ (register p user sid c now m1, ok)
          ]
        ]))

unfoldable pub heartbeat : String → Time → ConnManager → ConnManager × Outcome
heartbeat sid now m =
    ite (str_dec sid "") (m, failed snow_id_empty)
      (elim (lookup str_dec sid m.by_snow) [
        | none ↦ (m, failed snow_id_not_found)
        | some p ↦ elim (m.heap p).conn [
          | none ↦ (m, failed snow_id_not_found)
          | some c ↦
              let w = m.heap p in
              (
                record m {
                  heap =
                      write m.heap p
                        (record w { heartbeat = now; expire_at = now + w.ttl; updated_at = now });
                },
                ok,
              )
        ]
      ])
