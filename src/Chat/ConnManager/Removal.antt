-- ===== src/Chat/ConnManager/Removal.antt =====
-- How connections leave the manager: `RemoveBySnow`, `KickAllUnauth`, `sweepOnce` and `Close`.
use ppchat.Prelude.{
  ℕ, suc, String, ite, Option, none, some, List, [], ◌∷◌, ◌++◌, ◌==◌, ltb, length, if◌then◌else◌,
  str_dec, lookup, insert, erase,
}
use ppchat.Chat.ConnManager.Index.{Ptr, SnowMap, unlink}
use ppchat.Chat.ConnManager.State.{
  Socket, Time, WsConn, ConnManager, same_socket, write, close_quiet, first_conn, relink,
}

-- `if w.Authorized && w.UserId != "" { if mm := ...; mm != nil { ... } }` of `RemoveBySnow`. Both
-- branches of its test `len(mm) == 0` repair the legacy index in the same way.
unfoldable pub detach : WsConn → String → ConnManager → ConnManager
detach w sid m =
    if w.authorized
    then ite (str_dec w.user_id "") m (elim (lookup str_dec w.user_id m.by_user) [
      | none ↦ m
      | some mm ↦ record m {
        by_user = unlink w.user_id sid m.by_user;
        conns = relink m.heap w.user_id w.conn (erase str_dec sid mm) m.conns;
      }
    ])
    else m

unfoldable pub remove_by_snow : String → ConnManager → ConnManager
remove_by_snow sid m = ite (str_dec sid "") m (elim (lookup str_dec sid m.by_snow) [
  | none ↦ m
  | some p ↦
      let w = m.heap p in
      close_quiet w.conn (detach w sid (record m { by_snow = erase str_dec sid m.by_snow }))
])

-- The body of the loop of `KickAllUnauth`.
unfoldable pub kick_entry : String → WsConn → ConnManager → ConnManager
kick_entry sid w m =
    if w.authorized
    then m
    else close_quiet w.conn (record m { by_snow = erase str_dec sid m.by_snow })

-- The loop over the entries of `bySnow`, and its count.
unfoldable pub kick_loop : SnowMap → ℕ → ConnManager → ConnManager × ℕ
kick_loop [] n m = (m, n)
kick_loop ((sid, p) ∷ rest) n m =
    let w = m.heap p in kick_loop rest (if w.authorized then n else suc n) (kick_entry sid w m)

unfoldable pub kick_all_unauth : ConnManager → ConnManager × ℕ
kick_all_unauth m = kick_loop m.by_snow 0 m

-- The legacy index in `sweepOnce`: the entry goes with the last connection of the user; otherwise it
-- is replaced if some other connection has a socket, and stays if none has.
unfoldable pub relink_swept :
    (Ptr → WsConn)
    → String
    → Option Socket
    → SnowMap
    → List (String × Socket)
    → List (String × Socket)
unfolding first_conn
relink_swept heap user shut mm conns = elim (lookup str_dec user conns) [
  | none ↦ conns
  | some old ↦
      if same_socket old shut
      then if length mm == 0
        then erase str_dec user conns
        else elim (first_conn heap mm) [ none ↦ conns | some c ↦ insert str_dec user c conns ]
      else conns
]

unfoldable pub sweep_entry : String → WsConn → ConnManager → ConnManager
sweep_entry sid w m =
    let m' = record m { by_snow = erase str_dec sid m.by_snow } in
    if w.authorized
    then ite (str_dec w.user_id "") m' (elim (lookup str_dec w.user_id m.by_user) [
      | none ↦ m'
      | some mm ↦ record m' {
        by_user = unlink w.user_id sid m.by_user;
        conns = relink_swept m.heap w.user_id w.conn (erase str_dec sid mm) m.conns;
      }
    ])
    else m'

unfoldable pub sweep_due : Time → String → WsConn → ConnManager → ConnManager
sweep_due now sid w m = if ltb w.expire_at now then sweep_entry sid w m else m

-- The loop over `bySnow`; the expired connections are collected.
unfoldable pub sweep_loop : Time → SnowMap → List Ptr → ConnManager → ConnManager × List Ptr
sweep_loop now [] expired m = (m, expired)
sweep_loop now ((sid, p) ∷ rest) expired m =
    let w = m.heap p in
    sweep_loop now rest (if ltb w.expire_at now then expired ++ p ∷ [] else expired)
      (sweep_due now sid w m)

unfoldable pub close_each : List Ptr → ConnManager → ConnManager
close_each [] m = m
close_each (p ∷ ps) m = close_each ps (close_quiet (m.heap p).conn m)

unfoldable pub sweep_once : Time → ConnManager → ConnManager
sweep_once now m = let (m', expired) = sweep_loop now m.by_snow [] m in close_each expired m'

-- `Release` clears the fields but for `Authorized` and the socket.
unfoldable pub release : WsConn → WsConn
release w = record w {
  snow_id = "";
  user_id = "";
  ttl = 0;
  expire_at = 0;
  created_at = 0;
  updated_at = 0;
  heartbeat = 0;
}

-- The loop of `Close`: each socket is closed and its `WsConn` goes back to the pool.
unfoldable pub release_all : SnowMap → ConnManager → ConnManager
unfolding close_quiet release
release_all [] m = m
release_all ((sid, p) ∷ rest) m =
    let m' = close_quiet (m.heap p).conn m in
    release_all rest (record m' { heap = write m'.heap p (release (m'.heap p)) })

unfoldable pub close : ConnManager → ConnManager
unfolding release_all
close m = record (release_all m.by_snow m) { conns = []; by_snow = []; by_user = [] }
