-- ===== src/Chat/ConnManager/Reads.antt =====
-- The methods that read the indexes or send. A send is the list of the sockets that are written to,
-- and `fails` says for which of them `writeBinary` returns an error.
use ppchat.Prelude.{
  String, ite, Bool, true, false, Option, none, some, List, [], ◌∷◌, ◌++◌, ◌==◌, if◌then◌else◌,
  length, str_dec, lookup,
}
use ppchat.Chat.ConnManager.Index.{Ptr, SnowMap, UserMap, conns_of, entry}
use ppchat.Chat.ConnManager.State.{Socket, WsConn, ConnManager, same_socket, first_conn, sockets}

abbrev pub to_list : Option Socket → List Socket
to_list none = []
to_list (some c) = c ∷ []

unfoldable pub get_all : String → ConnManager → List Socket
get_all user m = to_list (lookup str_dec user m.conns) ++ sockets m.heap (conns_of user m.by_user)

-- The socket of an entry that was looked up.
abbrev socket_at : (Ptr → WsConn) → Option Ptr → Option Socket
socket_at heap none = none
socket_at heap (some p) = (heap p).conn

unfoldable pub get : String → String → ConnManager → Option Socket
get user conn_id m =
    ite (str_dec conn_id "")
      (elim (lookup str_dec user m.conns) [
        | some c ↦ some c
        | none ↦ first_conn m.heap (conns_of user m.by_user)
      ])
      (socket_at m.heap (entry user conn_id m.by_user))

-- The loops of `GetClient`: the first connection with this socket.
unfoldable pub find_conn : (Ptr → WsConn) → Socket → SnowMap → Option Ptr
find_conn heap c [] = none
find_conn heap c ((sid, p) ∷ rest) =
    let next = find_conn heap c rest in if same_socket c (heap p).conn then some p else next

unfoldable pub find_user_conn : (Ptr → WsConn) → Socket → UserMap → Option Ptr
find_user_conn heap c [] = none
find_user_conn heap c ((user, mm) ∷ rest) =
    let next = find_user_conn heap c rest in
    elim (find_conn heap c mm) [ none ↦ next | some p ↦ some p ]

unfoldable pub get_client : Socket → ConnManager → Option Ptr
get_client c m = elim (find_conn m.heap c m.by_snow) [
  | some p ↦ some p
  | none ↦ find_user_conn m.heap c m.by_user
]

unfoldable pub get_unauth_client : String → ConnManager → Option Ptr
get_unauth_client sid m = lookup str_dec sid m.by_snow

-- The pairs that `ListUserConns` puts into its result.
unfoldable pub open_conns : (Ptr → WsConn) → SnowMap → List (String × Socket)
open_conns heap [] = []
open_conns heap ((sid, p) ∷ mm) =
    let rest = open_conns heap mm in elim (heap p).conn [ none ↦ rest | some c ↦ (sid, c) ∷ rest ]

unfoldable pub list_user_conns : String → ConnManager → List (String × Socket)
list_user_conns user m = open_conns m.heap (conns_of user m.by_user)

-- A write to a nil connection is an error, and reaches no socket.
unfoldable pub write_errors : (Socket → Bool) → (Ptr → WsConn) → SnowMap → Bool → Bool
write_errors fails heap [] err = err
write_errors fails heap ((sid, p) ∷ mm) err =
    write_errors fails heap mm
      (elim (heap p).conn [ none ↦ true | some c ↦ if fails c then true else err ])

-- The sockets written to, and whether an error is returned.
unfoldable pub broadcast_user : (Socket → Bool) → String → ConnManager → List Socket × Bool
broadcast_user fails user m =
    let mm = conns_of user m.by_user in (sockets m.heap mm, write_errors fails m.heap mm false)

unfoldable pub send : (Socket → Bool) → String → ConnManager → List Socket × Bool
unfolding broadcast_user
send fails user m =
    let all = broadcast_user fails user m in
    if length (conns_of user m.by_user) == 0
    then elim (lookup str_dec user m.conns) [ none ↦ all | some c ↦ (c ∷ [], fails c) ]
    else all

unfoldable pub send_one : (Socket → Bool) → String → ConnManager → List Socket × Bool
send_one fails sid m = elim (socket_at m.heap (lookup str_dec sid m.by_snow)) [
  | none ↦ ([], true)
  | some c ↦ (c ∷ [], fails c)
]
