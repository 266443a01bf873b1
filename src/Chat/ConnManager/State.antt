-- ===== src/Chat/ConnManager/State.antt =====
-- The types of conn_manager.go and the parts its methods share. The mutex makes each method one
-- step, so a method is a function of the state; the time that `conf.Clock()` returns is an argument,
-- a duration or a limit that is not positive is 0, and a `WsConn` is a cell of the heap, which the
-- two indexes share by address. `Remote`, `RId` and `SendChan` are only carried, and are left out.
use ppchat.Prelude.{
  ℕ, ◌*◌, ◌≡◌, refl, String, ite, Bool, false, Option, none, some, List, [], ◌∷◌, ◌==◌, ltb,
  if◌then◌else◌, str_dec, lookup, insert, erase, ℕ_discrete,
}
use ppchat.Chat.ConnManager.Index.{Ptr, SnowMap, UserMap, conns_of, cut}

-- A `*websocket.Conn` that is not nil.
abbrev pub Socket : Type 0
Socket = ℕ

-- Nanoseconds.
abbrev pub Time : Type 0
Time = ℕ

pub record ManagerConf : Type 0 where
  pub unauth_ttl : Time
  pub auth_ttl : Time
  pub sweep_every : Time
  pub max_per_user : ℕ
  pub evict_oldest : Bool

abbrev second : Time
second = 1000000000

abbrev pub or_default : Time → Time → Time
or_default d t = if t == 0 then d else t

unfoldable pub norm : ManagerConf → ManagerConf
norm c = record c {
  sweep_every = or_default (100 * second) c.sweep_every;
  unauth_ttl = or_default (300 * second) c.unauth_ttl;
  auth_ttl = or_default (200 * 3600 * second) c.auth_ttl;
}

pub record WsConn : Type 0 where
  pub snow_id : String
  pub user_id : String
  pub authorized : Bool
  pub conn : Option Socket
  pub created_at : Time
  pub updated_at : Time
  pub ttl : Time
  pub expire_at : Time
  pub heartbeat : Time

-- `closed` lists the sockets on which `Close` was called, the latest first.
pub record ConnManager : Type 0 where
  pub conns : List (String × Socket)
  pub by_snow : SnowMap
  pub by_user : UserMap
  pub conf : ManagerConf
  pub heap : Ptr → WsConn
  pub closed : List Socket

pub data Err : Type 0 where
  snow_id_conn_empty snow_id_exists snow_id_not_found snow_id_user_empty : Err
  user_snow_id_conn_empty snow_id_empty : Err

-- How a method ends: `nil`, an error, or the panic of `ensureRoomForUserLocked`.
pub data Outcome : Type 0 where
  ok : Outcome
  failed : Err → Outcome
  panicked : Outcome

-- `old == w.Conn`
abbrev pub same_socket : Socket → Option Socket → Bool
same_socket old none = false
same_socket old (some c) = old == c

abbrev pub write : (Ptr → WsConn) → Ptr → WsConn → Ptr → WsConn
write heap p w q = ite (ℕ_discrete p q) w (heap q)

unfoldable pub close_quiet : Option Socket → ConnManager → ConnManager
close_quiet none m = m
close_quiet (some c) m = record m { closed = c ∷ m.closed }

-- `for _, rest := range mm { if rest.Conn != nil { ...; break } }`
unfoldable pub first_conn : (Ptr → WsConn) → SnowMap → Option Socket
first_conn heap [] = none
first_conn heap ((sid, p) ∷ mm) = elim (heap p).conn [ none ↦ first_conn heap mm | some c ↦ some c ]

-- The sockets of the entries that have one, in the order of the range.
unfoldable pub sockets : (Ptr → WsConn) → SnowMap → List Socket
sockets heap [] = []
sockets heap ((sid, p) ∷ mm) =
    let rest = sockets heap mm in elim (heap p).conn [ none ↦ rest | some c ↦ c ∷ rest ]

-- What the legacy index gets in place of a socket that goes: another of the user, or no entry.
abbrev replace : String → Option Socket → List (String × Socket) → List (String × Socket)
replace user none conns = erase str_dec user conns
replace user (some c) conns = insert str_dec user c conns

-- `if old, ok := m.conns[user]; ok && old == w.Conn { ... }`, where `mm` is what is left of the user.
unfoldable pub relink :
    (Ptr → WsConn)
    → String
    → Option Socket
    → SnowMap
    → List (String × Socket)
    → List (String × Socket)
unfolding first_conn
relink heap user shut mm conns = elim (lookup str_dec user conns) [
  | none ↦ conns
  | some old ↦ if same_socket old shut then replace user (first_conn heap mm) conns else conns
]

-- The loop of `ensureRoomForUserLocked` that looks for the oldest connection.
unfoldable pub oldest : (Ptr → WsConn) → Option Ptr → SnowMap → Option Ptr
oldest heap best [] = best
oldest heap none ((sid, p) ∷ mm) = oldest heap (some p) mm
oldest heap (some b) ((sid, p) ∷ mm) =
    oldest heap (some (if ltb (heap p).created_at (heap b).created_at then p else b)) mm

-- `oldest` leaves the indexes, its socket is closed (by a goroutine, after the lock).
unfoldable pub evict : String → Ptr → ConnManager → ConnManager
unfolding close_quiet relink
evict user p m =
    let w = m.heap p in
    let by_user = cut user w.snow_id m.by_user in
    close_quiet w.conn (record m {
      by_user = by_user;
      by_snow = erase str_dec w.snow_id m.by_snow;
      conns = relink m.heap user w.conn (conns_of user by_user) m.conns;
    })

-- `Close` and an eviction leave the rest of the state alone.
pub close_quiet-fields :
    (c : Option Socket) (m : ConnManager)
    → ((close_quiet c m).heap ≡ m.heap)
      × ((close_quiet c m).by_snow ≡ m.by_snow)
      × ((close_quiet c m).by_user ≡ m.by_user)
      × ((close_quiet c m).conns ≡ m.conns)
      × ((close_quiet c m).conf ≡ m.conf)
unfolding close_quiet
close_quiet-fields none m = (refl, refl, refl, refl, refl)
close_quiet-fields (some c) m = (refl, refl, refl, refl, refl)

pub evict-fields :
    (user : String) (p : Ptr) (m : ConnManager)
    → ((evict user p m).heap ≡ m.heap)
      × ((evict user p m).by_snow ≡ erase str_dec (m.heap p).snow_id m.by_snow)
      × ((evict user p m).by_user ≡ cut user (m.heap p).snow_id m.by_user)
      × ((evict user p m).conf ≡ m.conf)
unfolding evict
evict-fields user p m =
    let c = (m.heap p).conn in let (a, b, d, _, e) = close_quiet-fields c _ in (a, b, d, e)
