-- ===== src/Chat/ConnManager/History.antt =====
-- The life of a manager: any interleaving of its methods and of its sweeper, each of which holds the
-- mutex, from `NewConnManager`.
use ppchat.Prelude.{◌≡◌, ◌≢◌, String, Option, some, [], str_dec, lookup, Unique, arith}
use ppchat.Chat.ConnManager.Index.{Ptr, SnowMap, UserMap, entry, IsUnique}
use ppchat.Chat.ConnManager.State.{Socket, Time, ManagerConf, norm, WsConn, ConnManager, panicked}
use ppchat.Chat.ConnManager.Ops.{add, remove, add_unauth, bind_user, add_authorized, heartbeat}
use ppchat.Chat.ConnManager.Removal.{remove_by_snow, kick_all_unauth, sweep_once, close}
use ppchat.Chat.ConnManager.Invariant.{IsValid}
use ppchat.Chat.ConnManager.Adding.{
  IsFresh, add_unauth-IsValid, bind_user-IsValid, add_authorized-IsValid, heartbeat-IsValid,
}
use ppchat.Chat.ConnManager.Removing.{
  remove_by_snow-IsValid, kick_all_unauth-IsValid, sweep_once-IsValid, close-IsValid,
}
use ppchat.Chat.ConnManager.Users.{remove-IsValid, add-IsValid}

-- `NewConnManagerWithConf`; what the heap holds at addresses not yet in use does not matter.
unfoldable pub new_manager : (Ptr → WsConn) → ManagerConf → ConnManager
unfolding norm
new_manager heap conf = record {
  conns = [];
  by_snow = [];
  by_user = [];
  conf = norm conf;
  heap = heap;
  closed = [];
}

-- One call. `regroup` is the freedom of a Go map: its next range may visit the entries in any order.
pub data Step (m : ConnManager) : ConnManager → Type 0 where
  adds :
      (p : Ptr) (user sid : String) (c : Option Socket) (now : Time)
      → IsFresh p m
      → ((q : Ptr) → lookup str_dec sid m.by_snow ≡ some q → entry user sid m.by_user ≡ some q)
      → Step m (add p user sid c now m)
  removes : (user : String) → Step m (remove user m)
  adds_unauth :
      (p : Ptr) (sid : String) (c : Option Socket) (now : Time)
      → IsFresh p m
      → Step m (add_unauth p sid c now m).0
  adds_authorized :
      (p : Ptr) (user sid : String) (c : Option Socket) (now : Time)
      → IsFresh p m
      → Step m (add_authorized p user sid c now m).0
  binds :
      (sid user : String) (now : Time)
      → ((p : Ptr) → entry user sid m.by_user ≢ some p)
      → (bind_user sid user now m).1 ≢ panicked
      → Step m (bind_user sid user now m).0
  beats : (sid : String) (now : Time) → Step m (heartbeat sid now m).0
  removes_by_snow : (sid : String) → Step m (remove_by_snow sid m)
  kicks : Step m (kick_all_unauth m).0
  sweeps : (now : Time) → Step m (sweep_once now m)
  closes : Step m (close m)
  regroups :
      (sn : SnowMap) (us : UserMap)
      → ((s : String) → lookup str_dec s sn ≡ lookup str_dec s m.by_snow)
      → ((u s : String) → entry u s us ≡ entry u s m.by_user)
      → Unique str_dec sn
      → IsUnique us
      → Step m (record m { by_snow = sn; by_user = us })

pub data Reach (start : ConnManager) : ConnManager → Type 0 where
  here : Reach start start
  next : {m m' : ConnManager} → Reach start m → Step m m' → Reach start m'

regroup-IsValid :
    (m : ConnManager) (sn : SnowMap) (us : UserMap)
    → IsValid m
    → ((s : String) → lookup str_dec s sn ≡ lookup str_dec s m.by_snow)
    → ((u s : String) → entry u s us ≡ entry u s m.by_user)
    → Unique str_dec sn
    → IsUnique us
    → IsValid (record m { by_snow = sn; by_user = us })
regroup-IsValid m sn us v a b c d = record {
  linked = record {
    named = λ s p e. ground (arith, a s, v.linked.named s p);
    live = λ s p e. ground (arith, a s, v.linked.live s p);
    held = λ u s p e. ground (arith, a s, b u s, v.linked.held u s p);
    owned = λ u s p e. ground (arith, b u s, v.linked.owned u s p);
    listed = λ s p e auth x. ground (arith, a s, b (m.heap p).user_id s, v.linked.listed s p);
  };
  unique_snow = c;
  unique_user = d;
}

-- Every call keeps the indexes consistent.
pub Step-IsValid : {m m' : ConnManager} → Step m m' → IsValid m → IsValid m'
Step-IsValid {m} (adds p user sid c now fresh own) v = add-IsValid p user sid c now m v fresh own
Step-IsValid {m} (removes user) v = remove-IsValid user m v
Step-IsValid {m} (adds_unauth p sid c now fresh) v = add_unauth-IsValid p sid c now m v fresh
Step-IsValid {m} (adds_authorized p user sid c now fresh) v =
    add_authorized-IsValid p user sid c now m v fresh
Step-IsValid {m} (binds sid user now unbound calm) v =
    bind_user-IsValid sid user now m v unbound calm
Step-IsValid {m} (beats sid now) v = heartbeat-IsValid sid now m v
Step-IsValid {m} (removes_by_snow sid) v = remove_by_snow-IsValid sid m v
Step-IsValid {m} kicks v = kick_all_unauth-IsValid m v
Step-IsValid {m} (sweeps now) v = sweep_once-IsValid now m v
Step-IsValid {m} closes v = close-IsValid m
Step-IsValid {m} (regroups sn us a b c d) v = regroup-IsValid m sn us v a b c d

pub new_manager-IsValid :
    (heap : Ptr → WsConn) (conf : ManagerConf) → IsValid (new_manager heap conf)
unfolding new_manager entry lookup
new_manager-IsValid heap conf = record {
  linked = record {
    named = λ s p e. absurd (cc);
    live = λ s p e. absurd (cc);
    held = λ u s p e. absurd (cc);
    owned = λ u s p e. absurd (cc);
    listed = λ s p e. absurd (cc);
  };
  unique_snow = tt;
  unique_user = λ u. tt;
}

-- In every state that a manager reaches, by any calls in any order, the indexes are consistent: each
-- key of `bySnow` is the id of its connection, which has a socket; each entry of `byUser` is an
-- entry of `bySnow`, authorized, with that user; and each authorized connection of `bySnow` is
-- listed under its user. The calls are those whose addresses are fresh, whose `Add` gives no id that
-- is in use for another user, and whose `BindUser` neither rebinds a connection to the user that it
-- has nor panics.
pub Reach-IsValid :
    (heap : Ptr → WsConn) (conf : ManagerConf) {m : ConnManager}
    → Reach (new_manager heap conf) m
    → IsValid m
Reach-IsValid heap conf here = new_manager-IsValid heap conf
Reach-IsValid heap conf (next r st) = Step-IsValid st (Reach-IsValid heap conf r)
