-- ===== src/Rpc.antt =====
-- service/rpc/client_manager.go: the connection to the gateway control service, and the goroutines that
-- dial, check its health and ping it. Sleeps and tickers are the freedom of when a step happens.
mod Reachable
mod Tests
use ppchat.Prelude.{
  ℕ, ◌+◌, ◌-◌, ◌≡◌, ◌<◌, Bool, true, false, Option, none, some, List, [], ◌∷◌, if◌then◌else◌,
}

abbrev pub ClientConn : Type 0
ClientConn = ℕ

-- `client` is the connection that the client is on. `dialling` counts the goroutines in `run`,
-- `checking` those in `healthLoop`, `pinging` those in `pingLoop`; `closed` lists the connections on
-- which `Close` was called.
pub record ClientManager : Type 0 where
  pub conn : Option ClientConn
  pub client : Option ClientConn
  pub healthy : Bool
  pub stopped : Bool
  pub started : Bool
  pub dialling : ℕ
  pub checking : ℕ
  pub pinging : ℕ
  pub closed : List ClientConn

abbrev pub new_manager : ClientManager
new_manager = record {
  conn = none;
  client = none;
  healthy = false;
  stopped = false;
  started = false;
  dialling = 0;
  checking = 0;
  pinging = 0;
  closed = [];
}

abbrev pub with_closed : Option ClientConn → List ClientConn → List ClientConn
with_closed none cs = cs
with_closed (some c) cs = c ∷ cs

unfoldable pub start : ClientManager → ClientManager
start m = if m.started then m else record m { started = true; dialling = m.dialling + 1 }

-- `connect` succeeds, `run` starts the two loops and returns.
unfoldable pub connected : ClientConn → ClientManager → ClientManager
connected c m = record m {
  conn = some c;
  client = some c;
  healthy = true;
  dialling = m.dialling - 1;
  checking = m.checking + 1;
  pinging = m.pinging + 1;
}

unfoldable pub reconnect : ClientManager → ClientManager
reconnect m = record m {
  closed = with_closed m.conn m.closed;
  conn = none;
  client = none;
  healthy = false;
  dialling = m.dialling + 1;
}

-- A check or a ping fails, and its loop returns. A `healthLoop` that starts when the connection is gone
-- already panics at its first check, which ends the program; the steps are those until then.
unfoldable pub check_fails : ClientManager → ClientManager
unfolding reconnect
check_fails m = reconnect (record m { checking = m.checking - 1 })

unfoldable pub ping_fails : ClientManager → ClientManager
unfolding reconnect
ping_fails m = reconnect (record m { pinging = m.pinging - 1 })

-- `healthy` stays as it is.
unfoldable pub stop : ClientManager → ClientManager
stop m = record m {
  stopped = true;
  closed = with_closed m.conn m.closed;
  conn = none;
  client = none;
}

-- The steps of the goroutines and the calls. A goroutine in `run` looks at `stopCh` before it dials
-- and not after, so `connects` can come after `stops`; the client of a ping that fails was read before.
pub data Step (m : ClientManager) : ClientManager → Type 0 where
  starts : Step m (start m)
  connects : (c : ClientConn) → 0 < m.dialling → Step m (connected c m)
  check_fail : 0 < m.checking → Step m (check_fails m)
  ping_fail : 0 < m.pinging → Step m (ping_fails m)
  stops : m.stopped ≡ false → Step m (stop m)
  run_ends : 0 < m.dialling → m.stopped ≡ true → Step m (record m { dialling = m.dialling - 1 })
  check_ends : 0 < m.checking → m.stopped ≡ true → Step m (record m { checking = m.checking - 1 })
  ping_ends : 0 < m.pinging → m.stopped ≡ true → Step m (record m { pinging = m.pinging - 1 })

pub data Reach : ClientManager → Type 0 where
  made : Reach new_manager
  goes_on : {m m' : ClientManager} → Reach m → Step m m' → Reach m'
