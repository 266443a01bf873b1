-- ===== src/Rpc/Reachable.antt =====
-- What holds of the manager of service/rpc/client_manager.go after any steps.
use ppchat.Prelude.{◌+◌, ◌≡◌, ◌<◌, refl, arith, true, false, none, some, if_elim}
use ppchat.Rpc.{
  ClientManager, ClientConn, start, connected, reconnect, check_fails, ping_fails, stop, Step,
  starts, connects, check_fail, ping_fail, stops, run_ends, check_ends, ping_ends, Reach, made,
  goes_on, with_closed,
}

-- The client is on the connection; and a manager that was started, not stopped and has no connection
-- has a goroutine that dials.
pub record Tries (m : ClientManager) : Type 0 where
  pub same : m.client ≡ m.conn
  pub dials : m.started ≡ true → m.stopped ≡ false → m.conn ≡ none → 0 < m.dialling

Step-Tries : {m m' : ClientManager} → Step m m' → Tries m → Tries m'
Step-Tries {m} starts v =
    unfold start in
    if_elim Tries m.started (λ _. v)
      (λ _. record { same = v.same; dials = λ on go gone. omega arith })
Step-Tries {m} (connects c some_run) v =
    unfold connected in record { same = refl; dials = λ on go gone. absurd (cc) }
Step-Tries {m} (check_fail some_loop) v =
    unfold check_fails reconnect in record { same = refl; dials = λ on go gone. omega arith }
Step-Tries {m} (ping_fail some_loop) v =
    unfold ping_fails reconnect in record { same = refl; dials = λ on go gone. omega arith }
Step-Tries {m} (stops go) v =
    unfold stop in record { same = refl; dials = λ on go gone. absurd (cc) }
Step-Tries {m} (run_ends some_run over) v = record {
  same = v.same;
  dials = λ on go gone. absurd (ground (arith, go, over));
}
Step-Tries {m} (check_ends some_loop over) v = record { same = v.same; dials = v.dials }
Step-Tries {m} (ping_ends some_loop over) v = record { same = v.same; dials = v.dials }

-- After any steps of the goroutines and calls of `Start` and `Stop`, the client is on the connection
-- that the manager holds; and a manager that was started and not stopped, and holds no connection, has
-- a goroutine that dials.
pub Reach-Tries : {m : ClientManager} → Reach m → Tries m
Reach-Tries made = record { same = refl; dials = λ on go gone. absurd (cc) }
Reach-Tries (goes_on r st) = Step-Tries st (Reach-Tries r)

-- Where a manager with a connection runs at least one loop of each kind and both a check and a ping
-- fail before a new connection is up, the two goroutines that dial then connect one after the other:
-- one loop of each kind more runs than before, and the first of the two connections is neither held
-- nor closed, if it was not closed before and is a new one.
pub both_fail :
    (m : ClientManager) (old first second : ClientConn)
    → m.conn ≡ some old
    → 0 < m.checking
    → 0 < m.pinging
    → let m' = connected second (connected first (ping_fails (check_fails m))) in
      (m'.checking ≡ m.checking + 1)
      × (m'.pinging ≡ m.pinging + 1)
      × (m'.dialling ≡ m.dialling)
      × (m'.conn ≡ some second)
      × (m'.closed ≡ with_closed (some old) m.closed)
unfolding connected ping_fails check_fails reconnect
both_fail m old first second at checks pings =
    (omega arith, omega arith, omega arith, refl, rw at refl)
