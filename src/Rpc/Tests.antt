-- ===== src/Rpc/Tests.antt =====
-- Runs of the manager of service/rpc/client_manager.go.
use ppchat.Prelude.{◌≡◌, refl, arith, true, false, some, [], ◌∷◌}
use ppchat.Rpc.{
  ClientManager, start, connected, check_fails, ping_fails, starts, connects, check_fail, Reach,
  made, goes_on,
}
use ppchat.Rpc.Reachable.{Tries, Reach-Tries, both_fail}

abbrev up : ClientManager
up = record {
  conn = some 1;
  client = some 1;
  healthy = true;
  stopped = false;
  started = true;
  dialling = 0;
  checking = 1;
  pinging = 1;
  closed = [];
}

up-Reach : Reach up
unfolding start connected
up-Reach = goes_on (goes_on made starts) (connects 1 (omega arith))

Reach-Tries_example : Tries (check_fails up)
Reach-Tries_example = Reach-Tries (goes_on up-Reach (check_fail (omega arith)))

both_fail_example :
    let m' = connected 3 (connected 2 (ping_fails (check_fails up))) in
    (m'.checking ≡ 2)
    × (m'.pinging ≡ 2)
    × (m'.dialling ≡ 0)
    × (m'.conn ≡ some 3)
    × (m'.closed ≡ 1 ∷ [])
both_fail_example = both_fail up 1 2 3 refl (omega arith) (omega arith)
