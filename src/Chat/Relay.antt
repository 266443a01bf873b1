-- ===== src/Chat/Relay.antt =====
-- service/chat/router.go: `LoopRelayData`, which writes the frames of a channel to the sockets of this
-- gateway.
mod Stops
mod Sent
mod Consistent
mod Router
mod Tests
use ppchat.Prelude.{
  String, Bool, true, false, Option, none, some, List, [], ◌∷◌, ◌||◌, ◌==◌, if◌then◌else◌, ite,
  str_dec,
}
use ppchat.Chat.ConnManager.State.{Socket, ConnManager, close_quiet}
use ppchat.Chat.ConnManager.Reads.{get, get_all}
use ppchat.Chat.ConnManager.Ops.{remove}

-- `WSReplayMsg`; of a frame, `to_user` is its `To`.
pub record WsReplayMsg (Frame : Type 0) : Type 0 where
  pub frame : Frame
  pub connect_id : String

-- The state of the loop: the connections, the writes that succeeded, the latest first, and whether the
-- goroutine still runs. A panic ends it, since `recover` is outside the loop.
pub record Relay (Data : Type 0) : Type 0 where
  pub mgr : ConnManager
  pub sent : List (Socket × Data)
  pub runs : Bool

abbrev pub is_closed : Socket → List Socket → Bool
is_closed c [] = false
is_closed c (d ∷ ds) = c == d || is_closed c ds

-- `marshal` is `protojson`, `fails` says for which open sockets and data the write returns an error.
module _ {Frame Data : Type 0} (to_user : Frame → String) (marshal : Frame → Option Data)
    (fails : Socket → Data → Bool) where
  -- A write to a socket that was closed is an error.
  abbrev pub write_fails : Socket → Data → Relay Data → Bool
  write_fails c data_ r = is_closed c r.mgr.closed || fails c data_

  -- The write, and what follows an error. The write to a nil connection is an error, and `Close` of
  -- a nil connection panics.
  unfoldable pub write_to : String → Data → Option Socket → Relay Data → Relay Data
  write_to user data_ none r = record r { runs = false }
  write_to user data_ (some c) r =
      if write_fails c data_ r
      then record r { mgr = remove user (close_quiet (some c) r.mgr) }
      else record r { sent = (c, data_) ∷ r.sent }

  unfoldable pub relay_one : String → Option Data → Option Socket → Relay Data → Relay Data
  unfolding write_to
  relay_one user none ws r = r
  relay_one user (some data_) ws r = write_to user data_ ws r

  -- The loop over the connections that `GetAll` returned.
  unfoldable pub relay_each : String → Option Data → List Socket → Relay Data → Relay Data
  unfolding relay_one
  relay_each user out [] r = r
  relay_each user out (c ∷ cs) r = relay_each user out cs (relay_one user out (some c) r)

  unfoldable pub relay : WsReplayMsg Frame → Relay Data → Relay Data
  unfolding relay_one relay_each
  relay msg r =
      let user = to_user msg.frame in
      let out = marshal msg.frame in
      ite (str_dec msg.connect_id "") (relay_each user out (get_all user r.mgr) r)
        (relay_one user out (get user msg.connect_id r.mgr) r)

  -- The frames of the channel in turn, as long as the goroutine runs.
  unfoldable pub loop_relay_data : List (WsReplayMsg Frame) → Relay Data → Relay Data
  unfolding relay
  loop_relay_data [] r = r
  loop_relay_data (msg ∷ msgs) r =
      let after = loop_relay_data msgs (relay msg r) in if r.runs then after else r
