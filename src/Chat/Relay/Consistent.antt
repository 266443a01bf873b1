-- ===== src/Chat/Relay/Consistent.antt =====
-- The loop of service/chat/router.go keeps the indexes of the connections consistent.
use ppchat.Prelude.{String, Bool, Option, none, some, List, [], ◌∷◌, if_elim, ite_elim, str_dec}
use ppchat.Chat.ConnManager.State.{Socket, close_quiet}
use ppchat.Chat.ConnManager.Reads.{get, get_all}
use ppchat.Chat.ConnManager.Invariant.{IsValid, close_quiet-IsValid}
use ppchat.Chat.ConnManager.Users.{remove-IsValid}
use ppchat.Chat.Relay.{
  WsReplayMsg, Relay, write_fails, write_to, relay_one, relay_each, relay, loop_relay_data,
}

module _ {Frame Data : Type 0} (to_user : Frame → String) (marshal : Frame → Option Data)
    (fails : Socket → Data → Bool) where
  abbrev IsKept : Relay Data → Type 0
  IsKept r = IsValid r.mgr

  relay_one-IsKept :
      (user : String) (out : Option Data) (ws : Option Socket) (r : Relay Data)
      → IsKept r
      → IsKept (relay_one to_user marshal fails user out ws r)
  unfolding relay_one write_to
  relay_one-IsKept user none ws r v = v
  relay_one-IsKept user (some data_) none r v = v
  relay_one-IsKept user (some data_) (some c) r v =
      if_elim IsKept (write_fails to_user marshal fails c data_ r)
        (λ _.
          remove-IsValid user (close_quiet (some c) r.mgr) (close_quiet-IsValid (some c) r.mgr v))
        (λ _. v)

  relay_each-IsKept :
      (user : String) (out : Option Data) (cs : List Socket) (r : Relay Data)
      → IsKept r
      → IsKept (relay_each to_user marshal fails user out cs r)
  unfolding relay_each
  relay_each-IsKept user out [] r v = v
  relay_each-IsKept user out (c ∷ cs) r v =
      relay_each-IsKept user out cs _ (relay_one-IsKept user out (some c) r v)

  relay-IsKept :
      (msg : WsReplayMsg Frame) (r : Relay Data)
      → IsKept r
      → IsKept (relay to_user marshal fails msg r)
  unfolding relay
  relay-IsKept msg r v =
      let user = to_user msg.frame in
      let out = marshal msg.frame in
      ite_elim IsKept (str_dec msg.connect_id "")
        (λ _. relay_each-IsKept user out (get_all user r.mgr) r v)
        (λ _. relay_one-IsKept user out (get user msg.connect_id r.mgr) r v)

  -- Where the indexes of the connections are consistent, they are so after any frames that the loop
  -- relays, whichever writes fail.
  loop_relay_data-IsValid :
      (msgs : List (WsReplayMsg Frame)) (r : Relay Data)
      → IsValid r.mgr
      → IsValid (loop_relay_data to_user marshal fails msgs r).mgr
  unfolding loop_relay_data
  loop_relay_data-IsValid [] r v = v
  loop_relay_data-IsValid (msg ∷ msgs) r v =
      if_elim IsKept r.runs
        (λ _.
          loop_relay_data-IsValid msgs (relay to_user marshal fails msg r) (relay-IsKept msg r v))
        (λ _. v)
