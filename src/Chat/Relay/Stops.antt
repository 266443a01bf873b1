-- ===== src/Chat/Relay/Stops.antt =====
-- When the loop of service/chat/router.go ends.
use ppchat.Prelude.{
  ◌≡◌, ◌≢◌, refl, ap, ◌∙◌, String, Bool, true, false, Option, none, some, List, [], ◌∷◌,
  if◌then◌else◌, str_dec, if_neg,
}
use ppchat.Chat.ConnManager.State.{Socket}
use ppchat.Chat.ConnManager.Reads.{get}
use ppchat.Chat.Relay.{WsReplayMsg, Relay, write_to, relay_one, relay, loop_relay_data}

module _ {Frame Data : Type 0} (to_user : Frame → String) (marshal : Frame → Option Data)
    (fails : Socket → Data → Bool) where
  ended_loop :
      (msgs : List (WsReplayMsg Frame)) (r : Relay Data)
      → r.runs ≡ false
      → loop_relay_data to_user marshal fails msgs r ≡ r
  unfolding loop_relay_data
  ended_loop [] r over = refl
  ended_loop (msg ∷ msgs) r over = rw over refl

  -- Where the loop runs and the next frame, which can be encoded, names a connection that its user
  -- does not have here, the loop ends: that frame and all that follow reach no socket, and no
  -- connection is removed.
  pub loop_relay_data-get :
      (msg : WsReplayMsg Frame) (msgs : List (WsReplayMsg Frame)) (r : Relay Data) (data_ : Data)
      → r.runs ≡ true
      → msg.connect_id ≢ ""
      → marshal msg.frame ≡ some data_
      → get (to_user msg.frame) msg.connect_id r.mgr ≡ none
      → loop_relay_data to_user marshal fails (msg ∷ msgs) r ≡ record r { runs = false }
  unfolding loop_relay_data relay
  loop_relay_data-get msg msgs r data_ on named coded gone =
      let stopped : relay to_user marshal fails msg r ≡ record r { runs = false } =
        unfold relay in
        if_neg (str_dec msg.connect_id "") named _ _
        ∙ (unfold relay_one write_to in rw (coded, gone) refl) in
      ap
        (λ b.
          if b
          then loop_relay_data to_user marshal fails msgs (relay to_user marshal fails msg r)
          else r)
        on
      ∙ ap (loop_relay_data to_user marshal fails msgs) stopped
      ∙ ended_loop msgs (record r { runs = false }) refl
