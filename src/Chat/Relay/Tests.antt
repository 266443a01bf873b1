-- ===== src/Chat/Relay/Tests.antt =====
-- Frames for a user with one connection.
use mathlib.Core.List.{Memᴰ, Sublistᴰ}
use ppchat.Prelude.{
  ℕ, ◌+◌, ◌≡◌, ◌≢◌, ◌||◌, refl, String, List, ◌++◌, map, length, Bool, true, false, Option, none,
  some, [], ◌∷◌, str_dec, str-ne, ◌==◌, lookup, insert,
}
use ppchat.Chat.ConnManager.Index.{Ptr, conns_of, entry, link, size}
use ppchat.Chat.ConnManager.State.{Socket, WsConn, ConnManager, ManagerConf, norm}
use ppchat.Chat.ConnManager.Ops.{add_authorized, ensure_room, register}
use ppchat.Chat.ConnManager.Reads.{get, get_all}
use ppchat.Chat.ConnManager.History.{new_manager}
use ppchat.Chat.Relay.{is_closed, WsReplayMsg, Relay, relay, loop_relay_data}
use ppchat.Chat.Relay.Stops.{loop_relay_data-get}
use ppchat.Chat.Relay.Sent.{before_failure, logged, relay-get_all}
use ppchat.Chat.Relay.Router.{
  Link, refused, breaks_after, next_retry, write_frames, loop_router, run_to_router,
  run_to_router-unsent,
}

abbrev blank : Ptr → WsConn
blank p = record {
  snow_id = "";
  user_id = "";
  authorized = false;
  conn = none;
  created_at = 0;
  updated_at = 0;
  ttl = 0;
  expire_at = 0;
  heartbeat = 0;
}

abbrev conf : ManagerConf
conf = record {
  unauth_ttl = 0;
  auth_ttl = 0;
  sweep_every = 0;
  max_per_user = 0;
  evict_oldest = false;
}

abbrev empty : ConnManager
empty = new_manager blank conf

-- The user alice has the connection s1, socket 7.
abbrev alice : ConnManager
alice = (add_authorized 1 "alice" "s1" (some 7) 10 empty).0

-- A frame is the user that it is for, and its encoding.
abbrev to_user : String → String
to_user f = f

abbrev encoded : String → Option String
encoded f = some f

abbrev broken : Socket → String → Bool
broken c d = c == 7

abbrev start : Relay String
start = record { mgr = alice; sent = []; runs = true }

abbrev to_gone : WsReplayMsg String
to_gone = record { frame = "alice"; connect_id = "s9" }

abbrev to_all : WsReplayMsg String
to_all = record { frame = "alice"; connect_id = "" }

gone_s9 : get "alice" "s9" alice ≡ none
unfolding get add_authorized new_manager ensure_room register insert lookup size conns_of link norm
    str_dec entry
gone_s9 = refl

loop_relay_data-get_example :
    loop_relay_data to_user encoded broken (to_gone ∷ to_all ∷ []) start
    ≡ record start { runs = false }
loop_relay_data-get_example =
    loop_relay_data-get to_user encoded broken to_gone (to_all ∷ []) start "alice" refl
      (str-ne "s9" "" refl) refl gone_s9

relay-get_all_example :
    let r' = relay to_user encoded broken to_all start in
    let bad : Socket → Bool = λ c. is_closed c alice.closed || broken c "alice" in
    (r'.sent ≡ logged "alice" (before_failure bad (get_all "alice" alice)) [])
    × (((c : Socket) → Memᴰ c (get_all "alice" alice) → bad c ≡ false) → r'.mgr ≡ alice)
    × ((c : Socket) → Memᴰ c (get_all "alice" alice) → bad c ≡ true → get_all "alice" r'.mgr ≡ [])
    × (r'.runs ≡ true)
relay-get_all_example =
    relay-get_all to_user encoded broken to_all start "alice" refl (str-ne "alice" "" refl) refl

-- Two streams that break after one frame, and a refused call between them.
abbrev three_links : List Link
three_links = breaks_after 1 ∷ refused ∷ breaks_after 1 ∷ []

abbrev five_frames : List ℕ
five_frames = 1 ∷ 2 ∷ 3 ∷ 4 ∷ 5 ∷ []

-- A frame is a number, and the id of the gateway is 10.
abbrev stamped : ℕ → ℕ
stamped f = f + 10

run_three_links :
    run_to_router stamped three_links 1000 five_frames
    ≡ record { all_sent = 11 ∷ 13 ∷ []; outbound = 5 ∷ []; slept = 1000 ∷ 2000 ∷ 4000 ∷ [] }
unfolding run_to_router loop_router write_frames next_retry
run_three_links = refl

some_left : (run_to_router stamped three_links 1000 five_frames).outbound ≢ []
some_left none_left = absurd (cc (run_three_links, none_left))

run_to_router-unsent_example :
    let r = run_to_router stamped three_links 1000 five_frames in
    (passed : List ℕ) × (passed ++ r.outbound ≡ five_frames)
    × Sublistᴰ r.all_sent (map stamped passed)
    × (length passed ≡ length r.all_sent + 2)
run_to_router-unsent_example = run_to_router-unsent stamped three_links 1000 five_frames some_left
