-- ===== src/Chat/Relay/Sent.antt =====
-- What a frame for all connections of a user reaches, in service/chat/router.go.
use mathlib.Core.List.{Memᴰ}
use ppchat.Prelude.{
  ◌≡◌, ◌≢◌, ◌⊎◌, inl, inr, refl, sym, ap, subst, ◌∙◌, arith, String, Bool, true, false, Option,
  none, some, List, [], ◌∷◌, ◌++◌, ◌||◌, if◌then◌else◌, str_dec, if_pos, if_neg, lookup, erase,
  lookup-erase, Bool-cases,
}
use ppchat.Chat.ConnManager.Index.{SnowMap, conns_of, drop}
use ppchat.Chat.ConnManager.State.{Socket, ConnManager, close_quiet, close_quiet-fields, sockets}
use ppchat.Chat.ConnManager.Reads.{to_list, get_all}
use ppchat.Chat.ConnManager.Ops.{remove, close_all}
use ppchat.Chat.ConnManager.Users.{close_all-fields}
use ppchat.Chat.Relay.{
  is_closed, WsReplayMsg, Relay, write_fails, write_to, relay_one, relay_each, relay,
}

-- `Remove` leaves a user without a connection.
get_all-remove : (user : String) (m : ConnManager) → user ≢ "" → get_all user (remove user m) ≡ []
unfolding get_all remove conns_of drop sockets
get_all-remove user m some_user =
    let m1 : ConnManager = record m { conns = erase str_dec user m.conns } in
    let m2 = close_all (conns_of user m.by_user) m1 in
    let f = close_all-fields (conns_of user m.by_user) m1 in
    let no_conn : lookup str_dec user m2.conns ≡ none =
      ground (arith, f.2, lookup-erase str_dec user user m.conns) in
    let no_user : lookup str_dec user (erase str_dec user m2.by_user) ≡ none =
      ground (arith, lookup-erase str_dec user user m2.by_user) in
    let removed : remove user m ≡ record m2 { by_user = drop user m2.by_user } =
      if_neg (str_dec user "") some_user _ _ in
    ap (get_all user) removed ∙ rw (no_conn, no_user) refl

-- A socket is closed, or it is one of these.
abbrev ClosedOr : Socket → List Socket → ConnManager → Type 0
ClosedOr c cs m = (is_closed c m.closed ≡ true) ⊎ Memᴰ c cs

-- Closing closes, and nothing is opened again.
close_quiet-closed :
    (o : Option Socket) (mm : SnowMap) (m : ConnManager) (c : Socket)
    → ClosedOr c (elim o [ none ↦ sockets m.heap mm | some d ↦ d ∷ sockets m.heap mm ]) m
    → ClosedOr c (sockets m.heap mm) (close_quiet o m)
unfolding close_quiet
close_quiet-closed none mm m c h = h
close_quiet-closed (some d) mm m c (inl h) = inl (ground (arith, h))
close_quiet-closed (some d) mm m c (inr (Memᴰ.head e)) = inl (ground (arith, e))
close_quiet-closed (some d) mm m c (inr (Memᴰ.tail h)) = inr h

close_all-closed :
    (mm : SnowMap) (m : ConnManager) (c : Socket)
    → ClosedOr c (sockets m.heap mm) m
    → is_closed c (close_all mm m).closed ≡ true
unfolding close_all sockets
close_all-closed [] m c (inl h) = h
close_all-closed [] m c (inr h) = elim h [ ]
close_all-closed ((sid, p) ∷ mm) m c h =
    let m1 : ConnManager = record m { by_snow = erase str_dec sid m.by_snow } in
    let m2 = close_quiet (m.heap p).conn m1 in
    close_all-closed mm m2 c (
      subst (λ heap. ClosedOr c (sockets heap mm) m2)
        (sym (close_quiet-fields (m.heap p).conn m1).0)
        (close_quiet-closed (m.heap p).conn mm m1 c h))

-- The sockets of a user are closed by `Remove`.
remove-closed :
    (user : String) (m : ConnManager) (c : Socket)
    → user ≢ ""
    → ClosedOr c (sockets m.heap (conns_of user m.by_user)) m
    → is_closed c (remove user m).closed ≡ true
unfolding remove
remove-closed user m c some_user h =
    let m1 : ConnManager = record m { conns = erase str_dec user m.conns } in
    let m2 = close_all (conns_of user m.by_user) m1 in
    let removed : remove user m ≡ record m2 { by_user = drop user m2.by_user } =
      if_neg (str_dec user "") some_user _ _ in
    ap (λ (x : ConnManager). is_closed c x.closed) removed
    ∙ close_all-closed (conns_of user m.by_user) m1 c h

-- The sockets before the first one whose write fails.
abbrev pub before_failure : (Socket → Bool) → List Socket → List Socket
before_failure bad [] = []
before_failure bad (c ∷ cs) = let rest = before_failure bad cs in if bad c then [] else c ∷ rest

-- The log after the data is written to sockets, the latest write first.
abbrev pub logged :
    {Data : Type 0} → Data → List Socket → List (Socket × Data) → List (Socket × Data)
logged data_ [] log = log
logged data_ (c ∷ cs) log = logged data_ cs ((c, data_) ∷ log)

module _ {Frame Data : Type 0} (to_user : Frame → String) (marshal : Frame → Option Data)
    (fails : Socket → Data → Bool) where
  module _ (user : String) (data_ : Data) (some_user : user ≢ "") where
    abbrev each : List Socket → Relay Data → Relay Data
    each cs r = relay_each to_user marshal fails user (some data_) cs r

    abbrev one : Socket → Relay Data → Relay Data
    one c r = relay_one to_user marshal fails user (some data_) (some c) r

    abbrev bad_in : Relay Data → Socket → Bool
    bad_in r c = write_fails to_user marshal fails c data_ r

    one-fails :
        (c : Socket) (r : Relay Data)
        → bad_in r c ≡ true
        → one c r ≡ record r { mgr = remove user (close_quiet (some c) r.mgr) }
    unfolding relay_one write_to
    one-fails c r bad = rw bad refl

    one-works :
        (c : Socket) (r : Relay Data)
        → bad_in r c ≡ false
        → one c r ≡ record r { sent = (c, data_) ∷ r.sent }
    unfolding relay_one write_to
    one-works c r good = rw good refl

    -- What a write that fails leaves.
    emptied : (c : Socket) (r : Relay Data) → bad_in r c ≡ true → get_all user (one c r).mgr ≡ []
    emptied c r bad =
        ap (λ x. get_all user (Relay.mgr x)) (one-fails c r bad) ∙ get_all-remove user _ some_user

    stays_empty :
        (cs : List Socket) (r : Relay Data)
        → get_all user r.mgr ≡ []
        → get_all user (each cs r).mgr ≡ []
    unfolding relay_each
    stays_empty [] r empty = empty
    stays_empty (c ∷ cs) r empty = stays_empty cs (one c r) (elim (Bool-cases (bad_in r c)) [
      | inl bad ↦ emptied c r bad
      | inr good ↦ ap (λ x. get_all user (Relay.mgr x)) (one-works c r good) ∙ empty
    ])

    one_failed :
        (cs : List Socket) (r : Relay Data) (c : Socket)
        → Memᴰ c cs
        → bad_in r c ≡ true
        → get_all user (each cs r).mgr ≡ []
    unfolding relay_each
    one_failed (d ∷ cs) r c (Memᴰ.head same) bad =
        stays_empty cs (one d r) (emptied d r (ap (bad_in r) (sym same) ∙ bad))
    one_failed (d ∷ cs) r c (Memᴰ.tail h) bad = elim (Bool-cases (bad_in r d)) [
      | inl first ↦ stays_empty cs (one d r) (emptied d r first)
      | inr good ↦ one_failed cs (one d r) c h (ap (λ x. bad_in x c) (one-works d r good) ∙ bad)
    ]
    one_failed [] r c h bad = elim h [ ]

    none_failed :
        (cs : List Socket) (r : Relay Data)
        → ((c : Socket) → Memᴰ c cs → bad_in r c ≡ false)
        → ((each cs r).mgr ≡ r.mgr)
    unfolding relay_each
    none_failed [] r good = refl
    none_failed (c ∷ cs) r good =
        let works = one-works c r (good c (Memᴰ.head refl)) in
        none_failed cs (one c r) (λ d h. ap (λ x. bad_in x d) works ∙ good d (Memᴰ.tail h))
        ∙ ap Relay.mgr works

    each-runs : (cs : List Socket) (r : Relay Data) → (each cs r).runs ≡ r.runs
    unfolding relay_each
    each-runs [] r = refl
    each-runs (c ∷ cs) r = each-runs cs (one c r) ∙ (elim (Bool-cases (bad_in r c)) [
      | inl bad ↦ ap Relay.runs (one-fails c r bad)
      | inr good ↦ ap Relay.runs (one-works c r good)
    ])

    abbrev AllClosed : List Socket → ConnManager → Type 0
    AllClosed cs m = (c : Socket) → Memᴰ c cs → is_closed c m.closed ≡ true

    -- Nothing reaches sockets that are closed.
    AllClosed-sent :
        (cs : List Socket) (r : Relay Data) → AllClosed cs r.mgr → (each cs r).sent ≡ r.sent
    unfolding relay_each close_quiet
    AllClosed-sent [] r shut = refl
    AllClosed-sent (c ∷ cs) r shut =
        let bad : bad_in r c ≡ true = ground (arith, shut c (Memᴰ.head refl)) in
        let failed = one-fails c r bad in
        AllClosed-sent cs (one c r) (λ d h.
          ap (λ (x : Relay Data). is_closed d x.mgr.closed) failed
          ∙ remove-closed user (close_quiet (some c) r.mgr) d some_user
              (inl (ground (arith, shut d (Memᴰ.tail h)))))
        ∙ ap Relay.sent failed

    -- Where the write to a socket of the list fails, the sockets after it are closed.
    AreSwept : List Socket → ConnManager → Type 0
    AreSwept [] m = Unit
    AreSwept (c ∷ cs) m = AllClosed cs (remove user (close_quiet (some c) m)) × AreSwept cs m

    each-sent :
        (cs : List Socket) (r : Relay Data)
        → AreSwept cs r.mgr
        → (each cs r).sent ≡ logged data_ (before_failure (bad_in r) cs) r.sent
    unfolding relay_each AreSwept
    each-sent [] r swept = refl
    each-sent (c ∷ cs) r (later, swept) = elim (Bool-cases (bad_in r c)) [
      | inl bad ↦ rw bad (
          AllClosed-sent cs (one c r) (λ d h.
            ap (λ (x : Relay Data). is_closed d x.mgr.closed) (one-fails c r bad) ∙ later d h)
          ∙ ap Relay.sent (one-fails c r bad))
      | inr good ↦ rw good (
          ap (λ x. Relay.sent (each cs x)) (one-works c r good)
          ∙ each-sent cs (record r { sent = (c, data_) ∷ r.sent }) swept)
    ]

    own-AreSwept :
        (m : ConnManager) (cs : List Socket)
        → ((c : Socket) → Memᴰ c cs → Memᴰ c (sockets m.heap (conns_of user m.by_user)))
        → AreSwept cs m
    unfolding AreSwept close_quiet
    own-AreSwept m [] own = tt
    own-AreSwept m (c ∷ cs) own = (
      λ d h. remove-closed user (close_quiet (some c) m) d some_user (inr (own d (Memᴰ.tail h))),
      own-AreSwept m cs (λ d h. own d (Memᴰ.tail h)),
    )

    get_all-AreSwept : (m : ConnManager) → AreSwept (get_all user m) m
    unfolding get_all AreSwept close_quiet
    get_all-AreSwept m =
        let own = sockets m.heap (conns_of user m.by_user) in
        elim (lookup str_dec user m.conns) as (λ o. AreSwept (to_list o ++ own) m) [
          | none ↦ own-AreSwept m own (λ c h. h)
          | some c ↦ (
            λ d h. remove-closed user (close_quiet (some c) m) d some_user (inr h),
            own-AreSwept m own (λ d h. h),
          )
        ]

  -- A frame that can be encoded and is for all connections of a user, who has a name: it is written to
  -- the sockets that `GetAll` returns, in turn, up to the first whose write fails, because it is closed
  -- or for another reason, and to no other socket; the loop goes on. Where no write fails the
  -- connections stay as they are; where one fails the user has none left, also not those whose writes
  -- succeeded.
  pub relay-get_all :
      (msg : WsReplayMsg Frame) (r : Relay Data) (data_ : Data)
      → msg.connect_id ≡ ""
      → to_user msg.frame ≢ ""
      → marshal msg.frame ≡ some data_
      → let user = to_user msg.frame in
        let cs = get_all user r.mgr in
        let r' = relay to_user marshal fails msg r in
        let bad : Socket → Bool = λ c. is_closed c r.mgr.closed || fails c data_ in
        (r'.sent ≡ logged data_ (before_failure bad cs) r.sent)
        × (((c : Socket) → Memᴰ c cs → bad c ≡ false) → r'.mgr ≡ r.mgr)
        × ((c : Socket) → Memᴰ c cs → bad c ≡ true → get_all user r'.mgr ≡ [])
        × (r'.runs ≡ r.runs)
  relay-get_all msg r data_ whole some_user coded =
      let user = to_user msg.frame in
      let cs = get_all user r.mgr in
      let out : relay to_user marshal fails msg r
          ≡ relay_each to_user marshal fails user (some data_) cs r =
        unfold relay in
        if_pos (str_dec msg.connect_id "") whole _ _
        ∙ ap (λ o. relay_each to_user marshal fails user o cs r) coded in
      (
        ap Relay.sent out
            ∙ each-sent user data_ some_user cs r (get_all-AreSwept user data_ some_user r.mgr),
        λ good. ap Relay.mgr out ∙ none_failed user data_ some_user cs r good,
        λ c h bad.
            ap (λ x. get_all user (Relay.mgr x)) out ∙ one_failed user data_ some_user cs r c h bad,
        ap Relay.runs out ∙ each-runs user data_ some_user cs r,
      )
