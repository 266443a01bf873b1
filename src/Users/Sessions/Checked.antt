-- ===== src/Users/Sessions/Checked.antt =====
-- `Verify` against the map from devices to sessions.
use mathlib.Core.List.{Memᴰ}
use ppchat.Prelude.{
  ◌-◌, ◌≡◌, ◌≢◌, ◌<◌, ◌≤◌, inl, inr, refl, sym, ap, subst, ◌∙◌, arith, String, Option, none, some,
  [], ◌∷◌, ltb, if_elim, str_dec, ite_elim,
}
use ppchat.Users.Jwt.{Time, Packages, JwtClaims, Result, ok, fail, panicked, token_expired}
use ppchat.Users.Store.{Mongo, Redis, UserSession, Found, found, no_documents, failed, set}
use ppchat.Users.Sessions.{
  token_key, session_filter, hash_filter, deny, verify_hit, verify_miss, verify_cached,
  verify_claimed,
}
use ppchat.Users.Sessions.Docs.{key_of}
use ppchat.Users.Sessions.Spec.{Devices, IsGood, VerifyAllowed, Issue, Steady}
use ppchat.Users.Sessions.Cached.{Agrees, IsKnown, entries-Agrees, set-Agrees, not-IsGood_later}

some_inj : {s r : UserSession} → some s ≡ some r → s ≡ r
some_inj h = cc

module _ (p : Packages) (secret : String) (mongo : Mongo) (redis : Redis (Mongo.Ctx mongo))
    (issue : Issue) (steady : Steady p secret mongo redis) where
  open mongo use {
    Ctx, Db, with_timeout, sessions, find_session, find_session-found, find_session-none,
  }
  open redis use {Cache, entry, get, send, get_cases}
  open issue use {token_of, device_of, token_of_inj}

  module _ (x : Ctx) (hash : String) (clock now later : Time) (db : Db) (c : Cache) (a : Devices)
      (g : Agrees issue clock (sessions db) (entry c) a) (goes : clock ≤ now)
      (on : now ≤ later) where
    abbrev Checks : Cache × Result UserSession → Type 0
    Checks (c', r) =
        Agrees issue later (sessions db) (entry c') a × VerifyAllowed a hash now later r

    abbrev NoneGood : Time → Type 0
    NoneGood t = (s : UserSession) → Memᴰ s (sessions db) → ¬ IsGood hash t s

    deny-Checks : NoneGood later → Checks (deny p secret mongo redis x hash c, fail token_expired)
    unfolding deny
    deny-Checks bad = (
      set-Agrees issue hash "-" 30000 g (omega arith) (inl (refl, bad))
          (λ k. steady.2 x c (set (token_key hash) "-" 30000 ∷ []) k),
      inr (refl, λ k s at. bad s (g.kept k s at).0),
    )

    none_later : NoneGood now → NoneGood later
    none_later bad = λ s h. not-IsGood_later hash now later s on (bad s h)

    same_later : Agrees issue later (sessions db) (entry c) a
    same_later = entries-Agrees issue g (omega arith) (λ h v at. inr at)

    hit-Checks :
        (v : String) (f : Found UserSession)
        → v ≢ "-"
        → token_of v ≡ hash
        → find_session (with_timeout x 300) db (session_filter v now) ≡ f
        → Checks (verify_hit p secret mongo redis x hash c f)
    unfolding verify_hit session_filter
    hit-Checks v (found s) real its at =
        let (h, (sid, (valid, (lives, _)))) = find_session-found _ db _ s at in
        let named : s.access_token_hash ≡ hash = sym (g.own s h).0 ∙ ap token_of sid ∙ its in
        (same_later, inl (s, refl, g.held s h, (named, valid, lives)))
    hit-Checks v no_documents real its at = deny-Checks (
        none_later (λ s h good.
          find_session-none _ db _ s at h (
            token_of_inj s.session_id v ((g.own s h).0 ∙ good.0 ∙ sym its),
            (good.1, (good.2, tt)),
          )))
    hit-Checks v failed real its at = absurd (steady.0 _ db _ at)

    -- Two sessions for one token are the same.
    same_session :
        (s r : UserSession)
        → Memᴰ s (sessions db)
        → Memᴰ r (sessions db)
        → s.access_token_hash ≡ r.access_token_hash
        → s ≡ r
    same_session s r hs hr same =
        let own_s = g.own s hs in
        let own_r = g.own r hr in
        let sid = token_of_inj s.session_id r.session_id (own_s.0 ∙ same ∙ sym own_r.0) in
        let device : key_of s ≡ key_of r = sym own_s.1 ∙ ap device_of sid ∙ own_r.1 in
        some_inj (sym (g.held s hs) ∙ ap a device ∙ g.held r hr)

    miss-Checks :
        (f : Found UserSession)
        → find_session (with_timeout x 600) db (hash_filter hash now) ≡ f
        → Checks (verify_miss p secret mongo redis x hash later c f)
    unfolding verify_miss hash_filter
    miss-Checks (found s) at =
        let (h, (named, (valid, (lives, _)))) = find_session-found _ db _ s at in
        let own = g.own s h in
        if_elim Checks (ltb later s.expire_time)
          (λ _. (
            set-Agrees issue hash s.session_id (s.expire_time - later) g (omega arith)
                (inr (own.2, own.0 ∙ named)) (λ k. steady.2 x c _ k),
            inl (s, refl, g.held s h, (named, valid, lives)),
          ))
          (λ over. deny-Checks (λ r hr good.
            let same = same_session r s hr h (good.0 ∙ sym named) in
            let lives_on : later < s.expire_time = subst (λ o. later < o.expire_time) same good.2 in
            ground (arith, over, lives_on)))
    miss-Checks no_documents at =
        deny-Checks (
          none_later (λ s h good. find_session-none _ db _ s at h (good.0, (good.1, (good.2, tt)))))
    miss-Checks failed at = absurd (steady.0 _ db _ at)

    cached-Checks :
        (r : Option String)
        → ((v : String) → r ≡ some v → IsKnown issue clock (sessions db) hash v)
        → Checks (verify_cached p secret mongo redis x hash now later db c r)
    unfolding verify_cached
    cached-Checks none known = miss-Checks _ refl
    cached-Checks (some v) known = elim (known v refl) [
      | inl (mark, bad) ↦
          ite_elim Checks (str_dec v "-")
            (λ _. (
              same_later,
              inr (
                refl,
                λ k s at.
                    not-IsGood_later hash clock later s (omega arith) (bad s (g.kept k s at).0),
              ),
            ))
            (λ other. absurd (other mark))
      | inr (real, its) ↦
          ite_elim Checks (str_dec v "-") (λ mark. absurd (real mark))
            (λ _. hit-Checks v _ real its refl)
    ]

    get-IsKnown :
        (v : String) → get x c (token_key hash) ≡ some v → IsKnown issue clock (sessions db) hash v
    get-IsKnown v at = elim (get_cases x c (token_key hash)) [
      | inl absent ↦ absurd (cc)
      | inr same ↦ g.known hash v (sym same ∙ at)
    ]

    pub verify_claimed-Checks :
        (claims : Result JwtClaims)
        → let (c', r) = verify_claimed p secret mongo redis x hash now later db c claims in
          Agrees issue later (sessions db) (entry c') a
          × ((its : JwtClaims) → claims ≡ ok its → VerifyAllowed a hash now later r)
          × (((its : JwtClaims) → claims ≢ ok its) → (s : UserSession) → r ≢ ok s)
    unfolding verify_claimed
    verify_claimed-Checks (ok claims) =
        let (agrees, allowed) = cached-Checks (get x c (token_key hash)) get-IsKnown in
        (agrees, λ _ _. allowed, λ none_ok. absurd (none_ok claims refl))
    verify_claimed-Checks (fail e) = (same_later, λ its h. absurd (cc), λ _ s h. absurd (cc))
    verify_claimed-Checks panicked = (same_later, λ its h. absurd (cc), λ _ s h. absurd (cc))
