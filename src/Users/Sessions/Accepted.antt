-- ===== src/Users/Sessions/Accepted.antt =====
-- Which sessions `Verify` accepts where calls of MongoDB and Redis can fail.
use mathlib.Core.List.{Memᴰ}
use ppchat.Prelude.{
  ◌-◌, ◌≡◌, ◌≢◌, inl, inr, refl, sym, ap, subst, ◌∙◌, arith, String, Option, none, some, List, [],
  ◌∷◌, ltb, if_elim, ite_elim, str_dec,
}
use ppchat.Users.Jwt.{
  Time, Packages, JwtClaims, Result, ok, fail, panicked, default_options, jwt_verify,
}
use ppchat.Users.Store.{Mongo, Redis, UserSession, Found, found, no_documents, failed, set}
use ppchat.Users.Sessions.{
  token_key, session_filter, hash_filter, deny, verify_hit, verify_miss, verify_cached,
  verify_claimed, verify,
}
use ppchat.Users.Sessions.Spec.{Call, logs_in, verifies, expires, IsGood, step}
use ppchat.Users.Sessions.Cached.{set_cases}
use ppchat.Users.Sessions.Sound.{AreOwn, AreNamed, IsSound, IsFor, login-IsSound}

ok_inj : {s r : UserSession} → ok s ≡ ok r → s ≡ r
ok_inj h = cc

nothing_in : (s : UserSession) → Memᴰ s [] → ⊥
nothing_in s h = elim h [ ]

module _ (p : Packages) (secret : String) (mongo : Mongo) (redis : Redis (Mongo.Ctx mongo)) where
  open mongo use {Ctx, Db, with_timeout, sessions, find_session, find_session-found}
  open redis use {Cache, entry, get, send, expire, get_cases, send_cases, entry-expire}

  -- The database and the cache after calls.
  abbrev pub run : List (Call Ctx) → Db × Cache → Db × Cache
  run [] w = w
  run (c ∷ cs) w = run cs (step p secret mongo redis c w).0

  module _ (token_of : String → String) where
    abbrev Sound : Db → Cache → Type 0
    Sound db c = IsSound token_of p secret mongo redis db c

    -- Each login is made with an id that stands for the hash of its token.
    abbrev pub AreIssued : List (Call Ctx) → Type 0
    AreIssued [] = Unit
    AreIssued (logs_in x in_ t ∷ cs) =
        IsFor token_of p secret mongo redis in_ t.at_token × AreIssued cs
    AreIssued (verifies x token hash at now later ∷ cs) = AreIssued cs
    AreIssued (expires key ∷ cs) = AreIssued cs

    module _ (x : Ctx) (hash : String) (now later : Time) (db : Db) (c : Cache)
        (sound : Sound db c) where
      -- The state stays sound, and an accepted session is one of the collection.
      abbrev Accepts : Cache × Result UserSession → Type 0
      Accepts (c', r) =
          AreNamed token_of (entry c')
          × ((s : UserSession) → r ≡ ok s → Memᴰ s (sessions db) × IsGood hash now s)

      set-AreNamed :
          (v : String) (ttl : Time)
          → (v ≢ "-" → token_of v ≡ hash)
          → AreNamed token_of (entry (send x c (set (token_key hash) v ttl ∷ [])))
      set-AreNamed v ttl its = elim (send_cases x c (set (token_key hash) v ttl ∷ [])) [
        | inl lost ↦ subst (λ d. AreNamed token_of (entry d)) (sym lost) sound.1
        | inr sent ↦ λ h w at real.
            elim (set_cases hash v ttl (entry c) h w (sym (sent (token_key h)) ∙ at)) [
              | inl (same, new) ↦ ap token_of (sym new) ∙ its (λ mark. real (sym new ∙ mark)) ∙ same
              | inr (_, before) ↦ sound.1 h w before real
            ]
      ]

      refused : (e : ppchat.Users.Jwt.Error) → Accepts (deny p secret mongo redis x hash c, fail e)
      unfolding deny
      refused e = (set-AreNamed "-" 30000 (λ real. absurd (real refl)), λ s at. absurd (cc))

      hit-Accepts :
          (v : String) (f : Found UserSession)
          → token_of v ≡ hash
          → find_session (with_timeout x 300) db (session_filter v now) ≡ f
          → Accepts (verify_hit p secret mongo redis x hash c f)
      unfolding verify_hit session_filter
      hit-Accepts v (found s) its at =
          let (h, (sid, (valid, (lives, _)))) = find_session-found _ db _ s at in
          let named : s.access_token_hash ≡ hash = sym (sound.0 s h) ∙ ap token_of sid ∙ its in
          (
            sound.1,
            λ r same.
                subst (λ o. Memᴰ o (sessions db) × IsGood hash now o) (ok_inj same)
                  (h, (named, valid, lives)),
          )
      hit-Accepts v no_documents its at = refused _
      hit-Accepts v failed its at = refused _

      miss-Accepts :
          (f : Found UserSession)
          → find_session (with_timeout x 600) db (hash_filter hash now) ≡ f
          → Accepts (verify_miss p secret mongo redis x hash later c f)
      unfolding verify_miss hash_filter
      miss-Accepts (found s) at =
          let (h, (named, (valid, (lives, _)))) = find_session-found _ db _ s at in
          if_elim Accepts (ltb later s.expire_time)
            (λ _. (
              set-AreNamed s.session_id (s.expire_time - later) (λ _. sound.0 s h ∙ named),
              λ r same.
                  subst (λ o. Memᴰ o (sessions db) × IsGood hash now o) (ok_inj same)
                    (h, (named, valid, lives)),
            ))
            (λ _. refused _)
      miss-Accepts no_documents at = refused _
      miss-Accepts failed at = (sound.1, λ s same. absurd (cc))

      cached-Accepts :
          (r : Option String)
          → ((v : String) → r ≡ some v → v ≢ "-" → token_of v ≡ hash)
          → Accepts (verify_cached p secret mongo redis x hash now later db c r)
      unfolding verify_cached
      cached-Accepts none named = miss-Accepts _ refl
      cached-Accepts (some v) named =
          ite_elim Accepts (str_dec v "-") (λ _. (sound.1, λ s same. absurd (cc)))
            (λ real. hit-Accepts v _ (named v refl real) refl)

      got : (v : String) → get x c (token_key hash) ≡ some v → v ≢ "-" → token_of v ≡ hash
      got v at = elim (get_cases x c (token_key hash)) [
        | inl absent ↦ absurd (cc)
        | inr same ↦ sound.1 hash v (sym same ∙ at)
      ]

      claimed-Accepts :
          (claims : Result JwtClaims)
          → Accepts (verify_claimed p secret mongo redis x hash now later db c claims)
      unfolding verify_claimed
      claimed-Accepts (ok its) = cached-Accepts _ got
      claimed-Accepts (fail e) = (sound.1, λ s same. absurd (cc))
      claimed-Accepts panicked = (sound.1, λ s same. absurd (cc))

    run-IsSound :
        (calls : List (Call Ctx)) (db : Db) (c : Cache)
        → AreIssued calls
        → Sound db c
        → let (db', c') = run calls (db, c) in Sound db' c'
    unfolding step verify
    run-IsSound [] db c issued sound = sound
    run-IsSound (logs_in x in_ t ∷ calls) db c (its, issued) sound =
        run-IsSound calls _ _ issued
          (login-IsSound token_of p secret mongo redis x in_ t its db c sound)
    run-IsSound (verifies x token hash at now later ∷ calls) db c issued sound =
        run-IsSound calls db _ issued (sound.0, (claimed-Accepts x hash now later db c sound _).0)
    run-IsSound (expires key ∷ calls) db c issued sound =
        run-IsSound calls db (expire c key) issued (
          sound.0,
          λ h v at real. sound.1 h v (ground (arith, entry-expire c key (token_key h), at)) real,
        )

    -- Whatever calls of MongoDB and Redis fail: after any logins, checks and expiries of keys from an
    -- empty collection and an empty Redis, where each login has a session id that stands for the hash
    -- of its token, a session that `Verify` accepts is one of the collection as it is then, is valid,
    -- has not expired when the query is made, and has the hash that is asked for.
    pub verify-IsGood :
        (calls : List (Call Ctx)) (db : Db) (c : Cache) (x : Ctx) (token hash : String)
        (at now later : Time) (s : UserSession)
        → AreIssued calls
        → sessions db ≡ []
        → ((k : String) → entry c k ≡ none)
        → (verify p secret mongo redis x token hash at now later
            (run calls (db, c)).0
            (run calls (db, c)).1).1
          ≡ ok s
        → Memᴰ s (sessions (run calls (db, c)).0) × IsGood hash now s
    unfolding verify
    verify-IsGood calls db c x token hash at now later s issued empty clear accepted =
        let nothing : AreOwn token_of (sessions db) =
          λ r h. absurd (nothing_in r (subst (Memᴰ r) empty h)) in
        let start : Sound db c =
          (nothing, λ h v kept real. absurd (ground (arith, clear (token_key h), kept))) in
        let sound = run-IsSound calls db c issued start in
        (claimed-Accepts x hash now later _ _ sound
            (jwt_verify p (default_options secret) token hash at)).1
          s accepted
