-- ===== src/Users/Sessions/Logged.antt =====
-- `Login` against the map from devices to sessions.
use ppchat.Prelude.{
  ◌≡◌, ◌≢◌, ◌≤◌, inr, refl, sym, subst, ◌∙◌, true, false, String, Option, none, some,
}
use ppchat.Users.Jwt.{Time, Packages, Result, ok, fail, panicked, default_options, generate}
use ppchat.Users.Jwt.Tokens.{generate_hash-ne, generate-ne}
use ppchat.Users.Store.{
  Mongo, Redis, UserSession, Found, found, no_documents, failed, Replaced, replaced, not_replaced,
}
use ppchat.Users.Sessions.{
  UserSessionKey, LoginParams, Readings, device_filter, login_now, new_session, replace_sent,
  replace_new, replace_logged, return_session, user_found, replace_found,
  re_login_archive_and_replace, login_signed, login_known, login, get_user_by_id,
}
use ppchat.Users.Sessions.Docs.{key_of}
use ppchat.Users.Sessions.Spec.{Devices, assign, Issue, IsIssued, Steady, LoginAllowed, key_in}
use ppchat.Users.Sessions.Cached.{Agrees, IsOwn, entries-Agrees, upserted-Agrees}

module _ (p : Packages) (secret : String) (mongo : Mongo) (redis : Redis (Mongo.Ctx mongo))
    (issue : Issue) (steady : Steady p secret mongo redis) where
  open mongo use {
    Ctx, Db, sessions, find_session, find_user, find_user-found, insert_log, replace_session,
    update_by_id, recoded, sessions-insert_log, sessions-update_by_id, sessions-replaced,
  }
  open redis use {Cache, entry, entry-expire}

  module _ (x : Ctx) (clock : Time) (t : Readings) (c : Cache) (a : Devices)
      (goes : clock ≤ t.at_cache) where
    module _ (key : UserSessionKey) (rec_ : UserSession) (named : key_of rec_ ≡ key)
        (own : IsOwn issue rec_) (some_hash : rec_.access_token_hash ≢ "") where
      abbrev stored : UserSession
      stored = record rec_ { update_time = t.at_new }

      -- The map after the replacement.
      abbrev Written : Db × Cache × Result Unit → Type 0
      Written (db, c', ok _) =
          Agrees issue t.at_cache (sessions db) (entry c') (assign key stored a)
      Written (db, c', fail e) = Agrees issue t.at_cache (sessions db) (entry c') a
      Written (db, c', panicked) = ⊥

      replace_sent-Written :
          (old : Option UserSession) (db : Db) (r : Replaced Db)
          → Agrees issue clock (sessions db) (entry c) a
          → replace_session x db (device_filter key) stored ≡ r
          → Written (replace_sent p secret mongo redis x old stored t.at_cache c r)
      unfolding replace_sent
      replace_sent-Written old db (replaced db') g at =
          upserted-Agrees issue key stored old (sessions db') g goes
            (sessions-replaced x db db' _ stored at) named own some_hash (λ k. steady.2 x c _ k)
      replace_sent-Written old db (not_replaced db') g at = absurd (steady.1 x db db' _ stored at)

      replace_new-Written :
          (old : Option UserSession) (db : Db)
          → Agrees issue clock (sessions db) (entry c) a
          → Written (replace_new p secret mongo redis x key rec_ t old db c)
      unfolding replace_new
      replace_new-Written old db g = replace_sent-Written old db _ g refl

      later :
          (db : Db)
          → Agrees issue clock (sessions db) (entry c) a
          → Agrees issue t.at_cache (sessions db) (entry c) a
      later db g = entries-Agrees issue g goes (λ h v at. inr at)

      replace_logged-Written :
          (o s : UserSession) (db : Db) (r : Option Db)
          → Agrees issue clock (sessions db) (entry c) a
          → insert_log x db s ≡ r
          → Written (replace_logged p secret mongo redis x key rec_ t o db c r)
      unfolding replace_logged
      replace_logged-Written o s db none g at = later db g
      replace_logged-Written o s db (some db') g at =
          let old : UserSession = record o { is_valid = false; update_time = t.at_old } in
          replace_new-Written (some old) (update_by_id x db' o.session_id old) (
            subst (λ docs. Agrees issue clock docs (entry c) a)
              (sym
                (sessions-update_by_id x db' o.session_id old ∙ sessions-insert_log x db db' s at))
              g)

      replace_found-Written :
          (db : Db) (f : Found UserSession)
          → Agrees issue clock (sessions db) (entry c) a
          → Written (replace_found p secret mongo redis x key rec_ t db c f)
      unfolding replace_found
      replace_found-Written db (found o) g = replace_logged-Written o _ db _ g refl
      replace_found-Written db no_documents g = replace_new-Written none db g
      replace_found-Written db failed g = later db g

      re_login-Written :
          (db : Db)
          → Agrees issue clock (sessions db) (entry c) a
          → Written (re_login_archive_and_replace p secret mongo redis x key rec_ t db c)
      unfolding re_login_archive_and_replace
      re_login-Written db g = replace_found-Written db _ g

    module _ (in_ : LoginParams) (issued : IsIssued p secret issue in_ t.at_token) where
      -- What a login comes to.
      abbrev Logged : Db × Cache × Result UserSession → Type 0
      Logged (db, c', r) =
          (a' : Devices) × LoginAllowed a in_ r a'
          × Agrees issue t.at_cache (sessions db) (entry c') a'

      return_session-Logged :
          (s : UserSession) (out : Db × Cache × Result Unit)
          → key_of s ≡ key_in in_
          → s.session_id ≡ in_.session_id
          → s.is_valid ≡ true
          → (some_hash : s.access_token_hash ≢ "") → (own : IsOwn issue s)
          → Written (key_of s) s refl own some_hash out
          → Logged (return_session p secret mongo redis s out)
      unfolding return_session
      return_session-Logged s (db, c', ok _) named sid valid some_hash own w = (
        assign (key_of s) (record s { update_time = t.at_new }) a,
        (named, sid, valid, (t.at_new, refl)),
        w,
      )
      return_session-Logged s (db, c', fail e) named sid valid some_hash own w = (a, refl, w)
      return_session-Logged s (db, c', panicked) named sid valid some_hash own w = absurd w

      new_session-Logged :
          (db : Db) (token hash : String) (exp : Time)
          → Agrees issue clock (sessions db) (entry c) a
          → generate p (default_options secret) in_.user_id in_.scopes t.at_token
            ≡ ok (token, hash, exp)
          → Logged
              (login_signed p secret mongo redis x in_ t in_.user_id db c (ok (token, hash, exp)))
      unfolding login_signed new_session
      new_session-Logged db token hash exp g at =
          let (trimmed, real, device, its) = issued in
          let s = new_session in_ (login_now in_.now t.at_login) token hash exp in
          let some_hash =
            generate_hash-ne p (default_options secret) in_.user_id in_.scopes t.at_token token hash
              exp at in
          let own : IsOwn issue s = (its token hash exp at, device, real) in
          return_session-Logged s _ refl refl refl some_hash own
            (re_login-Written (key_in in_) s refl own some_hash db g)

      login_signed-Logged :
          (id : String) (db : Db) (r : Result (String × String × Time))
          → id ≡ in_.user_id
          → Agrees issue clock (sessions db) (entry c) a
          → generate p (default_options secret) in_.user_id in_.scopes t.at_token ≡ r
          → Logged (login_signed p secret mongo redis x in_ t id db c r)
      unfolding login_signed
      login_signed-Logged id db (ok (token, hash, exp)) same g at =
          subst
            (λ id.
              Logged (login_signed p secret mongo redis x in_ t id db c (ok (token, hash, exp))))
            (sym same) (new_session-Logged db token hash exp g at)
      login_signed-Logged id db (fail e) same g at =
          (a, refl, entries-Agrees issue g goes (λ h v k. inr k))
      login_signed-Logged id db panicked same g at =
          absurd (generate-ne p (default_options secret) in_.user_id in_.scopes t.at_token at)

      login_known-Logged :
          (db : Db) (f : Found String)
          → find_user x db (p.trim_space in_.user_id) ≡ f
          → Agrees issue clock (sessions db) (entry c) a
          → Logged (login_known p secret mongo redis x in_ t db c (user_found f))
      unfolding login_known
      login_known-Logged db (found id) at g =
          login_signed-Logged id db _ (find_user-found x db _ id at ∙ issued.0) g refl
      login_known-Logged db no_documents at g =
          (a, refl, entries-Agrees issue g goes (λ h v k. inr k))
      login_known-Logged db failed at g = (a, refl, entries-Agrees issue g goes (λ h v k. inr k))

      pub login-Logged :
          (db : Db)
          → Agrees issue clock (sessions db) (entry c) a
          → Logged (login p secret mongo redis x in_ t db c)
      unfolding login get_user_by_id
      login-Logged db g = login_known-Logged db _ refl g
