-- ===== src/Users/Sessions.antt =====
-- module/user/service/user.go: `Login`, `ReLoginArchiveAndReplace`, `Verify`, `GetUserById` and
-- `GetUserByToken`. Each `time.Now()` of a call is a reading of its own.
mod Docs
mod Spec
mod Cached
mod Checked
mod Logged
mod Refined
mod Subject
mod LockedOut
mod Sound
mod Accepted
mod Sample
use Prim.Native.String.{String, ◌++◌}
use ppchat.Prelude.{
  ℕ, ◌+◌, ◌-◌, Bool, true, false, Option, none, some, List, [], ◌∷◌, ◌++◌ as ◌+++◌, not, ◌&&◌, ltb,
  if◌then◌else◌, ite, str_dec,
}
use ppchat.Users.Jwt.{
  Time, Packages, JwtClaims, Result, Error, ok, fail, panicked, and_then, default_options, generate,
  jwt_verify, find_user_failed, no_user_id, mongo_failed, token_expired, token_verify_failed,
}
use ppchat.Users.Store.{
  Mongo, Redis, UserSession, Cond, user_id_is, device_type_is, device_id_is, session_id_is,
  token_hash_is, is_valid_is, expires_after, Found, found, no_documents, failed, Replaced, replaced,
  not_replaced, Command, del, set,
}
unfoldable pub use ppchat.Users.Requests.{
  token_key, device_filter, valid_filter, session_filter, hash_filter, revoke, publish, new_session,
}
pub use ppchat.Users.Requests.{UserSessionKey, LoginParams, Readings, login_now, user_found}

module _ (p : Packages) (secret : String) (mongo : Mongo) (redis : Redis (Mongo.Ctx mongo)) where
  open mongo use {
    Ctx, Db, with_timeout, find_session, find_user, insert_log, update_by_id, replace_session,
    recoded,
  }
  open redis use {Cache, get, send}

  -- The database, the cache, and what the call returned.
  abbrev pub Outcome : Type 0 → Type 0
  Outcome A = Db × Cache × Result A

  -- The user's document stands for itself by its `user_id`.
  unfoldable pub get_user_by_id : Ctx → Db → String → Result String
  get_user_by_id x db id = user_found (find_user x db (p.trim_space id))

  replace_sent : Ctx → Option UserSession → UserSession → Time → Cache → Replaced Db → Outcome Unit
  replace_sent x old s now c (not_replaced db) = (db, c, panicked)
  replace_sent x old s now c (replaced db) = (db, send x c (revoke old +++ publish s now), ok tt)

  -- From `newRec.UpdateTime = time.Now()` on. `res.MatchedCount` is read before the error is.
  unfoldable pub replace_new :
      Ctx → UserSessionKey → UserSession → Readings → Option UserSession → Db → Cache → Outcome Unit
  unfolding replace_sent
  replace_new x key rec_ t old db c =
      let stored = record rec_ { update_time = t.at_new } in
      replace_sent x old stored t.at_cache c (replace_session x db (device_filter key) stored)

  replace_logged :
      Ctx
      → UserSessionKey
      → UserSession
      → Readings
      → UserSession
      → Db
      → Cache
      → Option Db
      → Outcome Unit
  unfolding replace_new
  replace_logged x key rec_ t o db c none = (db, c, fail mongo_failed)
  replace_logged x key rec_ t o db c (some db') =
      let old = record o { is_valid = false; update_time = t.at_old } in
      replace_new x key rec_ t (some old) (update_by_id x db' o.session_id old) c

  -- The log of old sessions gets the one that is found.
  unfoldable pub replace_found :
      Ctx → UserSessionKey → UserSession → Readings → Db → Cache → Found UserSession → Outcome Unit
  unfolding replace_logged replace_new
  replace_found x key rec_ t db c failed = (db, c, fail mongo_failed)
  replace_found x key rec_ t db c no_documents = replace_new x key rec_ t none db c
  replace_found x key rec_ t db c (found o) =
      replace_logged x key rec_ t o db c
        (insert_log x db (record (recoded o) { reason = "relogin" }))

  unfoldable pub re_login_archive_and_replace :
      Ctx → UserSessionKey → UserSession → Readings → Db → Cache → Outcome Unit
  unfolding replace_found
  re_login_archive_and_replace x key rec_ t db c =
      replace_found x key rec_ t db c (find_session x db (valid_filter key))

  return_session : UserSession → Outcome Unit → Outcome UserSession
  return_session s (db, c, ok _) = (db, c, ok s)
  return_session s (db, c, fail e) = (db, c, fail e)
  return_session s (db, c, panicked) = (db, c, panicked)

  -- `Login` after the token.
  unfoldable pub login_signed :
      Ctx
      → LoginParams
      → Readings
      → String
      → Db
      → Cache
      → Result (String × String × Time)
      → Outcome UserSession
  unfolding return_session re_login_archive_and_replace new_session
  login_signed x in_ t id db c (fail e) = (db, c, fail e)
  login_signed x in_ t id db c panicked = (db, c, panicked)
  login_signed x in_ t id db c (ok (token, hash, exp)) =
      let key : UserSessionKey = record {
        user_id = id;
        device_type = in_.device_type;
        device_id = in_.device_id;
      } in
      let rec_ = new_session in_ (login_now in_.now t.at_login) token hash exp in
      return_session rec_ (re_login_archive_and_replace x key rec_ t db c)

  unfoldable pub login_known :
      Ctx → LoginParams → Readings → Db → Cache → Result String → Outcome UserSession
  unfolding login_signed
  login_known x in_ t db c (fail e) = (db, c, fail e)
  login_known x in_ t db c panicked = (db, c, panicked)
  login_known x in_ t db c (ok id) =
      login_signed x in_ t id db c
        (generate p (default_options secret) in_.user_id in_.scopes t.at_token)

  unfoldable pub login : Ctx → LoginParams → Readings → Db → Cache → Outcome UserSession
  unfolding get_user_by_id login_known
  login x in_ t db c = login_known x in_ t db c (get_user_by_id x db in_.user_id)

  -- The entry "-", for 30 seconds.
  unfoldable pub deny : Ctx → String → Cache → Cache
  unfolding token_key
  deny x hash c = send x c (set (token_key hash) "-" 30000 ∷ [])

  -- Any error of the query counts as a session that was revoked.
  unfoldable pub verify_hit : Ctx → String → Cache → Found UserSession → Cache × Result UserSession
  verify_hit x hash c (found s) = (c, ok s)
  verify_hit x hash c no_documents = (deny x hash c, fail token_expired)
  verify_hit x hash c failed = (deny x hash c, fail token_expired)

  unfoldable pub verify_miss :
      Ctx → String → Time → Cache → Found UserSession → Cache × Result UserSession
  unfolding token_key
  verify_miss x hash later c failed = (c, fail mongo_failed)
  verify_miss x hash later c no_documents = (deny x hash c, fail token_expired)
  verify_miss x hash later c (found s) =
      if ltb later s.expire_time
      then (send x c (set (token_key hash) s.session_id (s.expire_time - later) ∷ []), ok s)
      else (deny x hash c, fail token_expired)

  -- The token is checked at `at`, the filter is made at `now`, and `time.Until` is called at `later`.
  unfoldable pub verify_cached :
      Ctx → String → Time → Time → Db → Cache → Option String → Cache × Result UserSession
  unfolding verify_miss verify_hit
  verify_cached x hash now later db c none =
      verify_miss x hash later c (find_session (with_timeout x 600) db (hash_filter hash now))
  verify_cached x hash now later db c (some v) =
      let hit = verify_hit x hash c (find_session (with_timeout x 300) db (session_filter v now)) in
      ite (str_dec v "-") (c, fail token_expired) hit

  unfoldable pub verify_claimed :
      Ctx → String → Time → Time → Db → Cache → Result JwtClaims → Cache × Result UserSession
  unfolding verify_cached token_key
  verify_claimed x hash now later db c (fail e) = (c, fail e)
  verify_claimed x hash now later db c panicked = (c, panicked)
  verify_claimed x hash now later db c (ok _) =
      verify_cached x hash now later db c (get x c (token_key hash))

  unfoldable pub verify :
      Ctx → String → String → Time → Time → Time → Db → Cache → Cache × Result UserSession
  unfolding verify_claimed
  verify x token hash at now later db c =
      verify_claimed x hash now later db c (jwt_verify p (default_options secret) token hash at)

  user_claimed : Ctx → Db → Option String → Result String
  unfolding get_user_by_id
  user_claimed x db none = fail no_user_id
  user_claimed x db (some id) = get_user_by_id x db id

  -- The error of a check is wrapped.
  user_verified : Ctx → Db → Result JwtClaims → Result String
  unfolding user_claimed
  user_verified x db (fail e) = fail (token_verify_failed e)
  user_verified x db panicked = panicked
  user_verified x db (ok claims) = user_claimed x db (p.get_subject claims)

  unfoldable pub get_user_by_token : Ctx → Db → String → String → Time → Result String
  unfolding user_verified
  get_user_by_token x db token hash now =
      user_verified x db (jwt_verify p (default_options secret) token hash now)
