-- ===== src/Storage/Online/Store.antt =====
-- The methods of `OnlineStore`. Each returns the keys after it, its result, and what it publishes;
-- `at` is the reading of the clock, which the server shares. The calls to Redis succeed; the method
-- returns the error of one that fails.
use Prim.Native.String.{◌++◌}
use ppchat.Prelude.{
  ℕ, ◌+◌, ◌*◌, ◌/◌, String, ite, Bool, true, false, ◌&&◌, Option, none, some, List, [], ◌∷◌, length,
  ltb, ◌==◌, if◌then◌else◌, str_dec,
}
use ppchat.Storage.Online.RedisIndex.{Time, Second, RedisIndex}
use ppchat.Storage.Online.Keys.{
  OnlineConfig, unauth_session_key, unauth_index_key, session_key, user_index_key,
  tagged_session_key, tagged_index_key,
}
use ppchat.Storage.Online.Scripts.{
  BindReply, bound, unknown, conflict, lua_bind_user, lua_sweep, lua_offline_one, lua_logout_all,
  lua_get_active, lua_is_online, lua_get_newest, lua_heartbeat_auth,
}

-- `strings.Join`
abbrev pub join : String → List String → String
join sep [] = ""
join sep (s ∷ []) = s
join sep (s ∷ t ∷ ts) = s ++ sep ++ join sep (t ∷ ts)

-- The result, or the code of the error.
pub data Authorized : Type 0 where
  authorized : Bool → Authorized
  stage_disabled record_exists : Authorized

-- `now.Unix()`, and the second after a ttl.
abbrev pub unix : Time → Second
unix at = at / 1000

module _ (redis : RedisIndex) (conf : OnlineConfig) where
  open redis use {Keys, set, zadd, expire}

  -- `Connect`, for the id that the generator gives; no result where the stage is off.
  unfoldable pub connect : String → Time → Keys → Keys × Option (String × String)
  unfolding unauth_session_key unauth_index_key
  connect snow at r =
      if conf.unauth_ttl == 0
      then (r, none)
      else let key = unauth_session_key conf snow in
        let z = unauth_index_key conf in
        let exp_at = unix (at + conf.unauth_ttl) in
        let r1 =
          if conf.use_exat
          then expire (set r key none) key at (exp_at * 1000)
          else set r key (some (at + conf.unauth_ttl)) in
        let r2 = zadd r1 z exp_at key in
        (expire r2 z at (at + conf.unauth_ttl * 2), some (key, snow))

  unfoldable pub heartbeat_unauth : String → Time → Keys → Keys
  unfolding unauth_session_key unauth_index_key
  heartbeat_unauth snow at r =
      if conf.unauth_ttl == 0
      then r
      else let key = unauth_session_key conf snow in
        let z = unauth_index_key conf in
        let exp_at = unix (at + conf.unauth_ttl) in
        let r1 = expire r key at (if conf.use_exat then exp_at * 1000 else at + conf.unauth_ttl) in
        expire (zadd r1 z exp_at key) z at (at + conf.unauth_ttl * 2)

  unfoldable pub heartbeat_authorized : String → String → String → Time → Keys → Keys × Bool
  unfolding lua_heartbeat_auth
  heartbeat_authorized gateway user snow at r =
      let z = tagged_index_key gateway user in
      let k = tagged_session_key gateway user snow in
      lua_heartbeat_auth redis z k (conf.ttl / 1000) (unix at) (unix (at + conf.ttl)) conf.use_exat
        k (conf.user_index_ttl / 1000) true true at r

  -- The victims, and the payload.
  unfoldable pub sweep_unauth : Bool → Time → Keys → Keys × List String × List String
  unfolding unauth_index_key lua_sweep
  sweep_unauth publish at r =
      if conf.unauth_ttl == 0
      then (r, [], [])
      else let (r1, victims) = lua_sweep redis (unauth_index_key conf) (unix at) at r in
        (
          r1,
          victims,
          if publish && ltb 0 (length victims)
              then ("UNAUTH_KICK:" ++ join "," victims) ∷ []
              else [],
        )

  unfoldable pub offline_unauth : String → Bool → String → Keys → Keys × Bool × List String
  unfolding unauth_session_key unauth_index_key lua_offline_one
  offline_unauth snow publish reason r =
      if conf.unauth_ttl == 0
      then (r, false, [])
      else let k = unauth_session_key conf snow in
        let (r1, ok) = lua_offline_one redis (unauth_index_key conf) k r in
        (r1, ok, if publish && ok then ("UNAUTH_OFFLINE:" ++ k ++ ":" ++ reason) ∷ [] else [])

  abbrev bind_result : BindReply → Authorized
  bind_result bound = authorized true
  bind_result unknown = authorized false
  bind_result conflict = record_exists

  unfoldable pub authorize : String → String → Time → Keys → Keys × Authorized
  unfolding unauth_session_key unauth_index_key session_key user_index_key lua_bind_user
  authorize user snow at r =
      if conf.unauth_ttl == 0
      then (r, stage_disabled)
      else let (r1, reply) =
          lua_bind_user redis (unauth_index_key conf) (user_index_key conf user)
            (unauth_session_key conf snow) (session_key conf user snow) (conf.ttl / 1000)
            (unix (at + conf.ttl)) conf.use_exat at r in
        (r1, bind_result reply)

  -- `trim_space` is `strings.TrimSpace`.
  unfoldable pub offline :
      (String → String) → String → String → Bool → String → Keys → Keys × Bool × List String
  unfolding offline_unauth session_key user_index_key lua_offline_one
  offline trim_space user snow publish reason r =
      ite (str_dec (trim_space user) "") (offline_unauth snow publish reason r) (
        let k = session_key conf user snow in
        let (r1, ok) = lua_offline_one redis (user_index_key conf user) k r in
        (r1, ok, if publish && ok then ("OFFLINE:" ++ k ++ ":" ++ reason) ∷ [] else []))

  unfoldable pub force_logout_user :
      String → Bool → String → Keys → Keys × List String × List String
  unfolding user_index_key lua_logout_all
  force_logout_user user publish reason r =
      let (r1, keys) = lua_logout_all redis (user_index_key conf user) r in
      (
        r1,
        keys,
        if publish && ltb 0 (length keys)
            then ("FORCE_LOGOUT:" ++ user ++ ":" ++ reason ++ ":" ++ join "," keys) ∷ []
            else [],
      )

  unfoldable pub sweep_authed_user : String → Bool → Time → Keys → Keys × List String × List String
  unfolding user_index_key lua_sweep
  sweep_authed_user user publish at r =
      let (r1, victims) = lua_sweep redis (user_index_key conf user) (unix at) at r in
      (
        r1,
        victims,
        if publish && ltb 0 (length victims)
            then ("EXPIRE_CLEAN:" ++ user ++ ":" ++ join "," victims) ∷ []
            else [],
      )

  unfoldable pub is_online : String → Time → Keys → Keys × Bool × ℕ
  unfolding user_index_key lua_is_online
  is_online user at r = lua_is_online redis (user_index_key conf user) (unix at) at r

  unfoldable pub get_active_sessions : String → Time → Keys → Keys × List String
  unfolding user_index_key lua_get_active
  get_active_sessions user at r = lua_get_active redis (user_index_key conf user) (unix at) at r

  unfoldable pub get_newest_session : String → Time → Keys → Keys × String
  unfolding user_index_key lua_get_newest
  get_newest_session user at r =
      let (r1, newest) = lua_get_newest redis (user_index_key conf user) (unix at) at r in
      (r1, ite (str_dec newest "(nil)") "" newest)
