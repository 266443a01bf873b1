-- ===== src/Storage/Online/Scripts.antt =====
-- The Lua scripts of service/storage/online.go, in the order of the file. `at` is the time of the
-- server when the script runs; `now` and `exp_at` are seconds that the caller computed.
use ppchat.Prelude.{
  ℕ, ◌+◌, ◌*◌, String, Bool, true, false, none, some, List, [], ◌∷◌, ltb, ◌==◌, if◌then◌else◌,
}
use ppchat.Storage.Online.RedisIndex.{Time, Second, RedisIndex}

-- The replies 1, 0 and -1 of `luaBindUser`.
pub data BindReply : Type 0 where
  bound unknown conflict : BindReply

module _ (redis : RedisIndex) where
  open redis use {
    Keys, holds, score, deadline, set, del, zadd, zrem, zrem_range, expire, zrange, zcount, zlast,
  }

  -- `SET key 1`, with an expiry in the second `exp_at` or in `ttl` seconds.
  unfoldable pub set_session : Bool → String → Second → Second → Time → Keys → Keys
  set_session use_exat key ttl exp_at at r =
      if use_exat
      then expire (set r key none) key at (exp_at * 1000)
      else set r key (some (at + ttl * 1000))

  unfoldable pub bind_found :
      String → String → String → String → Second → Second → Bool → Time → Keys → Keys × BindReply
  unfolding set_session
  bind_found unauth_z user_z k_unauth k_auth ttl exp_at use_exat at r =
      let r1 = del (zrem r unauth_z k_unauth) k_unauth in
      let r2 = zadd (set_session use_exat k_auth ttl exp_at at r1) user_z exp_at k_auth in
      (expire r2 user_z at (at + ttl * 2 * 1000), bound)

  -- `luaBindUser`
  unfoldable pub lua_bind_user :
      String → String → String → String → Second → Second → Bool → Time → Keys → Keys × BindReply
  unfolding bind_found
  lua_bind_user unauth_z user_z k_unauth k_auth ttl exp_at use_exat at r =
      if holds r k_auth
      then (r, conflict)
      else if holds r k_unauth
      then bind_found unauth_z user_z k_unauth k_auth ttl exp_at use_exat at r
      else (zrem r unauth_z k_unauth, unknown)

  -- `for _, v in ipairs(victims) do ZREM z v; DEL v end`
  unfoldable pub remove_each : String → List String → Keys → Keys
  remove_each z [] r = r
  remove_each z (v ∷ vs) r = remove_each z vs (del (zrem r z v) v)

  -- `if ZCARD z > 0 then EXPIRE z 3600 end`
  unfoldable pub touch : String → Time → Keys → Keys
  touch z at r = if ltb 0 (zcount r z 0 none) then expire r z at (at + 3600 * 1000) else r

  -- The members whose time is `now` or before, and the keys without them.
  unfoldable pub drop_due : String → Second → Keys → Keys × List String
  unfolding remove_each
  drop_due z now r = let victims = zrange r z 0 (some now) in (remove_each z victims r, victims)

  -- `luaSweepUnauth` and `luaSweepAuthed`, which are the same text
  unfoldable pub lua_sweep : String → Second → Time → Keys → Keys × List String
  unfolding drop_due touch
  lua_sweep z now at r = let (r1, victims) = drop_due z now r in (touch z at r1, victims)

  -- `luaOfflineUnauthOne` and `luaOfflineOne`: whether the session was there
  unfoldable pub lua_offline_one : String → String → Keys → Keys × Bool
  lua_offline_one z k r = (zrem (del r k) z k, holds r k)

  -- `for _, k in ipairs(members) do DEL k end`
  unfoldable pub del_each : List String → Keys → Keys
  del_each [] r = r
  del_each (k ∷ ks) r = del_each ks (del r k)

  -- `luaLogoutAll`
  unfoldable pub lua_logout_all : String → Keys → Keys × List String
  unfolding del_each
  lua_logout_all z r = let members = zrange r z 0 none in (del (del_each members r) z, members)

  -- `luaGetActiveAndSweep`
  unfoldable pub lua_get_active : String → Second → Time → Keys → Keys × List String
  unfolding drop_due touch
  lua_get_active z now at r =
      let r1 = (drop_due z now r).0 in (touch z at r1, zrange r1 z (now + 1) none)

  -- `luaIsOnline`
  unfoldable pub lua_is_online : String → Second → Time → Keys → Keys × Bool × ℕ
  unfolding drop_due touch
  lua_is_online z now at r =
      let r1 = (drop_due z now r).0 in
      let cnt = zcount r1 z (now + 1) none in
      (touch z at r1, ltb 0 cnt, if ltb 0 cnt then cnt else 0)

  -- `luaGetNewestActive`
  unfoldable pub lua_get_newest : String → Second → Time → Keys → Keys × String
  unfolding drop_due touch
  lua_get_newest z now at r =
      let r1 = (drop_due z now r).0 in
      (touch z at r1, elim (zlast r1 z (now + 1)) [ none ↦ "" | some k ↦ k ])

  -- The end of `luaHeartbeatAuth`: the expiry of the index.
  unfoldable pub refresh_index : String → Second → Bool → Time → Keys → Keys
  refresh_index z z_ttl refresh at r =
      if z_ttl == 0
      then r
      else if refresh
      then expire r z at (at + z_ttl * 1000)
      else elim (deadline r z) [ some t ↦ r | none ↦ expire r z at (at + z_ttl * 1000) ]

  -- `luaHeartbeatAuth` past its check; ZREMRANGEBYSCORE leaves the session keys.
  unfoldable pub heartbeat_found :
      String
      → String
      → Second
      → Second
      → Second
      → Bool
      → String
      → Second
      → Bool
      → Bool
      → Time
      → Keys
      → Keys
  unfolding refresh_index
  heartbeat_found z k ttl now exp_at use_exat member z_ttl refresh clean at r =
      let r1 = expire r k at (if use_exat then exp_at * 1000 else at + ttl * 1000) in
      let r2 = if clean then zrem_range r1 z now else r1 in
      refresh_index z z_ttl refresh at (zadd r2 z exp_at member)

  -- `luaHeartbeatAuth`: whether the session was there
  unfoldable pub lua_heartbeat_auth :
      String
      → String
      → Second
      → Second
      → Second
      → Bool
      → String
      → Second
      → Bool
      → Bool
      → Time
      → Keys
      → Keys × Bool
  unfolding heartbeat_found
  lua_heartbeat_auth z k ttl now exp_at use_exat member z_ttl refresh clean at r =
      if holds r k
      then (heartbeat_found z k ttl now exp_at use_exat member z_ttl refresh clean at r, true)
      else (r, false)
