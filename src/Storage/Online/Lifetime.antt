-- ===== src/Storage/Online/Lifetime.antt =====
-- A session from its authorization to its end.
use Prim.Native.String.{String, ◌++◌, ◌∷◌}
use Prim.Native.Char.{code}
use text.Mathlib.TextLemmas.{cons-append}
use ppchat.Prelude.{
  ℕ, ◌+◌, ◌*◌, ◌/◌, ◌≤◌, ◌<◌, ◌≡◌, ◌≢◌, refl, arith, ap, Bool, true, false, not, ◌&&◌, none, some,
  List, [], ◌∷◌, length, ltb, ◌==◌, Bool-cases, inl, inr,
}
use ppchat.Storage.Online.RedisIndex.{Time, Second, RedisIndex, occurs, within, alive}
use ppchat.Storage.Online.Keys.{
  OnlineConfig, unauth_session_key, unauth_index_key, session_key, user_index_key,
}
use ppchat.Storage.Online.Scripts.{
  set_session, bind_found, lua_bind_user, drop_due, lua_is_online, del_each, lua_logout_all,
}
use ppchat.Storage.Online.Store.{authorized, unix, authorize, is_online, force_logout_user}
use ppchat.Storage.Online.Sweeping.{length_of-occurs, nil_of-occurs, active-member}

second_char : String → ℕ
second_char String.[] = 0
second_char (String.◌∷◌ c String.[]) = 0
second_char (String.◌∷◌ c (String.◌∷◌ d s)) = code d

second_char-user_index_key :
    (conf : OnlineConfig) (user : String) → second_char (user_index_key conf user) ≡ b'i'
unfolding user_index_key second_char
second_char-user_index_key conf user = elim (Bool-cases conf.use_cluster_tag) [
  | inl tagged ↦
      let rest = conf.node_id ++ ":" ++ user ++ "}" in
      rw (tagged, cons-append "n" "idx:{" rest, cons-append "i" "dx:{" rest) refl
  | inr plain ↦
      let rest = conf.node_id ++ ":u:" ++ user in
      rw (plain, cons-append "n" "idx:" rest, cons-append "i" "dx:" rest) refl
]

second_char-session_key :
    (conf : OnlineConfig) (user snow : String) → second_char (session_key conf user snow) ≡ b':'
unfolding session_key second_char
second_char-session_key conf user snow = elim (Bool-cases conf.use_cluster_tag) [
  | inl tagged ↦
      let rest = conf.node_id ++ ":" ++ user ++ "}:id:" ++ snow in
      rw (tagged, cons-append "n" ":{" rest, cons-append ":" "{" rest) refl
  | inr plain ↦
      let rest = conf.node_id ++ ":id:" ++ snow ++ ":u:" ++ user in
      rw (plain, cons-append "n" ":" rest, cons-append ":" "" rest) refl
]

-- The one begins with `n:`, the other with `ni`.
pub user_index_key-ne :
    (conf : OnlineConfig) (user snow : String)
    → user_index_key conf user ≢ session_key conf user snow
user_index_key-ne conf user snow same = omega (
  arith,
  ap second_char same,
  second_char-user_index_key conf user,
  second_char-session_key conf user snow,
)

module _ (redis : RedisIndex) where
  open redis use {Keys, holds, score, deadline, set, del, zadd, zrem, expire, pass, zrange, zcount}
  open redis use {
    holds-set, score-set, deadline-set, holds-del, score-del, deadline-del, holds-zadd, score-zadd,
    deadline-zadd, holds-zrem, score-zrem, deadline-zrem, holds-expire, score-expire,
    deadline-expire, deadline-expire_set, holds-pass, score-pass, occurs-zrange, zcount-zrange,
  }

  -- The answer of the script is whether a member is not due.
  is_online-member :
      (z : String) (now : Second) (at : Time) (r : Keys) (m : String)
      → score r z z ≡ none
      → within (now + 1) none (score r z m) ≡ true
      → (lua_is_online redis z now at r).1 ≡ true
  unfolding lua_is_online
  is_online-member z now at r m apart late =
      let r1 = (drop_due redis z now r).0 in
      let some_left =
        length_of-occurs m (zrange r1 z (now + 1) none)
          (ground (arith, active-member redis z now r apart m, late)) in
      ground (arith, zcount-zrange r1 z (now + 1) none, some_left)

  is_online-empty :
      (z : String) (now : Second) (at : Time) (r : Keys)
      → ((m : String) → score r z m ≡ none)
      → ((lua_is_online redis z now at r).1 ≡ false) × ((lua_is_online redis z now at r).2 ≡ 0)
  unfolding lua_is_online
  is_online-empty z now at r empty =
      let r1 = (drop_due redis z now r).0 in
      let nobody : zrange r1 z (now + 1) none ≡ [] =
        nil_of-occurs _ (λ m. ground (arith, active-member redis z now r (empty z) m, empty m)) in
      let zero_count : zcount r1 z (now + 1) none ≡ 0 =
        ground
          (arith, zcount-zrange r1 z (now + 1) none, ap (λ (xs : List String). length xs) nobody) in
      (rw zero_count refl, rw zero_count refl)

  -- What the binding of a session leaves, for any names of the keys.
  module _ (unauth_z user_z k_unauth k_auth : String) (ttl exp_at : Second) (use_exat : Bool)
      (at : Time) (r : Keys) where
    -- After the write of the session, which is not the index.
    set_session-score :
        (r : Keys)
        → user_z ≢ k_auth
        → (m : String)
        → score (set_session redis use_exat k_auth ttl exp_at at r) user_z m ≡ score r user_z m
    unfolding set_session
    set_session-score r apart m = ground (
      arith,
      apart,
      score-set r k_auth none user_z m,
      score-set r k_auth (some (at + ttl * 1000)) user_z m,
      score-expire (set r k_auth none) k_auth at (exp_at * 1000) user_z m,
    )

    set_session-holds :
        (r : Keys) (k : String)
        → k_auth ≢ k
        → holds (set_session redis use_exat k_auth ttl exp_at at r) k ≡ holds r k
    unfolding set_session
    set_session-holds r k apart = ground (
      arith,
      apart,
      holds-set r k_auth none k,
      holds-set r k_auth (some (at + ttl * 1000)) k,
      holds-expire (set r k_auth none) k_auth at (exp_at * 1000) k,
    )

    bind_found_lem :
        user_z ≢ k_auth
        → k_auth ≢ k_unauth
        → score r user_z user_z ≡ none
        → 0 < ttl
        → let r' = (bind_found redis unauth_z user_z k_unauth k_auth ttl exp_at use_exat at r).0 in
          (score r' user_z k_auth ≡ some exp_at)
          × (score r' user_z user_z ≡ none)
          × (deadline r' user_z ≡ some (at + ttl * 2 * 1000))
          × (holds r' k_unauth ≡ false)
    unfolding bind_found
    bind_found_lem apart renamed own positive =
        let r0 = zrem r unauth_z k_unauth in
        let r1 = del r0 k_unauth in
        let r2 = set_session redis use_exat k_auth ttl exp_at at r1 in
        let r3 = zadd r2 user_z exp_at k_auth in
        let deadline_at = at + ttl * 2 * 1000 in
        let later : ltb at (at + ttl * 2 * 1000) ≡ true = ground arith in
        let member : score (expire r3 user_z at deadline_at) user_z k_auth ≡ some exp_at = ground (
          arith,
          later,
          score-expire r3 user_z at deadline_at user_z k_auth,
          score-zadd r2 user_z exp_at k_auth user_z k_auth,
        ) in
        (
          member,
          ground (
            arith,
            later,
            apart,
            own,
            score-expire r3 user_z at deadline_at user_z user_z,
            score-zadd r2 user_z exp_at k_auth user_z user_z,
            set_session-score r1 apart user_z,
            score-del r0 k_unauth user_z user_z,
            score-zrem r unauth_z k_unauth user_z user_z,
          ),
          deadline-expire_set r3 user_z at deadline_at k_auth exp_at member,
          ground (
            arith,
            later,
            holds-expire r3 user_z at deadline_at k_unauth,
            holds-zadd r2 user_z exp_at k_auth k_unauth,
            set_session-holds r1 k_unauth renamed,
            holds-del r0 k_unauth k_unauth,
          ),
        )

  del_each-holds :
      (ks : List String) (r : Keys) (k : String)
      → holds (del_each redis ks r) k ≡ (holds r k && not (occurs k ks))
  unfolding del_each
  del_each-holds [] r k = ground arith
  del_each-holds (j ∷ ks) r k = ground (arith, del_each-holds ks (del r j) k, holds-del r j k)

  logged_out :
      (z : String) (r : Keys)
      → let (r', members) = lua_logout_all redis z r in
        ((m : String) → occurs m members ≡ within 0 none (score r z m))
        × ((m : String) → score r' z m ≡ none)
        × ((k : String) → occurs k members ≡ true → holds r' k ≡ false)
  unfolding lua_logout_all
  logged_out z r =
      let members = zrange r z 0 none in
      let r1 = del_each redis members r in
      (
        occurs-zrange r z 0 none,
        λ m. ground (arith, score-del r1 z z m),
        λ k there. ground (arith, there, holds-del r1 z k, del_each-holds members r k),
      )

  module _ (conf : OnlineConfig) where
    -- Where the stage is on and the ttl is a second or more, a session whose unauthorized key is there,
    -- whose authorized key is not, and whose user's index is not a member of itself, is authorized:
    -- the unauthorized key is gone, and `IsOnline` says that the user is online at any later reading of
    -- the clock before the second in which the ttl ends, whatever has expired until then.
    pub authorize-is_online :
        (user snow : String) (at at' : Time) (r : Keys)
        → conf.unauth_ttl ≢ 0
        → 1000 ≤ conf.ttl
        → holds r (unauth_session_key conf snow) ≡ true
        → holds r (session_key conf user snow) ≡ false
        → score r (user_index_key conf user) (user_index_key conf user) ≡ none
        → unix at' < unix (at + conf.ttl)
        → let (r', result) = authorize redis conf user snow at r in
          (result ≡ authorized true)
          × (holds r' (unauth_session_key conf snow) ≡ false)
          × ((is_online redis conf user at' (pass at' r')).1 ≡ true)
    unfolding authorize lua_bind_user is_online
    authorize-is_online user snow at at' r on second there absent own soon =
        let z = user_index_key conf user in
        let k_auth = session_key conf user snow in
        let k_unauth = unauth_session_key conf snow in
        let off : (conf.unauth_ttl == 0) ≡ false = ground (arith, on) in
        let renamed : k_auth ≢ k_unauth = λ same. cc in
        let exp_at = unix (at + conf.ttl) in
        let (member, apart, until, gone) =
          bind_found_lem (unauth_index_key conf) z k_unauth k_auth (conf.ttl / 1000) exp_at
            conf.use_exat at r (user_index_key-ne conf user snow) renamed own (omega arith) in
        let r' =
          (bind_found redis (unauth_index_key conf) z k_unauth k_auth (conf.ttl / 1000) exp_at
            conf.use_exat at r).0 in
        let lives : alive at' (deadline r' z) ≡ true = ground (arith, until) in
        let late : within (unix at' + 1) none (score (pass at' r') z k_auth) ≡ true =
          ground (arith, score-pass r' at' z k_auth, member, lives) in
        let apart' : score (pass at' r') z z ≡ none =
          ground (arith, score-pass r' at' z z, apart) in
        rw (off, absent, there)
          (refl, gone, is_online-member z (unix at') at' (pass at' r') k_auth apart' late)

    -- `ForceLogoutUser` returns the members of the user's index, whatever their seconds; their
    -- session keys are gone; and `IsOnline` then finds no session, at any reading of the clock.
    pub force_logout_user-is_online :
        (user : String) (publish : Bool) (reason : String) (at : Time) (r : Keys)
        → let (r', keys, told) = force_logout_user redis conf user publish reason r in
          ((m : String) → occurs m keys ≡ within 0 none (score r (user_index_key conf user) m))
          × ((k : String) → occurs k keys ≡ true → holds r' k ≡ false)
          × ((is_online redis conf user at r').1 ≡ false)
          × ((is_online redis conf user at r').2 ≡ 0)
    unfolding force_logout_user is_online
    force_logout_user-is_online user publish reason at r =
        let z = user_index_key conf user in
        let (members, empty, gone) = logged_out z r in
        let (nobody, zero_count) =
          is_online-empty z (unix at) at (lua_logout_all redis z r).0 empty in
        (members, gone, nobody, zero_count)
