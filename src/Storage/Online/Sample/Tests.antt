-- ===== src/Storage/Online/Sample/Tests.antt =====
-- Runs of service/storage/online.go on these keys.
use ppchat.Prelude.{
  ◌≤◌, ◌<◌, ◌≡◌, ◌⊎◌, refl, arith, String, ite, true, false, none, some, [], ◌∷◌, ltb, length,
  str_dec, lookup, insert,
}
use ppchat.Storage.Online.RedisIndex.{Second, occurs, within}
use ppchat.Storage.Online.Keys.{OnlineConfig, user_index_key, unauth_session_key, session_key}
use ppchat.Storage.Online.Scripts.{
  lua_sweep, lua_get_active, lua_is_online, lua_get_newest, drop_due,
}
use ppchat.Storage.Online.Store.{authorized, authorize, is_online, force_logout_user, connect}
use ppchat.Storage.Online.Sweeping.{queries_agree}
use ppchat.Storage.Online.Lifetime.{authorize-is_online, force_logout_user-is_online}
use ppchat.Storage.Online.Sample.{Sample, sample}

abbrev conf : OnlineConfig
conf = record {
  node_id = "gw-1";
  ttl = 60000;
  channel_name = "online_changes";
  use_cluster_tag = true;
  use_exat = true;
  unauth_ttl = 30000;
  user_index_ttl = 120000;
}

-- One session is due in the second 3, the other in the second 9.
abbrev two_sessions : Sample
two_sessions = record {
  strings = λ k. ite (str_dec k "a") true (ite (str_dec k "b") true false);
  sets = λ z. ite (str_dec z "z") (("a", 3) ∷ ("b", 9) ∷ []) [];
  until = λ k. none;
}

abbrev nothing : Sample
nothing = record { strings = λ k. false; sets = λ z. []; until = λ k. none }

sweep_at_five : (lua_sweep sample "z" 5 5000 two_sessions).1 ≡ "a" ∷ []
unfolding lua_sweep drop_due lookup str_dec
sweep_at_five = refl

queries_agree_example :
    let actives = (lua_get_active sample "z" 5 5000 two_sessions).1 in
    let online = lua_is_online sample "z" 5 5000 two_sessions in
    let newest = (lua_get_newest sample "z" 5 5000 two_sessions).1 in
    ((m : String) → occurs m actives ≡ within 6 none (sample.score two_sessions "z" m))
    × (online.1 ≡ ltb 0 (length actives))
    × (online.2 ≡ length actives)
    × (((actives ≡ []) × (newest ≡ ""))
        ⊎ ((s : Second) × (sample.score two_sessions "z" newest ≡ some s)
            × (5 < s)
            × ((m : String) (s' : Second) → sample.score two_sessions "z" m ≡ some s' → s' ≤ s)))
unfolding lookup str_dec
queries_agree_example = queries_agree sample "z" 5 5000 two_sessions refl

-- The session that `Connect` made, at 40 seconds.
abbrev connected : Sample
connected = (connect sample conf "77" 40000 nothing).0

authorize-is_online_example :
    let (r', result) = authorize sample conf "alice" "77" 41000 connected in
    (result ≡ authorized true)
    × (sample.holds r' (unauth_session_key conf "77") ≡ false)
    × ((is_online sample conf "alice" 90000 (sample.pass 90000 r')).1 ≡ true)
unfolding lookup insert connect unauth_session_key session_key user_index_key str_dec
authorize-is_online_example =
    authorize-is_online sample conf "alice" "77" 41000 90000 connected (λ e. absurd (omega arith))
      (omega arith) refl refl refl (omega arith)

force_logout_user-is_online_example :
    let (r', keys, told) = force_logout_user sample conf "alice" false "admin" connected in
    ((m : String)
      → occurs m keys ≡ within 0 none (sample.score connected (user_index_key conf "alice") m))
    × ((k : String) → occurs k keys ≡ true → sample.holds r' k ≡ false)
    × ((is_online sample conf "alice" 50000 r').1 ≡ false)
    × ((is_online sample conf "alice" 50000 r').2 ≡ 0)
force_logout_user-is_online_example =
    force_logout_user-is_online sample conf "alice" false "admin" 50000 connected
